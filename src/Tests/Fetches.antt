-- ===== src/Tests/Fetches.antt =====
-- Reports that a client fetches, of a game in progress and of one that has ended.
use rc.Base.Int.{pos}
use rc.Play.InStep.{IsOver}
use rc.Store.Games.Active.{ended}
use rc.Store.Records.Sessions.{session_text}
use rc.Store.Records.{Endings}
use rc.Store.Reports.Finished.{Outcome}
use rc.Store.{Store}
use rc.Tests.Samples.{no_store, rgby}
use rc.Base.{[], ◌++◌, true, false, Bytes, codes}
use rc.Client.State.{Console}
use rc.Play.InStep.{IsOver}
use rc.Play.Network.{World}
use rc.Tests.Samples.{calendar, player, rgby, game, no_store}
use rc.Tcp.Packets.{TrialsStatus, ReplyShowTrialsPacket}
use rc.Tests.Play.{client, console}

abbrev state_report : Bytes
state_report =
    codes "\nPlayer: 123456 | Mode: PLAY\nStatus: Active | Secret code: ????\n"
    ++ (codes "Game initiated: 1000 1000 with 600s to be completed\n"
        ++ (codes "\n    --- No transactions found ---\n\n"
            ++ codes "\n    --- 590 seconds remaining ---\n"))

abbrev old_trials : ReplyShowTrialsPacket
old_trials = record { status = TrialsStatus.nok; fname = []; fdata = []; fsize = 7 }

abbrev left : Outcome
left = record { reason = Endings.quit; tstamp = 1010; used_time = 10 }

abbrev left_files : Store
left_files =
    ended calendar player Endings.quit 1010 (pos 10) (session_text calendar (game [])) no_store

-- The client after it has quit.
abbrev over : Console World
over = record console {
  game = record client { is_game = false; finished = true; key = rgby };
  world = record { store = left_files; inbox = [] };
}

abbrev end_report : Bytes
end_report =
    codes "\nPlayer: 123456 | Mode: PLAY\nStatus: Finished | Secret code: RGBY\n"
    ++ (codes "Game initiated: 1000 1000 with 600s to be completed\n"
        ++ (codes "\n    --- No transactions found ---\n\n"
            ++ codes "\nGame terminated: QUIT at 1010 1010\nDuration: 10 seconds\n"))
