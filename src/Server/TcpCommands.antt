-- ===== src/Server/TcpCommands.antt =====
-- server/commands/tcp_commands.cpp: the two handlers. Each reads its request from the connection and
-- leaves a reply; what it writes to the log is left out.
use rc.Base.{ℕ, [], ◌∷◌, ◌++◌, Bytes, codes, length}
use rc.Exceptions.{Exception, Result, return, throw, undefined_behaviour}
use rc.Server.UdpCommands.{fresh_call}
use rc.Store.Reports.Scoreboard.{get_scoreboard}
use rc.Store.Reports.{GameStatus, get_last_game}
use rc.Store.{Store, Calendar, Disk}
use rc.Tcp.Packets.{
  ShowTrialsPacket, TrialsStatus, ReplyShowTrialsPacket, ScoreboardStatus,
  ReplyShowScoreboardPacket, read_show_trials, read_show_scoreboard, send_reply_show_trials,
  send_reply_show_scoreboard,
}
use rc.Tcp.Reports.{trials_packet}

-- The packets behind a `std::unique_ptr<TcpPacket>` that the server sends.
pub data TcpPacket : Type 0 where
  reply_trials : ReplyShowTrialsPacket → TcpPacket
  reply_scoreboard : ReplyShowScoreboardPacket → TcpPacket

-- The virtual `send`.
unfoldable pub sent_text : TcpPacket → Bytes
sent_text (TcpPacket.reply_trials p) = send_reply_show_trials p
sent_text (TcpPacket.reply_scoreboard p) = send_reply_show_scoreboard p

unfoldable pub status_of : GameStatus → TrialsStatus
status_of GameStatus.act = TrialsStatus.act
status_of GameStatus.fin = TrialsStatus.fin

-- "STATE_" + plid + ".txt".
unfoldable pub state_fname : Bytes → Bytes
state_fname plid = codes "STATE_" ++ (plid ++ codes ".txt")

abbrev no_trials : ReplyShowTrialsPacket
no_trials = record { status = TrialsStatus.nok; fname = []; fdata = []; fsize = 0 }

-- Every exception leaves the status `NOK`.
unfoldable pub trials_reply : Bytes → Result (GameStatus × Bytes) → Result TcpPacket
unfolding status_of state_fname
trials_reply plid (return (status, file)) =
    return (TcpPacket.reply_trials (trials_packet (status_of status) (state_fname plid) file))
trials_reply plid (throw undefined_behaviour) = throw undefined_behaviour
trials_reply plid (throw e) = return (TcpPacket.reply_trials no_trials)

abbrev scoreboard_packet : Bytes → ReplyShowScoreboardPacket
scoreboard_packet file = record {
  status = ScoreboardStatus.ok;
  fname = codes "TOPSCORES.txt";
  fdata = file ++ b'\n' ∷ [];
  fsize = length file;
}

abbrev no_scoreboard : ReplyShowScoreboardPacket
no_scoreboard = record { status = ScoreboardStatus.empty; fname = []; fdata = []; fsize = 0 }

-- Every exception, that of an empty scoreboard or another, leaves the status `EMPTY`.
unfoldable pub scoreboard_reply : Result Bytes → Result TcpPacket
scoreboard_reply (return file) = return (TcpPacket.reply_scoreboard (scoreboard_packet file))
scoreboard_reply (throw undefined_behaviour) = throw undefined_behaviour
scoreboard_reply (throw e) = return (TcpPacket.reply_scoreboard no_scoreboard)

module _ (cal : Calendar) (disk : Disk) (closing : Exception) (now : ℕ) where
  -- Where `read` threw, the store is not touched.
  unfoldable pub trials_read : Result ShowTrialsPacket → Store → Result TcpPacket × Store
  unfolding trials_reply
  trials_read (return request) store =
      let r = get_last_game cal disk request.player_id now (fresh_call store) in
      (trials_reply request.player_id r.0, r.1.store)
  trials_read (throw e) store = (trials_reply [] (throw e), store)

  unfoldable pub show_trials_handler : Bytes → Store → Result TcpPacket × Store
  unfolding trials_read
  show_trials_handler incoming store = trials_read (read_show_trials closing incoming).0 store

  unfoldable pub scoreboard_read : Result (Unit {0}) → Store → Result TcpPacket × Store
  unfolding scoreboard_reply
  scoreboard_read (return tt) store = (scoreboard_reply (get_scoreboard store.scores), store)
  scoreboard_read (throw e) store = (scoreboard_reply (throw e), store)

  unfoldable pub show_scoreboard_handler : Bytes → Store → Result TcpPacket × Store
  unfolding scoreboard_read
  show_scoreboard_handler incoming store =
      scoreboard_read (read_show_scoreboard closing incoming).0 store
