-- ===== src/Client/TcpCommands.antt =====
-- client/commands/tcp_commands.cpp: the handlers that fetch a file and save it. What a handler
-- catches and prints is its result.
use rc.Base.{Bool, Option, Bytes}
use rc.Client.State.{Console, get_plid, save_file}
use rc.Client.UdpCommands.{given, reported}
use rc.Client.UdpSocket.{on_world}
use rc.Exceptions.{Exception, bad_command, empty_scoreboard}
use rc.Store.{Op, ◌>>=◌, ◌>>◌, fail}
use rc.Tcp.Packets.{
  TrialsStatus, ReplyShowTrialsPacket, ScoreboardStatus, ReplyShowScoreboardPacket,
  send_show_trials, send_show_scoreboard, read_reply_show_trials, read_reply_show_scoreboard,
}
use rc.Tcp.Parser.{Reader}

-- A TCP socket: what connecting and sending do to the world, the bytes that come in until the
-- server closes, and what a read past them throws.
pub record Connection (W : Type 0) : Type 0 where
  pub connect : Op W (Unit {0})
  pub write : Bytes → Op W (Unit {0})
  pub incoming : Op W Bytes
  pub closing : Exception

-- `saves` says whether the disk takes a file; the reply objects are not initialised before `read`
-- fills them.
module _ {W : Type 0} (conn : Connection W) (saves : Bool) where
  -- `setup`, one packet out and one in.
  unfoldable pub query : {A : Type 0} → Bytes → Reader A → Op (Console W) A
  query packet read = do
    on_world conn.connect
    on_world (conn.write packet)
    bytes ← on_world conn.incoming
    given (read bytes).0

  unfoldable pub trials_replied : TrialsStatus → ReplyShowTrialsPacket → Op (Console W) (Unit {0})
  trials_replied TrialsStatus.act reply = save_file saves reply.fname reply.fdata
  trials_replied TrialsStatus.fin reply = save_file saves reply.fname reply.fdata
  trials_replied TrialsStatus.nok reply = fail bad_command

  unfoldable pub show_trials_handler : ReplyShowTrialsPacket → Op (Console W) (Option Exception)
  unfolding trials_replied
  show_trials_handler old c = reported (
      (do
        plid ← get_plid
        reply ←
            query (send_show_trials (record { player_id = plid }))
              (read_reply_show_trials conn.closing old)
        trials_replied reply.status reply)
        c)

  unfoldable pub scoreboard_replied :
      ScoreboardStatus → ReplyShowScoreboardPacket → Op (Console W) (Unit {0})
  scoreboard_replied ScoreboardStatus.ok reply = save_file saves reply.fname reply.fdata
  scoreboard_replied ScoreboardStatus.empty reply = fail empty_scoreboard

  unfoldable pub show_scoreboard_handler :
      ReplyShowScoreboardPacket → Op (Console W) (Option Exception)
  unfolding scoreboard_replied
  show_scoreboard_handler old c = reported (
      (do
        reply ← query send_show_scoreboard (read_reply_show_scoreboard conn.closing old)
        scoreboard_replied reply.status reply)
        c)
