-- ===== src/Server/Connections.antt =====
-- server/Server.cpp: what a worker thread does with one TCP connection.
pub mod Answers
use rc.Base.{ℕ, Bytes, bytes_eq, codes, if◌then◌else◌}
use rc.Exceptions.{Exception, Result, return, throw, unexpected_packet, undefined_behaviour}
use rc.Server.TcpCommands.{TcpPacket, sent_text, show_trials_handler, show_scoreboard_handler}
use rc.Store.{Store, Calendar, Disk}
use rc.Tcp.Packets.{send_error}
use rc.Tcp.Parser.{parse_packet_id}

-- What goes out: the reply, or the error packet where an exception came out of the dispatch.
unfoldable pub connection_response : Result TcpPacket → Result Bytes
unfolding sent_text
connection_response (return p) = return (sent_text p)
connection_response (throw undefined_behaviour) = throw undefined_behaviour
connection_response (throw e) = return send_error

-- `closing` is what a read past the end of what the client sent throws.
module _ (cal : Calendar) (disk : Disk) (closing : Exception) (now : ℕ) where
  unfoldable pub handle_tcp_command : Bytes → Bytes → Store → Result TcpPacket × Store
  unfolding bytes_eq
  handle_tcp_command packet_id incoming store =
      if bytes_eq packet_id (codes "STR")
      then show_trials_handler cal disk closing now incoming store
      else if bytes_eq packet_id (codes "SSB")
      then show_scoreboard_handler cal disk closing now incoming store
      else (throw unexpected_packet, store)

  unfoldable pub tcp_dispatched : Result Bytes × Bytes → Store → Result TcpPacket × Store
  tcp_dispatched (return packet_id, incoming) store = handle_tcp_command packet_id incoming store
  tcp_dispatched (throw e, incoming) store = (throw e, store)

  unfoldable pub handle_tcp_connection : Bytes → Store → Result Bytes × Store
  unfolding tcp_dispatched connection_response
  handle_tcp_connection incoming store =
      let r = tcp_dispatched (parse_packet_id closing incoming) store in
      (connection_response r.0, r.1)
