-- ===== src/Server.antt =====
-- server/Server.cpp: one turn of the loop of `runUdp`, from the datagram to the reply's bytes.
pub mod UdpCommands
pub mod TcpCommands
pub mod Connections
pub mod Sockets
pub mod Loops
pub mod WorkerPool
pub mod Keeps
pub mod Histories
use rc.Base.{ℕ, zero, suc, [], ◌∷◌, Bytes, bytes_eq, if◌then◌else◌, Option}
use rc.Constants.{sock_buffer_size}
use rc.Exceptions.{Exception, Result, return, throw, unexpected_packet, undefined_behaviour}
use rc.Server.UdpCommands.{
  UdpPacket, encode, start_new_game_handler, try_handler, quit_handler, debug_game_handler,
}
use rc.Store.{Store, Calendar, Disk}
use rc.Udp.Parser.{Stream, stream, parse_packet_id}
use rc.Udp.Replies.{encode_error}
use rc.Udp.Requests.{sng, try_id, qut, dbg}

-- `recvfrom` on a buffer of this size drops what does not fit.
unfoldable pub received : ℕ → Bytes → Bytes
received zero datagram = []
received (suc n) [] = []
received (suc n) (c ∷ datagram) = c ∷ received n datagram

-- What is sent: the reply, or the error packet where an exception came out of the dispatch.
unfoldable pub response : Result UdpPacket → Result Bytes
unfolding encode
response (return p) = return (encode p)
response (throw undefined_behaviour) = throw undefined_behaviour
response (throw e) = return encode_error

module _ (cal : Calendar) (disk : Disk) (now : ℕ) (entropy : Option Bytes) where
  -- The map from packet identifiers to handlers; one that it lacks is an exception.
  unfoldable pub handle_udp_command : Bytes → Stream → Store → Result UdpPacket × Store
  unfolding bytes_eq
  handle_udp_command packet_id packet store =
      if bytes_eq packet_id sng
      then start_new_game_handler cal disk now entropy packet store
      else if bytes_eq packet_id try_id
      then try_handler cal disk now packet store
      else if bytes_eq packet_id qut
      then quit_handler cal disk now packet store
      else if bytes_eq packet_id dbg
      then debug_game_handler cal disk now packet store
      else (throw unexpected_packet, store)

  unfoldable pub dispatched : Result (Bytes × Stream) → Store → Result UdpPacket × Store
  dispatched (return (packet_id, packet)) store = handle_udp_command packet_id packet store
  dispatched (throw e) store = (throw e, store)

  unfoldable pub run_udp : Bytes → Store → Result Bytes × Store
  run_udp datagram store =
      let r = dispatched (parse_packet_id (stream [] (received sock_buffer_size datagram))) store in
      (response r.0, r.1)
