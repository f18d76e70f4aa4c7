-- ===== src/Client/Sockets.antt =====
-- client/sockets/UdpSocket.cpp and TcpSocket.cpp: the descriptors that the client opens, and the
-- limits it sets on them.
pub mod Closed
use rc.Base.{ℕ, Bool, Bytes, Option}
use rc.Client.UdpCommands.{reported}
use rc.Constants.{server_recv_timeout, client_recv_timeout, client_send_timeout}
use rc.Exceptions.{
  Exception, Result, return, throw, socket_address_resolve, socket_set_opt, connect_tcp,
}
use rc.Sockets.{Socket, unused, open_fd, limit_recv, end}
use rc.Store.{Op, resume, ◌>>=◌, ◌>>◌, require}

-- Which calls of a set-up succeed; `opened` is what `socket` returns.
pub record Calls : Type 0 where
  pub resolves : Bool
  pub opened : Option ℕ
  pub reuses : Bool
  pub limits : Bool
  pub limits_again : Bool
  pub connects : Bool

-- Both limits are set with `SO_RCVTIMEO`.
unfoldable pub create_socket : ℕ → Calls → Op Socket (Unit {0})
unfolding unused open_fd limit_recv
create_socket recv_limit calls = do
  unused
  open_fd calls.opened
  require calls.reuses socket_set_opt
  limit_recv calls.limits recv_limit
  limit_recv calls.limits_again client_send_timeout

unfoldable pub setup_udp : Calls → Op Socket (Unit {0})
unfolding create_socket
setup_udp calls = do
  require calls.resolves socket_address_resolve
  create_socket client_recv_timeout calls

unfoldable pub setup_tcp : Calls → Op Socket (Unit {0})
unfolding create_socket
setup_tcp calls = do
  require calls.resolves socket_address_resolve
  create_socket server_recv_timeout calls
  require calls.connects connect_tcp

-- The handlers of client/commands/tcp_commands.cpp from their socket's side: what `getPlid` gives,
-- `setup`, the rest of the `try` block, which is an argument, and `end` behind whatever was caught.
unfoldable pub trials_command :
    Calls
    → Result Bytes
    → (Bytes → Op Socket (Unit {0}))
    → Socket
    → Result (Option Exception) × Socket
unfolding setup_tcp reported end
trials_command calls plid exchange s =
    let (r, t) =
      reported ((do player_id ← λ socket. (plid, socket); setup_tcp calls; exchange player_id) s) in
    (r, end t)

unfoldable pub scoreboard_command :
    Calls → Op Socket (Unit {0}) → Socket → Result (Option Exception) × Socket
unfolding setup_tcp reported end
scoreboard_command calls exchange s =
    let (r, t) = reported ((setup_tcp calls >> exchange) s) in (r, end t)
