-- ===== src/Server/Sockets.antt =====
-- server/sockets/UdpSocket.cpp and TcpSocket.cpp: what the wrappers make of the answers of the system
-- calls, which are arguments.
use rc.Base.{ℕ, Bool, true, false, [], Bytes, Option, none, some}
use rc.Constants.{
  sock_buffer_size, server_recv_timeout, tcp_conn_recv_timeout, tcp_conn_send_timeout,
}
use rc.Exceptions.{
  Result, return, throw, socket_address_resolve, socket_set_opt, socket_bind, socket_listen,
  server_receive, accept_tcp_connection,
}
use rc.Server.{received}
use rc.Sockets.{Answer, Socket, unused, open_fd, limit_recv, limit_send}
use rc.Store.{Op, ◌>>◌, require}

-- `enum Events`.
pub data Events : Type 0 where
  ok timeout terminate : Events

-- `terminated` is the flag that the signal handler sets, as it is read behind a call that failed.
unfoldable pub receive_packet : Bool → Answer Bytes → Result (Events × Bytes)
unfolding received
receive_packet terminated (Answer.ready datagram) =
    return (Events.ok, received sock_buffer_size datagram)
receive_packet true _ = return (Events.terminate, [])
receive_packet false Answer.again = return (Events.timeout, [])
receive_packet false Answer.failed = throw server_receive

unfoldable pub accept_connection : Bool → Answer ℕ → Result (Events × Option ℕ)
accept_connection terminated (Answer.ready conn_fd) = return (Events.ok, some conn_fd)
accept_connection true _ = return (Events.terminate, none)
accept_connection false Answer.again = return (Events.timeout, none)
accept_connection false Answer.failed = throw accept_tcp_connection

-- On the descriptor of a connection.
unfoldable pub setup_connection : Bool → Bool → Op Socket (Unit {0})
unfolding limit_recv limit_send
setup_connection recv_set send_set = do
  limit_recv recv_set tcp_conn_recv_timeout
  limit_send send_set tcp_conn_send_timeout

-- Which calls of a set-up succeed; `opened` is what `socket` returns.
pub record Calls : Type 0 where
  pub resolves : Bool
  pub opened : Option ℕ
  pub reuses : Bool
  pub limits : Bool
  pub binds : Bool
  pub listens : Bool

-- `createSocket` of the UDP socket, and the beginning of that of the TCP socket.
unfoldable pub create_udp : Calls → Op Socket (Unit {0})
unfolding unused open_fd limit_recv
create_udp calls = do
  unused
  open_fd calls.opened
  require calls.reuses socket_set_opt
  limit_recv calls.limits server_recv_timeout
  require calls.binds socket_bind

unfoldable pub create_tcp : Calls → Op Socket (Unit {0})
unfolding create_udp
create_tcp calls = do create_udp calls; require calls.listens socket_listen

unfoldable pub setup_udp : Calls → Op Socket (Unit {0})
unfolding create_udp
setup_udp calls = do require calls.resolves socket_address_resolve; create_udp calls

unfoldable pub setup_tcp : Calls → Op Socket (Unit {0})
unfolding create_tcp
setup_tcp calls = do require calls.resolves socket_address_resolve; create_tcp calls
