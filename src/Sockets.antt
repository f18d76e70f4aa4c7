-- ===== src/Sockets.antt =====
-- The sockets of the server and of the client, as the system keeps them: the descriptor of a wrapper
-- and the limits that `setsockopt` sets. What a system call answers is an argument.
use rc.Base.{ℕ, Bool, true, false, Option, none, some}
use rc.Exceptions.{return, throw, socket_already_created, socket_open, socket_set_opt}
use rc.Store.{Op}

-- What a call on a socket returns: what is asked for, such as a datagram or a descriptor, `EAGAIN`, or
-- another error.
pub data Answer (A : Type 0) : Type 0 where
  ready : A → Answer A
  again failed : Answer A

-- `fd` is `none` where the source has -1; a limit that is `none` is no limit.
pub record Socket : Type 0 where
  pub fd : Option ℕ
  pub recv_timeout : Option ℕ
  pub send_timeout : Option ℕ

abbrev pub no_socket : Socket
no_socket = record { fd = none; recv_timeout = none; send_timeout = none }

-- A new descriptor, without limits.
abbrev pub opened_socket : ℕ → Socket
opened_socket n = record { fd = some n; recv_timeout = none; send_timeout = none }

-- The guard of every `createSocket`.
abbrev pub unused_fd : Option ℕ → Op Socket (Unit {0})
unused_fd none s = (return tt, s)
unused_fd (some n) s = (throw socket_already_created, s)

unfoldable pub unused : Op Socket (Unit {0})
unused s = unused_fd s.fd s

-- `socket`.
unfoldable pub open_fd : Option ℕ → Op Socket (Unit {0})
open_fd none s = (throw socket_open, no_socket)
open_fd (some n) s = (return tt, opened_socket n)

-- `setsockopt` with `SO_RCVTIMEO`, and with `SO_SNDTIMEO`.
unfoldable pub limit_recv : Bool → ℕ → Op Socket (Unit {0})
limit_recv true seconds s = (return tt, record s { recv_timeout = some seconds })
limit_recv false seconds s = (throw socket_set_opt, s)

unfoldable pub limit_send : Bool → ℕ → Op Socket (Unit {0})
limit_send true seconds s = (return tt, record s { send_timeout = some seconds })
limit_send false seconds s = (throw socket_set_opt, s)

-- The end of a wrapper: what is open is closed.
unfoldable pub end : Socket → Socket
end s = no_socket
