-- ===== src/Client/UdpSocket.antt =====
-- client/sockets/UdpSocket.cpp: a packet is sent as a C string, and a reply is cut to the buffer.
use rc.Base.{Bytes}
use rc.Client.State.{Console}
use rc.Constants.{sock_buffer_size}
use rc.Exceptions.{Exception, Result, return, throw, client_timeout, client_receive, client_send}
use rc.Sockets.{Answer}
use rc.Server.{received}
use rc.Store.{Op, ◌>>=◌, done}
use rc.Udp.Parser.{until_nul}

-- The system calls on the socket: what they do to the world behind it, and what they answer.
pub record Network (W : Type 0) : Type 0 where
  pub sendto : Bytes → W → Answer (Unit {0}) × W
  pub recvfrom : W → Answer Bytes × W

-- `errno` after a call that failed: `EAGAIN` is a timeout.
unfoldable pub or_error : {A : Type 0} → Exception → Answer A → Result A
or_error e (Answer.ready a) = return a
or_error e Answer.again = throw client_timeout
or_error e Answer.failed = throw e

module _ {W : Type 0} where
  abbrev to_console : {A : Type 0} → Console W → Result A × W → Result A × Console W
  to_console c (r, w) = (r, record c { world = w })

  abbrev pub on_world : {A : Type 0} → Op W A → Op (Console W) A
  on_world m c = to_console c (m c.world)

  -- A call that throws the exception for any error but a timeout.
  unfoldable pub checked : {A : Type 0} → Exception → (W → Answer A × W) → Op (Console W) A
  unfolding or_error
  checked e call = on_world (λ w. let r = call w in (or_error e r.0, r.1))

module _ {W : Type 0} (net : Network W) where
  unfoldable pub send_packet : Bytes → Op (Console W) (Unit {0})
  unfolding until_nul checked
  send_packet packet = checked client_send (net.sendto (until_nul packet))

  unfoldable pub receive_packet : Op (Console W) Bytes
  unfolding received checked
  receive_packet = do
    datagram ← checked client_receive net.recvfrom
    done (received sock_buffer_size datagram)
