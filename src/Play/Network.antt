-- ===== src/Play/Network.antt =====
-- The client's socket joined to the server's loop by a network that loses nothing.
use rc.Base.{
  ℕ, zero, suc, ◌≤◌, [], ◌∷◌, ◌++◌, ◌≡◌, refl, ap, arith, List, Bytes, some, length, All, false,
  ◌==◌,
}
use rc.Client.State.{Console}
use rc.Client.UdpCommands.{exchange}
use rc.Client.UdpSocket.{Network, send_packet, receive_packet, checked, or_error}
use rc.Sockets.{Answer}
use rc.Constants.{sock_buffer_size}
use rc.Exceptions.{Result, return, throw}
use rc.Server.{received, run_udp}
use rc.Store.Games.Active.{working}
use rc.Store.{Store, Calendar}
use rc.Udp.Parser.{Parser, run, until_nul}
use rc.Udp.Replies.{ReplyTryPacket, ReplyQuitPacket}

-- The server's files, and the replies on their way to the client.
pub record World : Type 0 where
  pub store : Store
  pub inbox : List Bytes

-- A turn without a reply leaves nothing on its way.
abbrev posted : List Bytes → Result Bytes × Store → Answer (Unit {0}) × World
posted inbox (return reply, store) =
    (Answer.ready tt, record { store = store; inbox = inbox ++ reply ∷ [] })
posted inbox (throw e, store) = (Answer.ready tt, record { store = store; inbox = inbox })

abbrev first_reply : World → List Bytes → Answer Bytes × World
first_reply w [] = (Answer.again, w)
first_reply w (reply ∷ inbox) = (Answer.ready reply, record w { inbox = inbox })

-- Every datagram is answered by a turn of the server's loop at the time `now`.
abbrev pub server_net : Calendar → ℕ → Bytes → Network World
server_net cal now bytes = record {
  sendto = λ d w. posted w.inbox (run_udp cal working now (some bytes) d w.store);
  recvfrom = λ w. first_reply w w.inbox;
}

abbrev pub NotNul : ℕ → Type 0
NotNul c = (c == 0) ≡ false

pub until_nul-whole : (s : Bytes) → All NotNul s → until_nul s ≡ s
unfolding until_nul
until_nul-whole [] h = refl
until_nul-whole (c ∷ s) h = rw (h.0, until_nul-whole s h.1)

pub received-whole : (n : ℕ) (s : Bytes) → length s ≤ n → received n s ≡ s
unfolding received
received-whole zero [] h = refl
received-whole zero (c ∷ s) h = absurd (omega arith)
received-whole (suc n) [] h = refl
received-whole (suc n) (c ∷ s) h = ap (λ t. c ∷ t) (received-whole n s (omega arith))

-- A request without NUL bytes, and a reply that fits the client's buffer: the client decodes the
-- reply, and the files are those after the server's turn.
module _ (cal : Calendar) (now : ℕ) (bytes : Bytes) (old_try : ReplyTryPacket)
    (old_quit : ReplyQuitPacket) where
  pub exchange_lem :
      {A : Type 0} (packet reply : Bytes) (s : Store) (decode : Parser A) (c : Console World)
      → c.world.inbox ≡ []
      → All NotNul packet
      → run_udp cal working now (some bytes) packet c.world.store ≡ (return reply, s)
      → length reply ≤ sock_buffer_size
      → exchange (server_net cal now bytes) old_try old_quit packet decode c
        ≡ (run decode reply, record c { world = record { store = s; inbox = [] } })
  unfolding exchange send_packet receive_packet checked or_error
  exchange_lem packet reply s decode c empty solid turn fits =
      rw (until_nul-whole packet solid, turn, empty, received-whole sock_buffer_size reply fits)
