-- ===== src/Server/Loops/Replies.antt =====
-- What the UDP loop sends in a whole run, and the files it leaves.
use rc.Base.{
  ℕ, suc, ◌≤◌, List, [], ◌∷◌, Bool, true, false, ◌≡◌, refl, ap, arith, Bytes, Option, some, length,
  if◌then◌else◌,
}
use rc.Constants.{secret_key_len, sock_buffer_size}
use rc.Exceptions.{Result, return}
use rc.Server.Histories.{later-IsSound}
use rc.Server.Keeps.{run_udp_keeps}
use rc.Server.Loops.{Round, sent_first, received_event, run_udp_loop}
use rc.Sockets.{Answer}
use rc.Server.Sockets.{receive_packet}
use rc.Server.{received, run_udp}
use rc.Store.Games.Active.{working}
use rc.Store.Games.Sound.{IsSound}
use rc.Store.Records.Sessions.{IsCalendar}
use rc.Store.{Store, Calendar}
use rc.Udp.Replies.{encode_error}

-- The clock of the rounds does not run backwards and stays below 2 ^ 31, and `/dev/urandom` yields
-- four bytes in each of them.
pub data Steady : ℕ → List Round → Type 0 where
  ended : (now : ℕ) → Steady now []
  going :
      (now : ℕ) (r : Round) (rounds : List Round) (bytes : Bytes)
      → now ≤ r.now
      → r.now ≤ 2147483647
      → r.entropy ≡ some bytes
      → length bytes ≡ secret_key_len
      → Steady r.now rounds
      → Steady now (r ∷ rounds)

-- How many replies are due: one for each datagram and one for each reception that fails, until the
-- flag is seen.
abbrev pub due : Bool → Answer Bytes → ℕ → ℕ
due terminated (Answer.ready datagram) more = suc more
due true _ more = 0
due false Answer.again more = more
due false Answer.failed more = suc more

unfoldable pub replies_due : List Round → ℕ
replies_due [] = 0
replies_due (r ∷ rounds) = if r.stops then 0 else due r.terminated r.recv (replies_due rounds)

-- `n` replies, and games in order at some time not before `now`.
abbrev pub Served : Calendar → ℕ → ℕ → Result (List Bytes) × Store → Type 0
Served cal now n r =
    ((replies : List Bytes) × (r.0 ≡ return replies) × (length replies ≡ n))
    × ((later : ℕ) × (now ≤ later) × IsSound cal later r.1.games)

Served-later :
    (cal : Calendar) (now later n : ℕ) (r : Result (List Bytes) × Store)
    → now ≤ later
    → Served cal later n r
    → Served cal now n r
Served-later cal now later n r h (sent, (end, after, sound)) =
    (sent, (end, omega (arith, h, after), sound))

-- One more reply in front of those of the rounds that follow.
Served-first :
    (cal : Calendar) (now n : ℕ) (reply : Bytes) (first : Result Bytes)
    (r : Result (List Bytes) × Store)
    → first ≡ return reply
    → Served cal now n r
    → Served cal now (suc n) (sent_first first r.0, r.1)
Served-first cal now n reply first r h ((replies, sent, len), kept) =
    ((reply ∷ replies, rw (h, sent) refl, ap suc len), kept)

module _ (cal : Calendar) (ok_cal : IsCalendar cal) where
  module _ (now : ℕ) (int_now : now ≤ 2147483647) (bytes : Bytes)
      (four : length bytes ≡ secret_key_len) (n : ℕ) (rest : Store → Result (List Bytes) × Store)
      (goes_on : (s : Store) → IsSound cal now s.games → Served cal now n (rest s)) (s : Store)
      (sound : IsSound cal now s.games) where
    received_event-Served :
        (terminated : Bool) (recv : Answer Bytes)
        → Served cal now (due terminated recv n) (
            received_event
              (receive_packet terminated recv)
              (run_udp cal working now (some bytes))
              rest
              s)
    unfolding receive_packet received_event
    received_event-Served terminated (Answer.ready d) =
        let datagram = received sock_buffer_size d in
        let (kept, reply, sent) =
          run_udp_keeps cal ok_cal now int_now bytes four s sound datagram in
        let after_turn = (run_udp cal working now (some bytes) datagram s).1 in
        Served-first cal now n reply _ (rest after_turn) sent (goes_on after_turn kept)
    received_event-Served true Answer.again = (([], refl, refl), (now, omega arith, sound))
    received_event-Served true Answer.failed = (([], refl, refl), (now, omega arith, sound))
    received_event-Served false Answer.again = goes_on s sound
    received_event-Served false Answer.failed =
        Served-first cal now n encode_error (return encode_error) (rest s) refl (goes_on s sound)

    round-Served :
        (r : Round) (before : ℕ) (stops : Bool) (source : Option Bytes)
        → r.now ≡ now
        → source ≡ some bytes
        → before ≤ now
        → Served cal before (if stops then 0 else due r.terminated r.recv n) (
            if stops
            then (return [], s)
            else received_event
                (receive_packet r.terminated r.recv)
                (run_udp cal working r.now source)
                rest
                s)
    round-Served r before true source at h forward = (([], refl, refl), (now, forward, sound))
    round-Served r before false source at h forward =
        rw (at, h)
          (Served-later cal before now (due r.terminated r.recv n)
            (received_event (receive_packet r.terminated r.recv)
              (run_udp cal working now (some bytes)) rest s)
            forward (received_event-Served r.terminated r.recv))

  -- On a disk that works, with a clock below 2 ^ 31 that does not run backwards and `/dev/urandom`
  -- yielding four bytes, the loop of the UDP thread, begun with all games in order, sends one reply
  -- for each datagram and for each reception that fails until it sees the flag, whatever the
  -- datagrams hold, and it leaves all games in order.
  pub run_udp_loop-Served :
      (now : ℕ) (rounds : List Round) (s : Store)
      → Steady now rounds
      → IsSound cal now s.games
      → Served cal now (replies_due rounds) (run_udp_loop cal working rounds s)
  unfolding run_udp_loop replies_due
  run_udp_loop-Served now [] s (Steady.ended t) sound =
      (([], refl, refl), (now, omega arith, sound))
  run_udp_loop-Served now (r ∷ rounds) s
        (Steady.going t u us bytes forward int_now entropy four steady) sound =
      round-Served r.now int_now bytes four (replies_due rounds) (run_udp_loop cal working rounds)
        (λ t sound_t. run_udp_loop-Served r.now rounds t steady sound_t) s
        (later-IsSound cal now r.now s.games forward sound) r now r.stops r.entropy refl entropy
        forward
