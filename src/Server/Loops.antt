-- ===== src/Server/Loops.antt =====
-- server/Server.cpp: the loops of `runUdp` and `runTcp`. A round is what the system calls of one turn
-- answer; a loop ends with the last round that is given, or before.
pub mod Replies
pub mod Connected
pub mod Closing
use rc.Base.{ℕ, Bool, true, false, List, [], ◌∷◌, Bytes, Option, none, some, if◌then◌else◌}
use rc.Exceptions.{Exception, Result, return, throw, undefined_behaviour}
use rc.Server.Sockets.{Events, receive_packet, accept_connection, setup_connection}
use rc.Server.WorkerPool.{Pool, worker_thread, enqueue_connection}
use rc.Server.{run_udp}
use rc.Sockets.{Answer, opened_socket}
use rc.Store.{Store, Calendar, Disk}
use rc.Udp.Replies.{encode_error}

-- `stops` is the flag as the head of the loop reads it, `terminated` as it is read behind a call.
pub record Round : Type 0 where
  pub stops : Bool
  pub recv : Answer Bytes
  pub terminated : Bool
  pub now : ℕ
  pub entropy : Option Bytes

-- The replies, with one in front.
abbrev pub sent_first : Result Bytes → Result (List Bytes) → Result (List Bytes)
sent_first (return reply) (return replies) = return (reply ∷ replies)
sent_first (return reply) (throw e) = throw e
sent_first (throw e) replies = throw e

-- What follows a reception: a datagram is answered by `turn`, an exception by the error packet, and
-- the loop goes on as `rest`, but for the end.
unfoldable pub received_event :
    Result (Events × Bytes)
    → (Bytes → Store → Result Bytes × Store)
    → (Store → Result (List Bytes) × Store)
    → Store
    → Result (List Bytes) × Store
received_event (return (Events.ok, datagram)) turn rest store =
    let (reply, after_turn) = turn datagram store in
    let (replies, files) = rest after_turn in (sent_first reply replies, files)
received_event (return (Events.timeout, _)) turn rest store = rest store
received_event (return (Events.terminate, _)) turn rest store = (return [], store)
received_event (throw undefined_behaviour) turn rest store = (throw undefined_behaviour, store)
received_event (throw e) turn rest store =
    let (replies, files) = rest store in (sent_first (return encode_error) replies, files)

module _ (cal : Calendar) (disk : Disk) where
  -- The replies that go out, and the files that are left.
  unfoldable pub run_udp_loop : List Round → Store → Result (List Bytes) × Store
  unfolding receive_packet received_event
  run_udp_loop [] store = (return [], store)
  run_udp_loop (r ∷ rounds) store =
      if r.stops
      then (return [], store)
      else received_event (receive_packet r.terminated r.recv) (run_udp cal disk r.now r.entropy)
          (run_udp_loop rounds) store

-- A turn of the listener: the threads that have taken turns before it, the answer of `accept`, and
-- whether the two limits are set on the connection.
pub record Visit : Type 0 where
  pub stops : Bool
  pub turns : List ℕ
  pub accept : Answer ℕ
  pub terminated : Bool
  pub recv_set : Bool
  pub send_set : Bool

-- A thread that waits takes no turn.
abbrev pub turn_taken : Pool → Option Pool → Pool
turn_taken p none = p
turn_taken p (some q) = q

unfoldable pub take_turns : List ℕ → Pool → Pool
unfolding worker_thread
take_turns [] p = p
take_turns (i ∷ turns) p = take_turns turns (turn_taken p (worker_thread i p))

-- A connection whose limits are not set is neither handled nor closed.
unfoldable pub set_up : ℕ → Result (Unit {0}) → Pool → Pool
unfolding enqueue_connection
set_up conn_fd (return _) p = enqueue_connection conn_fd p
set_up conn_fd (throw e) p = p

unfoldable pub accepted_event :
    Result (Events × Option ℕ) → (ℕ → Result (Unit {0})) → (Pool → Pool) → Pool → Pool
unfolding set_up
accepted_event (return (Events.ok, some conn_fd)) limits rest p =
    rest (set_up conn_fd (limits conn_fd) p)
accepted_event (return (Events.ok, none)) limits rest p = rest p
accepted_event (return (Events.timeout, _)) limits rest p = rest p
accepted_event (return (Events.terminate, _)) limits rest p = p
accepted_event (throw e) limits rest p = rest p

-- The pool that `runTcp` leaves.
unfoldable pub run_tcp : List Visit → Pool → Pool
unfolding take_turns accepted_event accept_connection setup_connection
run_tcp [] p = p
run_tcp (v ∷ visits) p =
    let q = take_turns v.turns p in
    if v.stops
    then q
    else accepted_event (accept_connection v.terminated v.accept)
        (λ conn_fd. (setup_connection v.recv_set v.send_set (opened_socket conn_fd)).0)
        (run_tcp visits) q
