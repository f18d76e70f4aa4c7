-- ===== src/Server/Loops/Connected.antt =====
-- The connections that the listener hands to the threads, with the threads taking turns in between.
use rc.Base.{
  ℕ, List, [], ◌∷◌, ◌++◌, append_assoc, Bool, true, false, ◌≡◌, refl, sym, subst, Option, none,
  some, if◌then◌else◌, ◌&&◌, append-nil,
}
use rc.Server.Loops.{Visit, turn_taken, take_turns, set_up, accepted_event, run_tcp}
use rc.Server.Sockets.{accept_connection, setup_connection}
use rc.Server.WorkerPool.{Pool, worker_thread, enqueue_connection}
use rc.Sockets.{Answer, opened_socket, limit_recv, limit_send}

-- The connections that are accepted and get both limits before the loop ends, in their order.
abbrev pub with_limits : Bool → Answer ℕ → Bool → List ℕ → List ℕ
with_limits terminated (Answer.ready conn_fd) true more = conn_fd ∷ more
with_limits terminated (Answer.ready conn_fd) false more = more
with_limits true _ limits more = []
with_limits false _ limits more = more

unfoldable pub connected : List Visit → List ℕ
connected [] = []
connected (v ∷ visits) =
    if v.stops
    then []
    else with_limits v.terminated v.accept (v.recv_set && v.send_set) (connected visits)

-- What holds of the pool and the connections enqueued so far, and is kept by whatever threads and the
-- listener do, holds when the loop is left.
module _ (Kept : List ℕ → Pool → Type 0)
    (enqueued : (conn : ℕ) (conns : List ℕ) (p : Pool)
      → Kept conns p
      → Kept (conns ++ conn ∷ []) (enqueue_connection conn p))
    (turned : (i : ℕ) (conns : List ℕ) (p q : Pool)
      → Kept conns p
      → worker_thread i p ≡ some q
      → Kept conns q) where
  take_turn-keeps :
      (i : ℕ) (conns : List ℕ) (p : Pool) (o : Option Pool)
      → Kept conns p
      → worker_thread i p ≡ o
      → Kept conns (turn_taken p o)
  take_turn-keeps i conns p none k h = k
  take_turn-keeps i conns p (some q) k h = turned i conns p q k h

  take_turns-keeps :
      (turns conns : List ℕ) (p : Pool) → Kept conns p → Kept conns (take_turns turns p)
  unfolding take_turns
  take_turns-keeps [] conns p k = k
  take_turns-keeps (i ∷ turns) conns p k =
      take_turns-keeps turns conns _ (take_turn-keeps i conns p (worker_thread i p) k refl)

  module _ (conns more : List ℕ) (p : Pool) (kept : Kept conns p) (rest : Pool → Pool)
      (goes_on : (before : List ℕ) (q : Pool)
        → Kept before q
        → Kept (before ++ more) (rest q)) where
    left : Kept (conns ++ []) p
    left = subst (λ x. Kept x p) (sym (append-nil conns)) kept

    accepted_event-keeps :
        (terminated recv_set send_set : Bool) (accept : Answer ℕ)
        → Kept (conns ++ with_limits terminated accept (recv_set && send_set) more) (
            accepted_event
              (accept_connection terminated accept)
              (λ conn_fd. (setup_connection recv_set send_set (opened_socket conn_fd)).0)
              rest
              p)
    unfolding accepted_event accept_connection setup_connection set_up limit_recv limit_send
    accepted_event-keeps t true true (Answer.ready conn_fd) =
        subst (λ x. Kept x (rest (enqueue_connection conn_fd p)))
          (append_assoc conns (conn_fd ∷ []) more)
          (goes_on (conns ++ conn_fd ∷ []) _ (enqueued conn_fd conns p kept))
    accepted_event-keeps t true false (Answer.ready conn_fd) = goes_on conns p kept
    accepted_event-keeps t false s (Answer.ready conn_fd) = goes_on conns p kept
    accepted_event-keeps true r s Answer.again = left
    accepted_event-keeps true r s Answer.failed = left
    accepted_event-keeps false r s Answer.again = goes_on conns p kept
    accepted_event-keeps false r s Answer.failed = goes_on conns p kept

    visit-keeps :
        (v : Visit) (stops : Bool)
        → Kept
            (conns
              ++ (if stops
                  then []
                  else with_limits v.terminated v.accept (v.recv_set && v.send_set) more))
            (if stops
              then p
              else accepted_event
                  (accept_connection v.terminated v.accept)
                  (λ conn_fd. (setup_connection v.recv_set v.send_set (opened_socket conn_fd)).0)
                  rest
                  p)
    visit-keeps v true = left
    visit-keeps v false = accepted_event-keeps v.terminated v.recv_set v.send_set v.accept

  pub run_tcp-keeps :
      (visits : List Visit) (conns : List ℕ) (p : Pool)
      → Kept conns p
      → Kept (conns ++ connected visits) (run_tcp visits p)
  unfolding run_tcp connected
  run_tcp-keeps [] conns p k = subst (λ x. Kept x p) (sym (append-nil conns)) k
  run_tcp-keeps (v ∷ visits) conns p k =
      visit-keeps conns (connected visits) (take_turns v.turns p)
        (take_turns-keeps v.turns conns p k) (run_tcp visits)
        (λ before q h. run_tcp-keeps visits before q h) v v.stops
