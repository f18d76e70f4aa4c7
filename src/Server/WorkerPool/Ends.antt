-- ===== src/Server/WorkerPool/Ends.antt =====
-- Once the pool is stopped, every thread returns, with the queue empty.
use rc.Base.{
  ℕ, suc, ◌+◌, ◌*◌, ◌<◌, true, List, [], ◌∷◌, ◌≡◌, refl, sym, ap, ◌∙◌, subst, arith, Option, none,
  some, length, ltb, Bool-cases, ◌⊎◌, inl, inr, if◌then◌else◌,
}
use rc.Server.WorkerPool.Threads.{some_injective, total, total-set_worker, set_worker-le}
use rc.Server.WorkerPool.{Worker, Pool, worker_at, set_worker, pop, turn_of, worker_thread, Turns}

-- The turns that a thread has left, the connections in the queue aside.
abbrev pub turns_left : Worker → ℕ
turns_left Worker.gone = 0
turns_left Worker.waiting = 1
turns_left (Worker.handling conn) = 2

-- Two for each connection that waits.
abbrev pub measure : Pool → ℕ
measure p = 2 * length p.queue + total turns_left p.workers

-- Every thread has returned, and no connection waits.
pub record IsFinished (p : Pool) : Type 0 where
  pub all_gone : total turns_left p.workers ≡ 0
  pub served : p.queue ≡ []

-- A stopped pool that still has a thread for what waits.
pub record IsStopping (p : Pool) : Type 0 where
  pub stopping : p.is_stopping ≡ true
  pub staffed : (p.queue ≡ []) ⊎ (0 < total turns_left p.workers)

pop-measure :
    (i : ℕ) (p q : Pool) (queue : List ℕ)
    → p.queue ≡ queue
    → worker_at i p.workers ≡ some Worker.waiting
    → IsStopping p
    → pop i p queue ≡ some q
    → IsStopping q × (suc (measure q) ≡ measure p)
unfolding pop
pop-measure i p q [] empty at v h =
    let last : Pool = record p { workers = set_worker i Worker.gone p.workers } in
    subst (λ r. IsStopping r × (suc (measure r) ≡ measure p))
      (some_injective (sym (ap (λ b. if b then some last else none) v.stopping) ∙ h))
      (
        record { stopping = v.stopping; staffed = inl empty },
        omega (arith, total-set_worker turns_left i Worker.gone Worker.waiting p.workers at),
      )
pop-measure i p q (conn ∷ queue) first at v h =
    let sum = total-set_worker turns_left i (Worker.handling conn) Worker.waiting p.workers at in
    let size = ap length first in
    subst (λ r. IsStopping r × (suc (measure r) ≡ measure p)) (some_injective h)
      (
        record { stopping = v.stopping; staffed = inr (omega (arith, sum)) },
        omega (arith, sum, size),
      )

turn_of-measure :
    (i : ℕ) (p q : Pool) (w : Option Worker)
    → worker_at i p.workers ≡ w
    → IsStopping p
    → turn_of i p w ≡ some q
    → IsStopping q × (suc (measure q) ≡ measure p)
unfolding turn_of
turn_of-measure i p q none at v h = absurd (cc)
turn_of-measure i p q (some Worker.gone) at v h = absurd (cc)
turn_of-measure i p q (some Worker.waiting) at v h = pop-measure i p q p.queue refl at v h
turn_of-measure i p q (some (Worker.handling conn)) at v h =
    let sum = total-set_worker turns_left i Worker.waiting (Worker.handling conn) p.workers at in
    let counts = set_worker-le turns_left i Worker.waiting (Worker.handling conn) p.workers at in
    subst (λ r. IsStopping r × (suc (measure r) ≡ measure p)) (some_injective h)
      (record { stopping = v.stopping; staffed = inr (omega (arith, counts)) }, omega (arith, sum))

pub Turns-measure :
    (p : Pool) (m : ℕ) (q : Pool)
    → IsStopping p
    → Turns p m q
    → IsStopping q × (m + measure q ≡ measure p)
unfolding worker_thread
Turns-measure p m q v Turns.still = (v, omega arith)
Turns-measure p m q v (Turns.next i n r s t h) =
    let (w, e) = Turns-measure p n r v t in
    let (x, d) = turn_of-measure i r q (worker_at i r.workers) refl w h in (x, omega (arith, e, d))

-- A thread with a turn left is one that has not returned.
active_at :
    (ws : List Worker)
    → 0 < total turns_left ws
    → (i : ℕ) × (w : Worker) × (worker_at i ws ≡ some w) × (0 < turns_left w)
active_at [] h = absurd (omega arith)
active_at (Worker.gone ∷ ws) h =
    let (i, w, e, l) = active_at ws (omega (arith, h)) in (suc i, w, e, l)
active_at (Worker.waiting ∷ ws) h = (0, Worker.waiting, refl, omega arith)
active_at (Worker.handling conn ∷ ws) h = (0, Worker.handling conn, refl, omega arith)

pop-stopping :
    (i : ℕ) (p : Pool) (queue : List ℕ)
    → p.is_stopping ≡ true
    → (q : Pool) × (pop i p queue ≡ some q)
unfolding pop
pop-stopping i p [] h =
    let q : Pool = record p { workers = set_worker i Worker.gone p.workers } in
    (q, ap (λ b. if b then some q else none) h)
pop-stopping i p (conn ∷ queue) h = (_, refl)

turn_of-active :
    (i : ℕ) (p : Pool) (w : Worker)
    → IsStopping p
    → 0 < turns_left w
    → (q : Pool) × (turn_of i p (some w) ≡ some q)
unfolding turn_of
turn_of-active i p Worker.gone v l = absurd (omega (arith, l))
turn_of-active i p Worker.waiting v l = pop-stopping i p p.queue v.stopping
turn_of-active i p (Worker.handling conn) v l = (_, refl)

some_turn :
    (p : Pool)
    → IsStopping p
    → 0 < total turns_left p.workers
    → (i : ℕ) × (q : Pool) × (worker_thread i p ≡ some q)
unfolding worker_thread
some_turn p v some_left =
    let (i, w, e, l) = active_at p.workers some_left in
    let (q, d) = turn_of-active i p w v l in (i, q, ap (turn_of i p) e ∙ d)

go_on :
    (p : Pool) → IsStopping p → IsFinished p ⊎ ((i : ℕ) × (q : Pool) × (worker_thread i p ≡ some q))
go_on p v = elim (Bool-cases (ltb 0 (total turns_left p.workers))) [
  | inl some_left ↦ inr (some_turn p v (ground (arith, some_left)))
  | inr none_left ↦ elim v.staffed [
    | inl empty ↦ inl (record { all_gone = ground (arith, none_left); served = empty })
    | inr some_left ↦ inr (some_turn p v some_left)
  ]
]

-- The destructor's joins come to an end. From a stopped pool with a thread left for what waits, and
-- with nothing enqueued any more, whatever thread takes the next turn: a run of `m` turns leaves
-- exactly `m` fewer of the turns that the threads and the connections have left, and as long as not
-- every thread has returned with the queue empty, some thread can take a turn.
pub stopped_pool_ends :
    (p : Pool) (m : ℕ) (q : Pool)
    → IsStopping p
    → Turns p m q
    → (m + measure q ≡ measure p)
      × (IsFinished q ⊎ ((i : ℕ) × (r : Pool) × (worker_thread i q ≡ some r)))
stopped_pool_ends p m q v t = let (w, e) = Turns-measure p m q v t in (e, go_on q w)
