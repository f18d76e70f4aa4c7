-- ===== src/Server/WorkerPool.antt =====
-- server/utils/WorkerPool.cpp: the threads that handle TCP connections, and the queue they share.
-- A turn is what a thread does under the mutex, or the handling of a connection; the condition
-- variable wakes a thread exactly when the predicate of its `wait` holds.
pub mod Threads
pub mod Order
pub mod Ends
use rc.Base.{
  ℕ, zero, suc, Bool, true, false, List, [], ◌∷◌, ◌++◌, ◌≡◌, Option, none, some, if◌then◌else◌,
}

-- A thread waits for work, handles a connection, or has returned.
pub data Worker : Type 0 where
  waiting gone : Worker
  handling : ℕ → Worker

-- A connection is known by a number. `taken` and `handled` record, oldest first, the connections
-- that threads have popped and that they are through with.
pub record Pool : Type 0 where
  pub workers : List Worker
  pub queue : List ℕ
  pub is_stopping : Bool
  pub taken : List ℕ
  pub handled : List ℕ

-- `dispatch`.
unfoldable pub dispatch : ℕ → List Worker
dispatch zero = []
dispatch (suc n) = Worker.waiting ∷ dispatch n

abbrev pub new_pool : ℕ → Pool
new_pool num_workers = record {
  workers = dispatch num_workers;
  queue = [];
  is_stopping = false;
  taken = [];
  handled = [];
}

unfoldable pub enqueue_connection : ℕ → Pool → Pool
enqueue_connection conn p = record p { queue = p.queue ++ conn ∷ [] }

-- The first block of the destructor; the joins behind it wait for every thread to return.
unfoldable pub stop : Pool → Pool
stop p = record p { is_stopping = true }

abbrev pub worker_at : ℕ → List Worker → Option Worker
worker_at i [] = none
worker_at zero (w ∷ ws) = some w
worker_at (suc i) (w ∷ ws) = worker_at i ws

abbrev pub set_worker : ℕ → Worker → List Worker → List Worker
set_worker i v [] = []
set_worker zero v (w ∷ ws) = v ∷ ws
set_worker (suc i) v (w ∷ ws) = w ∷ set_worker i v ws

-- The block under the mutex: `none` is a thread that goes on waiting.
unfoldable pub pop : ℕ → Pool → List ℕ → Option Pool
pop i p [] =
    if p.is_stopping then some (record p { workers = set_worker i Worker.gone p.workers }) else none
pop i p (conn ∷ queue) = some (record p {
  workers = set_worker i (Worker.handling conn) p.workers;
  queue = queue;
  taken = p.taken ++ conn ∷ [];
})

unfoldable pub turn_of : ℕ → Pool → Option Worker → Option Pool
unfolding pop
turn_of i p none = none
turn_of i p (some Worker.gone) = none
turn_of i p (some Worker.waiting) = pop i p p.queue
turn_of i p (some (Worker.handling conn)) =
    some (record p {
      workers = set_worker i Worker.waiting p.workers;
      handled = p.handled ++ conn ∷ [];
    })

-- The next turn of thread `i` in `workerThread`.
unfoldable pub worker_thread : ℕ → Pool → Option Pool
unfolding turn_of
worker_thread i p = turn_of i p (worker_at i p.workers)

-- The pools that any interleaving comes to, with the connections enqueued so far.
pub data Reached : List ℕ → Pool → Type 0 where
  start : (num_workers : ℕ) → Reached [] (new_pool num_workers)
  enqueued :
      (conn : ℕ) {conns : List ℕ} {p : Pool}
      → Reached conns p
      → Reached (conns ++ conn ∷ []) (enqueue_connection conn p)
  stopped : {conns : List ℕ} {p : Pool} → Reached conns p → Reached conns (stop p)
  turned :
      (i : ℕ) {conns : List ℕ} {p q : Pool}
      → Reached conns p
      → worker_thread i p ≡ some q
      → Reached conns q

-- Turns of threads, any at a time, while nothing is enqueued.
pub data Turns (p : Pool) : ℕ → Pool → Type 0 where
  still : Turns p 0 p
  next : (i m : ℕ) (q r : Pool) → Turns p m q → worker_thread i q ≡ some r → Turns p (suc m) r
