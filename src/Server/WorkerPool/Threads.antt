-- ===== src/Server/WorkerPool/Threads.antt =====
-- Sums over the threads, and how one turn changes them.
use rc.Base.{ℕ, zero, suc, ◌+◌, ◌≤◌, List, [], ◌∷◌, ◌≡◌, refl, ap, arith, some}
use rc.Server.WorkerPool.{Worker, dispatch, worker_at, set_worker}

pub some_injective : {A : Type 0} {a b : A} → some a ≡ some b → a ≡ b
some_injective h = cc

module _ (weight : Worker → ℕ) where
  abbrev pub total : List Worker → ℕ
  total [] = 0
  total (w ∷ ws) = weight w + total ws

  pub total-set_worker :
      (i : ℕ) (v w : Worker) (ws : List Worker)
      → worker_at i ws ≡ some w
      → total (set_worker i v ws) + weight w ≡ total ws + weight v
  total-set_worker i v w [] h = absurd (cc)
  total-set_worker zero v w (x ∷ ws) h = let same : x ≡ w = cc in omega (arith, ap weight same)
  total-set_worker (suc i) v w (x ∷ ws) h = omega (arith, total-set_worker i v w ws h)

  -- The thread that a turn has changed counts.
  pub set_worker-le :
      (i : ℕ) (v w : Worker) (ws : List Worker)
      → worker_at i ws ≡ some w
      → weight v ≤ total (set_worker i v ws)
  set_worker-le i v w [] h = absurd (cc)
  set_worker-le zero v w (x ∷ ws) h = omega arith
  set_worker-le (suc i) v w (x ∷ ws) h = omega (arith, set_worker-le i v w ws h)

  pub total-dispatch : (n : ℕ) → weight Worker.waiting ≡ 0 → total (dispatch n) ≡ 0
  unfolding dispatch
  total-dispatch zero h = refl
  total-dispatch (suc n) h = omega (arith, h, total-dispatch n h)
