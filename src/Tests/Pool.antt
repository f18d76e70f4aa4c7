-- ===== src/Tests/Pool.antt =====
-- Two threads and three connections.
use rc.Base.{[], ◌∷◌, ◌++◌, ◌≡◌, refl, false, some}
use rc.Server.WorkerPool.Order.{IsOrdered, Reached-IsOrdered}
use rc.Server.WorkerPool.{
  Pool, Worker, new_pool, dispatch, enqueue_connection, worker_thread, Reached,
}

abbrev filled : Pool
filled = record {
  workers = Worker.handling 7 ∷ Worker.waiting ∷ [];
  queue = 9 ∷ [];
  is_stopping = false;
  taken = 7 ∷ [];
  handled = [];
}

taken_first :
    worker_thread 0 (enqueue_connection 9 (enqueue_connection 7 (new_pool 2))) ≡ some filled
unfolding worker_thread enqueue_connection dispatch
taken_first = refl

filled-Reached : Reached ([] ++ 7 ∷ [] ++ 9 ∷ []) filled
filled-Reached =
    Reached.turned 0 (Reached.enqueued 9 (Reached.enqueued 7 (Reached.start 2))) taken_first

Reached-IsOrdered_example : IsOrdered (7 ∷ 9 ∷ []) filled
Reached-IsOrdered_example = Reached-IsOrdered (7 ∷ 9 ∷ []) filled filled-Reached
