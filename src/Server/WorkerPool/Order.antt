-- ===== src/Server/WorkerPool/Order.antt =====
-- No connection is lost, handled twice or overtaken.
use rc.Base.{
  ℕ, ◌+◌, List, [], ◌∷◌, ◌++◌, ◌≡◌, refl, sym, ap, ◌∙◌, subst, arith, Option, none, some, length,
  length-append, append_assoc, Bool-cases, inl, inr,
}
use rc.Server.WorkerPool.Threads.{some_injective, total, total-set_worker, total-dispatch}
use rc.Server.WorkerPool.{
  Worker, Pool, new_pool, enqueue_connection, stop, worker_at, pop, turn_of, worker_thread, Reached,
}

abbrev pub busy : Worker → ℕ
busy (Worker.handling conn) = 1
busy _ = 0

abbrev pub total_busy : List Worker → ℕ
total_busy = total busy

-- The connections taken and still waiting are those enqueued, in their order, and as many are being
-- handled as are taken and not done.
pub record IsOrdered (conns : List ℕ) (p : Pool) : Type 0 where
  pub in_order : p.taken ++ p.queue ≡ conns
  pub in_hand : length p.taken ≡ length p.handled + total_busy p.workers

dispatch-IsOrdered : (n : ℕ) → IsOrdered [] (new_pool n)
dispatch-IsOrdered n = record {
  in_order = refl;
  in_hand = omega (arith, total-dispatch busy n refl);
}

pop-IsOrdered :
    (i : ℕ) (conns : List ℕ) (p q : Pool) (queue : List ℕ)
    → p.queue ≡ queue
    → worker_at i p.workers ≡ some Worker.waiting
    → IsOrdered conns p
    → pop i p queue ≡ some q
    → IsOrdered conns q
unfolding pop
pop-IsOrdered i conns p q [] empty at v h = elim (Bool-cases p.is_stopping) [
  | inl stopping ↦ subst (IsOrdered conns) (some_injective (rw stopping at h)) (record {
    in_order = v.in_order;
    in_hand =
        omega (arith, v.in_hand, total-set_worker busy i Worker.gone Worker.waiting p.workers at);
  })
  | inr going ↦ let blocked = rw going at h in absurd (cc)
]
pop-IsOrdered i conns p q (conn ∷ queue) first at v h =
    subst (IsOrdered conns) (some_injective h) (record {
      in_order =
          append_assoc p.taken (conn ∷ []) queue ∙ ap (λ x. p.taken ++ x) (sym first) ∙ v.in_order;
      in_hand = omega (
        arith,
        v.in_hand,
        length-append p.taken (conn ∷ []),
        total-set_worker busy i (Worker.handling conn) Worker.waiting p.workers at,
      );
    })

-- A turn moves one connection from the queue to a thread, or from a thread to those handled.
worker_thread-IsOrdered :
    (i : ℕ) (conns : List ℕ) (p q : Pool) (w : Option Worker)
    → worker_at i p.workers ≡ w
    → IsOrdered conns p
    → turn_of i p w ≡ some q
    → IsOrdered conns q
unfolding turn_of
worker_thread-IsOrdered i conns p q none at v h = absurd (cc)
worker_thread-IsOrdered i conns p q (some Worker.gone) at v h = absurd (cc)
worker_thread-IsOrdered i conns p q (some Worker.waiting) at v h =
    pop-IsOrdered i conns p q p.queue refl at v h
worker_thread-IsOrdered i conns p q (some (Worker.handling conn)) at v h =
    subst (IsOrdered conns) (some_injective h) (record {
      in_order = v.in_order;
      in_hand = omega (
        arith,
        v.in_hand,
        length-append p.handled (conn ∷ []),
        total-set_worker busy i Worker.waiting (Worker.handling conn) p.workers at,
      );
    })

-- Whatever the threads, the listener and the destructor do in whatever order, the connections are
-- taken in the order in which they were enqueued, each of them once: those taken, followed by those
-- still waiting, are those enqueued; and as many are in the hands of threads as are taken and not
-- done.
pub Reached-IsOrdered : (conns : List ℕ) (p : Pool) → Reached conns p → IsOrdered conns p
unfolding enqueue_connection stop worker_thread
Reached-IsOrdered conns p (Reached.start n) = dispatch-IsOrdered n
Reached-IsOrdered conns p (Reached.enqueued conn {conns = before} {p = q} r) =
    let v = Reached-IsOrdered before q r in
    record {
      in_order =
          sym (append_assoc q.taken q.queue (conn ∷ [])) ∙ ap (λ x. x ++ conn ∷ []) v.in_order;
      in_hand = v.in_hand;
    }
Reached-IsOrdered conns p (Reached.stopped {p = q} r) =
    let v = Reached-IsOrdered conns q r in record { in_order = v.in_order; in_hand = v.in_hand }
Reached-IsOrdered conns p (Reached.turned i {p = q} r h) =
    worker_thread-IsOrdered i conns q p (worker_at i q.workers) refl (Reached-IsOrdered conns q r) h
