-- ===== src/Server/Loops/Closing.antt =====
-- The end of the TCP thread: the listener leaves its loop, the pool is stopped and its threads joined.
use rc.Base.{
  ℕ, zero, suc, All, Bool-cases, ◌≤◌, ◌<◌, List, [], ◌∷◌, ◌++◌, append-nil, ◌≡◌, refl, sym, ap, ◌∙◌,
  subst, arith, false, Option, none, some, length, ◌⊎◌, inl, inr, if◌then◌else◌,
}
use rc.Constants.{tcp_maxclients}
use rc.Server.Loops.Connected.{connected, run_tcp-keeps}
use rc.Server.Loops.{Visit, run_tcp}
use rc.Server.WorkerPool.Ends.{turns_left, measure, IsFinished, stopped_pool_ends}
use rc.Server.WorkerPool.Order.{total_busy, IsOrdered, Reached-IsOrdered}
use rc.Server.WorkerPool.Threads.{some_injective, total, total-set_worker, set_worker-le}
use rc.Server.WorkerPool.{
  Worker, Pool, new_pool, dispatch, enqueue_connection, stop, worker_at, set_worker, pop, turn_of,
  worker_thread, Reached, Turns,
}

length-set_worker : (i : ℕ) (v : Worker) (ws : List Worker) → length (set_worker i v ws) ≡ length ws
length-set_worker i v [] = refl
length-set_worker zero v (w ∷ ws) = refl
length-set_worker (suc i) v (w ∷ ws) = ap (λ n. suc n) (length-set_worker i v ws)

-- A pool that has not been stopped keeps its threads.
record IsRunning (p : Pool) : Type 0 where
  going : p.is_stopping ≡ false
  workers : length p.workers ≡ tcp_maxclients
  staffed : 0 < total turns_left p.workers

pop-IsRunning :
    (i : ℕ) (p q : Pool) (queue : List ℕ)
    → worker_at i p.workers ≡ some Worker.waiting
    → IsRunning p
    → pop i p queue ≡ some q
    → IsRunning q
unfolding pop
pop-IsRunning i p q [] at v h =
    let last : Pool = record p { workers = set_worker i Worker.gone p.workers } in
    let blocked : none ≡ some q = sym (ap (λ b. if b then some last else none) v.going) ∙ h in
    absurd (cc)
pop-IsRunning i p q (conn ∷ queue) at v h =
    let sum = total-set_worker turns_left i (Worker.handling conn) Worker.waiting p.workers at in
    let staffed = v.staffed in
    subst IsRunning (some_injective h) (record {
      going = v.going;
      workers = length-set_worker i (Worker.handling conn) p.workers ∙ v.workers;
      staffed = omega (arith, sum, staffed);
    })

turn_of-IsRunning :
    (i : ℕ) (p q : Pool) (w : Option Worker)
    → worker_at i p.workers ≡ w
    → IsRunning p
    → turn_of i p w ≡ some q
    → IsRunning q
unfolding turn_of
turn_of-IsRunning i p q none at v h = absurd (cc)
turn_of-IsRunning i p q (some Worker.gone) at v h = absurd (cc)
turn_of-IsRunning i p q (some Worker.waiting) at v h = pop-IsRunning i p q p.queue at v h
turn_of-IsRunning i p q (some (Worker.handling conn)) at v h =
    let counts = set_worker-le turns_left i Worker.waiting (Worker.handling conn) p.workers at in
    subst IsRunning (some_injective h) (record {
      going = v.going;
      workers = length-set_worker i Worker.waiting p.workers ∙ v.workers;
      staffed = omega (arith, counts);
    })

abbrev Live : List ℕ → Pool → Type 0
Live conns p = Reached conns p × IsRunning p

dispatched-Live : Live [] (new_pool tcp_maxclients)
unfolding dispatch
dispatched-Live =
    (Reached.start tcp_maxclients, record { going = refl; workers = refl; staffed = omega arith })

run_tcp-Live :
    (visits : List Visit) → Live (connected visits) (run_tcp visits (new_pool tcp_maxclients))
unfolding enqueue_connection worker_thread
run_tcp-Live visits =
    run_tcp-keeps Live
      (λ conn conns p k. (
        Reached.enqueued conn k.0,
        record { going = k.1.going; workers = k.1.workers; staffed = k.1.staffed },
      ))
      (λ i conns p q k h.
        (Reached.turned i k.0 h, turn_of-IsRunning i p q (worker_at i p.workers) refl k.1 h))
      visits [] (new_pool tcp_maxclients) dispatched-Live

Turns-Reached :
    (conns : List ℕ) (p : Pool) (m : ℕ) (q : Pool) → Reached conns p → Turns p m q → Reached conns q
Turns-Reached conns p m q r Turns.still = r
Turns-Reached conns p m q r (Turns.next i n s t turns h) =
    Reached.turned i (Turns-Reached conns p n s r turns) h

busy-le : (ws : List Worker) → total_busy ws ≤ total turns_left ws
busy-le [] = omega arith
busy-le (Worker.gone ∷ ws) = let rest = busy-le ws in omega (arith, rest)
busy-le (Worker.waiting ∷ ws) = let rest = busy-le ws in omega (arith, rest)
busy-le (Worker.handling conn ∷ ws) = let rest = busy-le ws in omega (arith, rest)

finished_handled :
    (conns : List ℕ) (q : Pool)
    → IsOrdered conns q
    → IsFinished q
    → (q.taken ≡ conns) × (length q.handled ≡ length conns)
finished_handled conns q v f =
    let all_taken = sym (append-nil q.taken) ∙ ap (λ x. q.taken ++ x) (sym f.served) ∙ v.in_order in
    let idle = busy-le q.workers in
    (all_taken, omega (arith, v.in_hand, f.all_gone, idle, ap length all_taken))

-- A thread without a turn left has returned.
returned : (ws : List Worker) → total turns_left ws ≡ 0 → All (λ w. w ≡ Worker.gone) ws
returned [] h = tt
returned (Worker.gone ∷ ws) h = (refl, returned ws (omega (arith, h)))
returned (Worker.waiting ∷ ws) h = absurd (omega (arith, h))
returned (Worker.handling conn ∷ ws) h = absurd (omega (arith, h))

pop-workers :
    (i : ℕ) (p q : Pool) (queue : List ℕ)
    → pop i p queue ≡ some q
    → length q.workers ≡ length p.workers
unfolding pop
pop-workers i p q [] h = elim (Bool-cases p.is_stopping) [
  | inl stopping ↦
      subst (λ r. length r.workers ≡ length p.workers) (some_injective (rw stopping at h))
        (length-set_worker i Worker.gone p.workers)
  | inr going ↦ let blocked = rw going at h in absurd (cc)
]
pop-workers i p q (conn ∷ queue) h =
    subst (λ r. length r.workers ≡ length p.workers) (some_injective h)
      (length-set_worker i (Worker.handling conn) p.workers)

turn_of-workers :
    (i : ℕ) (p q : Pool) (w : Option Worker)
    → turn_of i p w ≡ some q
    → length q.workers ≡ length p.workers
unfolding turn_of
turn_of-workers i p q none h = absurd (cc)
turn_of-workers i p q (some Worker.gone) h = absurd (cc)
turn_of-workers i p q (some Worker.waiting) h = pop-workers i p q p.queue h
turn_of-workers i p q (some (Worker.handling conn)) h =
    subst (λ r. length r.workers ≡ length p.workers) (some_injective h)
      (length-set_worker i Worker.waiting p.workers)

Turns-workers : (p : Pool) (m : ℕ) (q : Pool) → Turns p m q → length q.workers ≡ length p.workers
unfolding worker_thread
Turns-workers p m q Turns.still = refl
Turns-workers p m q (Turns.next i n s t turns h) =
    turn_of-workers i s q (worker_at i s.workers) h ∙ Turns-workers p n s turns

-- The pool at the end of the joins: TCP_MAXCLIENTS threads, all of which have returned, after they
-- have taken exactly these connections, in this order, and handled as many.
pub record IsClosed (conns : List ℕ) (q : Pool) : Type 0 where
  pub staffed : length q.workers ≡ tcp_maxclients
  pub all_returned : All (λ w. w ≡ Worker.gone) q.workers
  pub all_taken : q.taken ≡ conns
  pub all_handled : length q.handled ≡ length conns

-- The TCP thread from its start to its end: TCP_MAXCLIENTS threads are dispatched, connections arrive
-- while threads take turns at any time, the loop is left and the pool is stopped. From there every
-- run of turns is bounded, and as long as some of the TCP_MAXCLIENTS threads has not returned, some
-- thread can take a turn; once none can, all have returned, and they have taken exactly the
-- connections that were accepted and got their limits, in order of their acceptance, and handled as
-- many.
pub run_tcp_closes :
    (visits : List Visit) (m : ℕ) (q : Pool)
    → Turns (stop (run_tcp visits (new_pool tcp_maxclients))) m q
    → (m ≤ measure (run_tcp visits (new_pool tcp_maxclients)))
      × (IsClosed (connected visits) q ⊎ ((i : ℕ) × (r : Pool) × (worker_thread i q ≡ some r)))
unfolding stop
run_tcp_closes visits m q turns =
    let (reached, running) = run_tcp-Live visits in
    let p = run_tcp visits (new_pool tcp_maxclients) in
    let ordered =
      Reached-IsOrdered _ q (Turns-Reached _ (stop p) m q (Reached.stopped reached) turns) in
    let (spent, ends) =
      stopped_pool_ends (stop p) m q (record { stopping = refl; staffed = inr running.staffed })
        turns in
    (
      omega (arith, spent),
      elim ends [
        | inl finished ↦
            let (taken, handled) = finished_handled _ q ordered finished in
            inl (record {
              staffed = Turns-workers (stop p) m q turns ∙ running.workers;
              all_returned = returned q.workers finished.all_gone;
              all_taken = taken;
              all_handled = handled;
            })
        | inr goes_on ↦ inr goes_on
      ],
    )
