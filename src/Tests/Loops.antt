-- ===== src/Tests/Loops.antt =====
-- The loops of both threads: three rounds with one datagram, and two connections of which the second
-- is refused its limits.
use rc.Base.{ℕ, ◌≤◌, ◌≡◌, ◌⊎◌, refl, Bool, [], ◌∷◌, List, Bytes, codes, arith, true, false, some}
use rc.Server.Loops.Closing.{IsClosed, run_tcp_closes}
use rc.Server.Loops.Connected.{connected}
use rc.Server.Loops.Replies.{Steady, Served, replies_due, run_udp_loop-Served}
use rc.Server.Loops.{
  Round, Visit, turn_taken, accepted_event, run_udp_loop, run_tcp, take_turns, set_up,
}
use rc.Server.Sockets.{accept_connection, setup_connection}
use rc.Server.WorkerPool.Ends.{measure}
use rc.Server.WorkerPool.{Pool, new_pool, dispatch, enqueue_connection, worker_thread, stop, Turns}
use rc.Sockets.{Answer, limit_recv, limit_send}
use rc.Constants.{tcp_maxclients}
use rc.Store.Games.Active.{working}
use rc.Tests.Samples.{calendar, calendar-IsCalendar, store_of, store-IsSound, game}

abbrev entropy : Bytes
entropy = 7 ∷ 255 ∷ 12 ∷ 4 ∷ []

abbrev round : Answer Bytes → ℕ → Round
round recv now = record {
  stops = false;
  recv = recv;
  terminated = false;
  now = now;
  entropy = some entropy;
}

abbrev rounds : List Round
rounds =
    round Answer.again 1010
    ∷ round (Answer.ready (codes "TRY 123456 R G O P 1\n")) 1012
    ∷ round Answer.failed 1015
    ∷ []

rounds-Steady : Steady 1010 rounds
rounds-Steady = Steady.going 1010 _ _ entropy (omega arith) (omega arith) refl refl (
    Steady.going 1010 _ _ entropy (omega arith) (omega arith) refl refl
      (Steady.going 1012 _ _ entropy (omega arith) (omega arith) refl refl (Steady.ended 1015)))

two_due : replies_due rounds ≡ 2
unfolding replies_due
two_due = refl

run_udp_loop-Served_example :
    Served calendar 1010
      (replies_due rounds)
      (run_udp_loop calendar working rounds (store_of (game [])))
run_udp_loop-Served_example =
    run_udp_loop-Served calendar calendar-IsCalendar 1010 rounds (store_of (game [])) rounds-Steady
      store-IsSound

abbrev visit : ℕ → Bool → List ℕ → Visit
visit conn_fd send_set turns = record {
  stops = false;
  turns = turns;
  accept = Answer.ready conn_fd;
  terminated = false;
  recv_set = true;
  send_set = send_set;
}

-- The thread 3 has taken the first connection before the second one is accepted.
abbrev visits : List Visit
visits = visit 7 true [] ∷ visit 9 false (3 ∷ []) ∷ []

one_connected : connected visits ≡ 7 ∷ []
unfolding connected
one_connected = refl

abbrev closing : Pool
closing = stop (run_tcp visits (new_pool tcp_maxclients))

-- The thread 3 is through with the first connection.
abbrev later : Pool
later = turn_taken closing (worker_thread 3 closing)

one_turn : Turns closing 1 later
unfolding stop run_tcp accepted_event take_turns worker_thread set_up dispatch enqueue_connection
    accept_connection setup_connection limit_recv limit_send
one_turn = Turns.next 3 0 closing later Turns.still refl

run_tcp_closes_example :
    (1 ≤ measure (run_tcp visits (new_pool tcp_maxclients)))
    × (IsClosed (connected visits) later
        ⊎ ((i : ℕ) × (r : Pool) × (worker_thread i later ≡ some r)))
run_tcp_closes_example = run_tcp_closes visits 1 later one_turn
