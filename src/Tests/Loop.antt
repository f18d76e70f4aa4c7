-- ===== src/Tests/Loop.antt =====
-- Turns of the server's loop.
use rc.Base.{◌≡◌, refl, [], ◌∷◌, Bytes, codes, arith, some}
use rc.Exceptions.{return}
use rc.Server.Histories.{Reached, Reached-IsSound}
use rc.Server.Keeps.{run_udp_keeps}
use rc.Server.{run_udp}
use rc.Store.Games.Active.{working}
use rc.Store.Games.Sound.{IsSound}
use rc.Store.{Store}
use rc.Tests.Samples.{calendar, calendar-IsCalendar, no_store, store_of, store-IsSound, game}

abbrev entropy : Bytes
entropy = 7 ∷ 255 ∷ 12 ∷ 4 ∷ []

abbrev start_packet : Bytes
start_packet = codes "SNG 123456 600\n"

abbrev try_packet : Bytes
try_packet = codes "TRY 123456 R G O P 1\n"

run_udp_keeps_example :
    IsSound calendar 1010
      (run_udp calendar working 1010 (some entropy) try_packet (store_of (game []))).1.games
    × (reply : Bytes) × ((run_udp calendar working 1010
          (some entropy)
          try_packet
          (store_of (game []))).0
        ≡ return reply)
run_udp_keeps_example =
    run_udp_keeps calendar calendar-IsCalendar 1010 (omega arith) entropy refl (store_of (game []))
      store-IsSound try_packet

abbrev first : Store
first = (run_udp calendar working 1000 (some entropy) start_packet no_store).1

two_turns : Reached calendar 1010 (run_udp calendar working 1010 (some entropy) try_packet first).1
two_turns =
    Reached.turn 1000 1010 first entropy try_packet
      (Reached.turn 0 1000 no_store entropy start_packet (Reached.start no_store (λ p. refl))
        (omega arith) (omega arith) refl)
      (omega arith) (omega arith) refl

Reached-IsSound_example :
    IsSound calendar 1010 (run_udp calendar working 1010 (some entropy) try_packet first).1.games
Reached-IsSound_example =
    Reached-IsSound calendar calendar-IsCalendar 1010
      (run_udp calendar working 1010 (some entropy) try_packet first).1 two_turns
