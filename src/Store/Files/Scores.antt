-- ===== src/Store/Files/Scores.antt =====
-- The score of a won game.
use rc.Base.{ℕ, zero, suc, ◌+◌, ◌-◌, ◌*◌, ◌/◌, ◌≤◌, ◌<◌, ◌≡◌, refl, arith}
use rc.Base.Int.{pos, ◌-ℤ◌, ◌+ℤ◌, sub_ℕ, scale, quotient}
use rc.Constants.{guesses_max, play_time_max}
use rc.Store.Files.{score}
use rc.Store.Games.Active.{working}
use rc.Store.{Calendar}

-- The part of a score that depends on the time.
time_part :
    (t : ℕ)
    → t ≤ play_time_max
    → quotient (scale (pos play_time_max -ℤ pos t) 211) play_time_max ≡ pos ((600 - t) * 211 / 600)
time_part t h = ground arith

time_part_max : (t : ℕ) → (600 - t) * 211 / 600 ≤ 211
time_part_max t = omega arith

add_pos : (m n : ℕ) → pos m +ℤ pos n ≡ pos (m + n)
add_pos m n = ground arith

attempts_part :
    (a : ℕ)
    → 0 < a
    → a ≤ guesses_max
    → (m : ℕ) × (pos 701 +ℤ quotient (scale (sub_ℕ guesses_max (a * a)) 100) guesses_max ≡ pos m)
      × (0 < m)
      × (m ≤ 788)
attempts_part zero h k = absurd (omega arith)
attempts_part (suc zero) h k = (788, refl, omega arith, omega arith)
attempts_part (suc (suc zero)) h k = (751, refl, omega arith, omega arith)
attempts_part (suc (suc (suc zero))) h k = (689, refl, omega arith, omega arith)
attempts_part (suc (suc (suc (suc zero)))) h k = (601, refl, omega arith, omega arith)
attempts_part (suc (suc (suc (suc (suc zero))))) h k = (489, refl, omega arith, omega arith)
attempts_part (suc (suc (suc (suc (suc (suc zero)))))) h k = (351, refl, omega arith, omega arith)
attempts_part (suc (suc (suc (suc (suc (suc (suc zero))))))) h k =
    (189, refl, omega arith, omega arith)
attempts_part (suc (suc (suc (suc (suc (suc (suc (suc zero)))))))) h k =
    (1, refl, omega arith, omega arith)
attempts_part (suc (suc (suc (suc (suc (suc (suc (suc (suc a))))))))) h k = absurd (omega arith)

-- The score of a game won within eight attempts and 600 seconds lies between 1 and 999, so that
-- three digits hold it.
pub score_bounds :
    (cal : Calendar) (used_atts used_time : ℕ)
    → 0 < used_atts
    → used_atts ≤ guesses_max
    → used_time ≤ play_time_max
    → (n : ℕ) × (score cal working used_atts (pos used_time) ≡ pos n) × (0 < n) × (n ≤ 999)
unfolding score
score_bounds cal a t some_att few quick =
    let (m, sum, low, high) = attempts_part a some_att few in
    let q = (600 - t) * 211 / 600 in
    (m + q, rw (sum, time_part t quick) (add_pos m q), omega arith, omega (arith, time_part_max t))
