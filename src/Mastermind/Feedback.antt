-- ===== src/Mastermind/Feedback.antt =====
-- What a player learns from the peg counts.
use mathlib.Core.Path.{ap₂}
use rc.Base.{ℕ, ◌+◌, ◌-◌, ◌≤◌, ◌≡◌, ◌↔◌, refl, sym, ◌∙◌, arith, false, [], ◌∷◌, Bytes, some, length}
use rc.Constants.{secret_key_len, valid_colors}
use rc.Udp.Parser.Reads.{IsKey}
use rc.Udp.Parser.{has_byte}
use rc.Mastermind.Pegs.{
  matches, count, shared, common, Distinct, valid_colors-Distinct, calculate_attempt-pegs,
}
use rc.Mastermind.{calculate_attempt}

-- The sum of `f` over the colours of a list.
total : (ℕ → ℕ) → Bytes → ℕ
total f [] = 0
total f (c ∷ cs) = f c + total f cs

shared-le-total : (f g : ℕ → ℕ) (cs : Bytes) → shared f g cs ≤ total f cs
unfolding total
shared-le-total f g [] = omega arith
shared-le-total f g (c ∷ cs) = ground (arith, shared-le-total f g cs)

total-count_out :
    (x : ℕ) (k cs : Bytes)
    → has_byte x cs ≡ false
    → total (λ c. count c (x ∷ k)) cs ≡ total (λ c. count c k) cs
unfolding total has_byte
total-count_out x k [] h = refl
total-count_out x k (c ∷ cs) h = ground (arith, total-count_out x k cs)

total-count_cons :
    (x : ℕ) (k cs : Bytes)
    → Distinct cs
    → total (λ c. count c (x ∷ k)) cs ≤ 1 + total (λ c. count c k) cs
unfolding total has_byte
total-count_cons x k [] d = omega arith
total-count_cons x k (c ∷ cs) d =
    ground (arith, total-count_cons x k cs d.1, total-count_out x k cs)

total-nil : (cs : Bytes) → total (λ c. count c []) cs ≡ 0
unfolding total
total-nil [] = refl
total-nil (c ∷ cs) = omega (arith, total-nil cs)

total-count-le : (k : Bytes) → total (λ c. count c k) valid_colors ≤ length k
total-count-le [] = omega (arith, total-nil valid_colors)
total-count-le (x ∷ k) =
    omega (arith, total-count_cons x k valid_colors valid_colors-Distinct, total-count-le k)

common-le : (k a : Bytes) → common k a ≤ length k
common-le k a =
    omega (arith, shared-le-total (λ c. count c k) (λ c. count c a) valid_colors, total-count-le k)

matches-le : (k a : Bytes) → matches k a ≤ length k
matches-le [] a = omega arith
matches-le (x ∷ k) [] = omega arith
matches-le (x ∷ k) (y ∷ a) = ground (arith, matches-le k a)

matches_self : (k : Bytes) → matches k k ≡ length k
matches_self [] = refl
matches_self (x ∷ k) = ground (arith, matches_self k)

matches_all : (k a : Bytes) → length k ≡ length a → matches k a ≡ length k → k ≡ a
matches_all [] [] e h = refl
matches_all [] (y ∷ a) e h = absurd (omega arith)
matches_all (x ∷ k) [] e h = absurd (omega arith)
matches_all (x ∷ k) (y ∷ a) e h = ground (arith, matches_all k a, matches-le k a)

-- The counts of one attempt add up to four at most, and four blacks mean that the attempt is the
-- key, and nothing else does.
pub calculate_attempt_feedback :
    (key att : Bytes) {w b : ℕ}
    → IsKey key
    → IsKey att
    → calculate_attempt key att 0 0 ≡ some (w, b)
    → (b + w ≤ secret_key_len) × ((b ≡ secret_key_len) ↔ (key ≡ att))
calculate_attempt_feedback key att {w} {b} hk ha e =
    let (under, run) = calculate_attempt-pegs key att 0 0 hk ha in
    let same : some (0 + (common key att - matches key att), 0 + matches key att) ≡ some (w, b) =
      sym run ∙ e in
    let black : matches key att ≡ b = ground (arith, same) in
    let white : common key att - matches key att ≡ w = ground (arith, same) in
    (
      omega (arith, common-le key att, hk.four),
      (
        (λ four. matches_all key att (hk.four ∙ sym ha.four) (omega (arith, hk.four))),
        (λ eq. omega (arith, matches_self key, hk.four, rw (← eq) at black)),
      ),
    )

shared_comm : (f g : ℕ → ℕ) (cs : Bytes) → shared f g cs ≡ shared g f cs
shared_comm f g [] = refl
shared_comm f g (c ∷ cs) = ground (arith, shared_comm f g cs)

matches_comm : (k a : Bytes) → matches k a ≡ matches a k
matches_comm [] [] = refl
matches_comm [] (y ∷ a) = refl
matches_comm (x ∷ k) [] = refl
matches_comm (x ∷ k) (y ∷ a) = ground (arith, matches_comm k a)

-- Key and attempt may change places: the counts are the same.
pub calculate_attempt_comm :
    (key att : Bytes) (w b : ℕ)
    → IsKey key
    → IsKey att
    → calculate_attempt key att w b ≡ calculate_attempt att key w b
calculate_attempt_comm key att w b hk ha =
    let swapped =
      ap₂ (λ m n. some (w + (n - m), b + m)) (matches_comm key att)
        (shared_comm (λ c. count c key) (λ c. count c att) valid_colors) in
    (calculate_attempt-pegs key att w b hk ha).1
    ∙ swapped
    ∙ sym (calculate_attempt-pegs att key w b ha hk).1
