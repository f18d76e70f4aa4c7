-- ===== src/Mastermind/Bounds.antt =====
-- Blacks and whites together are at most the four pegs.
use mathlib.Core.Path.{ap₂}
use rc.Base.{
  Bool-cases, inl, inr, ==_iff, sym, refl, ℕ, ◌+◌, ◌-◌, ◌≤◌, ◌==◌, [], ◌∷◌, ◌≡◌, ap, ◌∙◌, arith,
  Bytes, some, length,
}
use rc.Constants.{valid_colors, secret_key_len}
use rc.Mastermind.Pegs.{count, shared, common, matches, calculate_attempt-pegs}
use rc.Mastermind.{calculate_attempt}
use rc.Udp.Parser.Reads.{IsKey}

abbrev total : (ℕ → ℕ) → Bytes → ℕ
total f [] = 0
total f (c ∷ cs) = f c + total f cs

shared-total : (f g : ℕ → ℕ) (cs : Bytes) → shared f g cs ≤ total f cs
shared-total f g [] = omega arith
shared-total f g (c ∷ cs) = ground (arith, shared-total f g cs)

total-count : (k : Bytes) → total (λ c. count c k) valid_colors ≤ length k
total-count [] = omega arith
total-count (x ∷ k) = ground (arith, total-count k)

-- What the computation gives for keys of four colours and variables that are 0.
pub pegs_of :
    (key att : Bytes)
    → IsKey key
    → IsKey att
    → ((common key att - matches key att) + matches key att ≤ secret_key_len)
      × (calculate_attempt key att 0 0 ≡ some (common key att - matches key att, matches key att))
pegs_of key att hk ha =
    let (less, e) = calculate_attempt-pegs key att 0 0 hk ha in
    (
      omega (
        arith,
        less,
        hk.four,
        total-count key,
        shared-total (λ c. count c key) (λ c. count c att) valid_colors,
      ),
      e
          ∙ ap (λ n. some (n, 0 + matches key att)) {x = 0 + (common key att - matches key att)}
              {y = common key att - matches key att} (omega arith)
          ∙ ap (λ n. some (common key att - matches key att, n)) {x = 0 + matches key att}
              {y = matches key att} (omega arith),
    )

matches-le : (k a : Bytes) → matches k a ≤ length k
matches-le [] a = omega arith
matches-le (x ∷ k) [] = omega arith
matches-le (x ∷ k) (y ∷ a) = ground (arith, matches-le k a)

-- Keys that agree everywhere are equal.
pub matches_all : (k a : Bytes) → length a ≡ length k → matches k a ≡ length k → a ≡ k
matches_all [] [] e h = refl
matches_all [] (y ∷ a) e h = absurd (omega arith)
matches_all (x ∷ k) [] e h = absurd (omega arith)
matches_all (x ∷ k) (y ∷ a) e h = elim (Bool-cases (x == y)) [
  | inl agree ↦
      ap₂ ◌∷◌ (sym ((==_iff x y).0 agree)) (matches_all k a (omega arith) (ground (arith, agree)))
  | inr differ ↦ absurd (ground (arith, differ, matches-le k a))
]
