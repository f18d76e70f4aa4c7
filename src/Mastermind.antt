-- ===== src/Mastermind.antt =====
-- server/GameStore.cpp, `calculateAttempt` and the score of `saveGameScore`: the rules of the game.
pub mod Pegs
pub mod Feedback
pub mod Bounds
use rc.Base.{
  ℕ, zero, suc, ◌+◌, ◌-◌, ◌*◌, ◌/◌, [], ◌∷◌, ◌==◌, ltb, if◌then◌else◌, Bytes, Option, none, some,
  List,
}
use rc.Base.Int.{ℤ, pos, negsuc}
use rc.Constants.{secret_key_len, valid_colors}

-- `none` is undefined behaviour: an array is indexed by `npos`.
infixl 5 ◌>>=◌
abbrev pub ◌>>=◌ : {A B : Type 0} → Option A → (A → Option B) → Option B
none >>= f = none
some a >>= f = f a

-- `valid_colors.find(c)`; `none` is `npos`.
pub find : ℕ → Bytes → Option ℕ
find c [] = none
find c (x ∷ xs) = if x == c then some 0 else (do i ← find c xs; some (suc i))

-- `counts[i]++`.
pub bump : ℕ → List ℕ → Option (List ℕ)
bump i [] = none
bump zero (x ∷ xs) = some ((x + 1) ∷ xs)
bump (suc i) (x ∷ xs) = do ys ← bump i xs; some (x ∷ ys)

pub count_at : Bytes → ℕ → List ℕ → Option (List ℕ)
unfolding find bump
count_at colors c counts = do i ← find c colors; bump i counts

-- The variables of the first loop.
pub record Tally : Type 0 where
  pub blacks : ℕ
  pub key_count : List ℕ
  pub attempt_count : List ℕ

-- `s[0]`, the NUL behind the end of a string included, and the string from its second byte on.
abbrev pub first : Bytes → ℕ
first [] = 0
first (c ∷ s) = c

abbrev pub rest : Bytes → Bytes
rest [] = []
rest (c ∷ s) = s

-- One round, at the first peg of what is left of the two keys.
pub tally_peg : ℕ → ℕ → Tally → Option Tally
unfolding count_at
tally_peg k a t = if k == a then some (record t { blacks = t.blacks + 1 }) else (do
  kc ← count_at valid_colors k t.key_count
  ac ← count_at valid_colors a t.attempt_count
  some (record t { key_count = kc; attempt_count = ac }))

pub tally : ℕ → Bytes → Bytes → Tally → Option Tally
unfolding tally_peg
tally zero key att t = some t
tally (suc n) key att t = do
  u ← tally_peg (first key) (first att) t
  tally n (rest key) (rest att) u

-- The second loop: the smaller of the two counts of each colour.
pub sum_min : List ℕ → List ℕ → ℕ
sum_min (x ∷ xs) (y ∷ ys) = (if ltb x y then x else y) + sum_min xs ys
sum_min _ _ = 0

-- The counters start at what the caller's variables hold. They are 32-bit numbers in the source;
-- from 0 they stay at most 4.
unfoldable pub calculate_attempt : Bytes → Bytes → ℕ → ℕ → Option (ℕ × ℕ)
unfolding tally sum_min
calculate_attempt key att whites blacks = do
  t ← tally secret_key_len key att (record {
    blacks = blacks;
    key_count = 0 ∷ 0 ∷ 0 ∷ 0 ∷ 0 ∷ 0 ∷ [];
    attempt_count = 0 ∷ 0 ∷ 0 ∷ 0 ∷ 0 ∷ 0 ∷ [];
  })
  some (whites + sum_min t.key_count t.attempt_count, t.blacks)
