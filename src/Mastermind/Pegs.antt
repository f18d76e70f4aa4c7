-- ===== src/Mastermind/Pegs.antt =====
-- The peg counts are those of the rules: blacks are the positions that agree, and blacks and
-- whites together are the pegs that the two keys have in common, colour by colour.
use native.Mathlib.Nat.{add-zero, zero-add, add_assoc}
use rc.Base.{
  ℕ, ◌+◌, ◌-◌, ◌≤◌, ◌≡◌, refl, ap, sym, ◌∙◌, arith, true, false, [], ◌∷◌, ◌==◌, ltb, map, Bytes,
  if◌then◌else◌, some, List, length, All, ==_iff, Bool-cases, Option-cases, inl, inr,
}
use rc.Constants.{valid_colors}
use rc.Udp.Parser.Reads.{IsColor, IsKey}
use rc.Udp.Parser.{has_byte}
use rc.Mastermind.{find, bump, count_at, Tally, tally_peg, tally, sum_min, calculate_attempt}

-- The number of positions at which two keys agree.
abbrev pub matches : Bytes → Bytes → ℕ
matches (x ∷ k) (y ∷ a) = (if x == y then 1 else 0) + matches k a
matches _ _ = 0

abbrev pub count : ℕ → Bytes → ℕ
count c [] = 0
count c (x ∷ k) = (if c == x then 1 else 0) + count c k

-- Over the colours of a list, the smaller of two numbers for each.
abbrev pub shared : (ℕ → ℕ) → (ℕ → ℕ) → Bytes → ℕ
shared f g [] = 0
shared f g (c ∷ cs) = (if ltb (f c) (g c) then f c else g c) + shared f g cs

-- The pegs that two keys have in common, wherever they stand.
abbrev pub common : Bytes → Bytes → ℕ
common k a = shared (λ c. count c k) (λ c. count c a) valid_colors

abbrev pub Distinct : Bytes → Type 0
Distinct [] = Unit
Distinct (c ∷ cs) = (has_byte c cs ≡ false) × Distinct cs

plus_one : ℕ → (ℕ → ℕ) → ℕ → ℕ
plus_one x f c = (if c == x then 1 else 0) + f c

map-plus_one :
    (x : ℕ) (f : ℕ → ℕ) (cs : Bytes) → has_byte x cs ≡ false → map (plus_one x f) cs ≡ map f cs
unfolding plus_one has_byte
map-plus_one x f [] h = refl
map-plus_one x f (c ∷ cs) h = ground (arith, map-plus_one x f cs)

count_at_here :
    (c x y : ℕ) (cs : Bytes) (ys : List ℕ)
    → (c == x) ≡ true
    → count_at (c ∷ cs) x (y ∷ ys) ≡ some ((y + 1) ∷ ys)
unfolding count_at find bump
count_at_here c x y cs ys h = rw h

count_at_skip :
    (c x y : ℕ) (cs : Bytes) (ys zs : List ℕ)
    → (c == x) ≡ false
    → count_at cs x ys ≡ some zs
    → count_at (c ∷ cs) x (y ∷ ys) ≡ some (y ∷ zs)
unfolding count_at find bump
count_at_skip c x y cs ys zs h e = elim (Option-cases (find x cs)) [
  | inl missing ↦ absurd (cc)
  | inr (i, found) ↦ rw (h, found) (rw (rw found at e))
]

count_at-map :
    (x : ℕ) (f : ℕ → ℕ) (cs : Bytes)
    → Distinct cs
    → has_byte x cs ≡ true
    → count_at cs x (map f cs) ≡ some (map (plus_one x f) cs)
unfolding has_byte plus_one
count_at-map x f [] d h = cc
count_at-map x f (c ∷ cs) d h = elim (Bool-cases (c == x)) [
  | inl here ↦ count_at_here c x (f c) cs (map f cs) here ∙ ground (arith, map-plus_one x f cs)
  | inr there ↦
      count_at_skip c x (f c) cs (map f cs) _ there (count_at-map x f cs d.1 (ground arith))
      ∙ ground arith
]

-- Raising both counts of one colour raises what is shared by one.
shared-plus_one_out :
    (x : ℕ) (f g : ℕ → ℕ) (cs : Bytes)
    → has_byte x cs ≡ false
    → shared (plus_one x f) (plus_one x g) cs ≡ shared f g cs
unfolding has_byte plus_one
shared-plus_one_out x f g [] h = refl
shared-plus_one_out x f g (c ∷ cs) h = ground (arith, shared-plus_one_out x f g cs)

shared-plus_one :
    (x : ℕ) (f g : ℕ → ℕ) (cs : Bytes)
    → Distinct cs
    → has_byte x cs ≡ true
    → shared (plus_one x f) (plus_one x g) cs ≡ 1 + shared f g cs
unfolding has_byte plus_one
shared-plus_one x f g [] d h = cc
shared-plus_one x f g (c ∷ cs) d h =
    ground (arith, shared-plus_one x f g cs, shared-plus_one_out x f g cs)

shared_cong :
    (f g f' g' : ℕ → ℕ) (cs : Bytes)
    → ((c : ℕ) → f c ≡ f' c)
    → ((c : ℕ) → g c ≡ g' c)
    → shared f g cs ≡ shared f' g' cs
shared_cong f g f' g' [] p q = refl
shared_cong f g f' g' (c ∷ cs) p q = rw (p c, q c) (omega (arith, shared_cong f g f' g' cs p q))

sum_min-map : (f g : ℕ → ℕ) (cs : Bytes) → sum_min (map f cs) (map g cs) ≡ shared f g cs
unfolding sum_min
sum_min-map f g [] = refl
sum_min-map f g (c ∷ cs) = rw (sum_min-map f g cs)

-- The counts of the key's pegs, and of the attempt's, at the positions that do not agree.
missed : Bytes → Bytes → (ℕ → ℕ) → ℕ → ℕ
missed (x ∷ k) (y ∷ a) f = missed k a (if x == y then f else plus_one x f)
missed _ _ f = f

-- A tally whose counts are given by functions on the colours.
abbrev at_colors : ℕ → (ℕ → ℕ) → (ℕ → ℕ) → Tally
at_colors b f g = record {
  blacks = b;
  key_count = map f valid_colors;
  attempt_count = map g valid_colors;
}

pub valid_colors-Distinct : Distinct valid_colors
unfolding has_byte
valid_colors-Distinct = (refl, (refl, (refl, (refl, (refl, (refl, tt))))))

tally_agree :
    (x y b : ℕ) (f g : ℕ → ℕ)
    → (x == y) ≡ true
    → tally_peg x y (at_colors b f g) ≡ some (at_colors (b + 1) f g)
unfolding tally_peg
tally_agree x y b f g e = rw e

tally_differ :
    (x y b : ℕ) (f g : ℕ → ℕ)
    → IsColor x
    → IsColor y
    → (x == y) ≡ false
    → tally_peg x y (at_colors b f g) ≡ some (at_colors b (plus_one x f) (plus_one y g))
unfolding tally_peg
tally_differ x y b f g hx hy e = rw (
  e,
  count_at-map x f valid_colors valid_colors-Distinct hx,
  count_at-map y g valid_colors valid_colors-Distinct hy,
)

==_comm : (x y : ℕ) → (x == y) ≡ (y == x)
==_comm x y = ground arith

tally-missed :
    (k a : Bytes) (b : ℕ) (f g : ℕ → ℕ)
    → length k ≡ length a
    → All IsColor k
    → All IsColor a
    → tally (length k) k a (at_colors b f g)
      ≡ some (at_colors (b + matches k a) (missed k a f) (missed a k g))
unfolding tally missed
tally-missed [] [] b f g e hk ha = rw add-zero
tally-missed [] (y ∷ a) b f g e hk ha = absurd (omega arith)
tally-missed (x ∷ k) [] b f g e hk ha = absurd (omega arith)
tally-missed (x ∷ k) (y ∷ a) b f g e hk ha = elim (Bool-cases (x == y)) [
  | inl agree ↦
      rw (tally_agree x y b f g agree, ← ==_comm x y, agree)
        (tally-missed k a (b + 1) f g (omega arith) hk.1 ha.1 ∙ rw add_assoc)
  | inr differ ↦
      rw (tally_differ x y b f g hk.0 ha.0 differ, ← ==_comm x y, differ)
        (tally-missed k a b (plus_one x f) (plus_one y g) (omega arith) hk.1 ha.1 ∙ rw zero-add)
]

counted : Bytes → (ℕ → ℕ) → ℕ → ℕ
counted [] f = f
counted (x ∷ k) f = counted k (plus_one x f)

counted-count : (k : Bytes) (f : ℕ → ℕ) (c : ℕ) → counted k f c ≡ f c + count c k
unfolding counted plus_one
counted-count [] f c = omega arith
counted-count (x ∷ k) f c = omega (arith, counted-count k (plus_one x f) c)

counted-plus_one :
    (x : ℕ) (k : Bytes) (f : ℕ → ℕ) (c : ℕ)
    → counted k (plus_one x f) c ≡ plus_one x (counted k f) c
unfolding plus_one
counted-plus_one x k f c = omega (arith, counted-count k (plus_one x f) c, counted-count k f c)

shared-counted_both :
    (x : ℕ) (k a : Bytes) (f g : ℕ → ℕ)
    → IsColor x
    → shared (counted k (plus_one x f)) (counted a (plus_one x g)) valid_colors
      ≡ 1 + shared (counted k f) (counted a g) valid_colors
shared-counted_both x k a f g h =
    shared_cong _ _ _ _ valid_colors (counted-plus_one x k f) (counted-plus_one x a g)
    ∙ shared-plus_one x (counted k f) (counted a g) valid_colors valid_colors-Distinct h

-- Agreeing positions and what is shared at the others make up what the two keys share.
shared-missed :
    (k a : Bytes) (f g : ℕ → ℕ)
    → length k ≡ length a
    → All IsColor k
    → matches k a + shared (missed k a f) (missed a k g) valid_colors
      ≡ shared (counted k f) (counted a g) valid_colors
unfolding missed counted
shared-missed [] [] f g e hk = omega arith
shared-missed [] (y ∷ a) f g e hk = absurd (omega arith)
shared-missed (x ∷ k) [] f g e hk = absurd (omega arith)
shared-missed (x ∷ k) (y ∷ a) f g e hk = elim (Bool-cases (x == y)) [
  | inl agree ↦
      let same = (==_iff x y).0 agree in
      rw (← ==_comm x y, agree, ← same)
        (omega
          (arith, shared-missed k a f g (omega arith) hk.1, shared-counted_both x k a f g hk.0))
  | inr differ ↦
      rw (← ==_comm x y, differ)
        (omega (arith, shared-missed k a (plus_one x f) (plus_one y g) (omega arith) hk.1))
]

abbrev no_pegs : ℕ → ℕ
no_pegs c = 0

counted-no_pegs : (k : Bytes) (c : ℕ) → counted k no_pegs c ≡ count c k
counted-no_pegs k c = omega (arith, counted-count k no_pegs c)

matches-common :
    (k a : Bytes)
    → length k ≡ length a
    → All IsColor k
    → matches k a
        + sum_min (map (missed k a no_pegs) valid_colors) (map (missed a k no_pegs) valid_colors)
      ≡ common k a
matches-common k a e h = rw (sum_min-map (missed k a no_pegs) (missed a k no_pegs) valid_colors) (
    shared-missed k a no_pegs no_pegs e h
    ∙ shared_cong (counted k no_pegs) (counted a no_pegs) (λ c. count c k) (λ c. count c a)
        valid_colors (counted-no_pegs k) (counted-no_pegs a))

-- For two keys of four valid colours the computation is defined. It adds the number of agreeing
-- positions to the blacks, and to the whites what the keys share beyond those.
pub calculate_attempt-pegs :
    (key att : Bytes) (whites blacks : ℕ)
    → IsKey key
    → IsKey att
    → (matches key att ≤ common key att)
      × (calculate_attempt key att whites blacks
          ≡ some (whites + (common key att - matches key att), blacks + matches key att))
unfolding calculate_attempt
calculate_attempt-pegs key att whites blacks hk ha =
    let same : length key ≡ length att = hk.four ∙ sym ha.four in
    let counts = matches-common key att same hk.colors in
    let run =
      rw hk.four at (tally-missed key att blacks no_pegs no_pegs same hk.colors ha.colors) in
    (omega arith, rw run (ap (λ n. some (whites + n, blacks + matches key att)) (omega arith)))
