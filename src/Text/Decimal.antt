-- ===== src/Text/Decimal.antt =====
-- `ostream << n` for an unsigned number, and the digits that `istream >> n` reads.
use native.Mathlib.Nat.{pow-suc}
use rc.Base.{
  ℕ, zero, suc, ◌+◌, ◌-◌, ◌*◌, ◌/◌, ◌%◌, ◌^◌, ◌≤◌, ◌<◌, Bool, true, false, ◌&&◌, [], ◌∷◌, ◌++◌, ◌≡◌,
  refl, ◌∙◌, subst, inl, inr, arith, ltb, leb, if◌then◌else◌, Bool-cases, Bytes, All, length,
}

-- `std::isdigit`.
unfoldable pub is_digit : ℕ → Bool
is_digit c = leb b'0' c && leb c b'9'

abbrev pub IsDigit : ℕ → Type 0
IsDigit c = is_digit c ≡ true

digits_onto : ℕ → ℕ → Bytes → Bytes
digits_onto zero n out = out
digits_onto (suc f) n out =
    let rest = digits_onto f (n / 10) ((b'0' + n % 10) ∷ out) in
    if ltb n 10 then (b'0' + n) ∷ out else rest

-- The decimal digits of `n`, without leading zeros.
unfoldable pub decimal : ℕ → Bytes
unfolding digits_onto
decimal n = digits_onto (suc n) n []

-- The longest run of digits in front, as a number that continues `n`, and what stands behind it.
unfoldable pub scan : Bytes → ℕ → ℕ × Bytes
unfolding is_digit
scan [] n = (n, [])
scan (c ∷ s) n = let rest = scan s (n * 10 + (c - b'0')) in if is_digit c then rest else (n, c ∷ s)

-- What stands behind a number is no digit.
abbrev pub Ends : Bytes → Type 0
Ends [] = Unit {0}
Ends (c ∷ s) = is_digit c ≡ false

pub newline-Ends : (s : Bytes) → Ends (b'\n' ∷ s)
unfolding is_digit
newline-Ends s = refl

pub space-Ends : (s : Bytes) → Ends (b' ' ∷ s)
unfolding is_digit
space-Ends s = refl

digits_onto-append :
    (f n : ℕ) (out rest : Bytes) → digits_onto f n out ++ rest ≡ digits_onto f n (out ++ rest)
unfolding digits_onto
digits_onto-append zero n out rest = refl
digits_onto-append (suc f) n out rest =
    ground (arith, digits_onto-append f (n / 10) ((b'0' + n % 10) ∷ out) rest)

scan_last : (n : ℕ) (out : Bytes) → scan ((b'0' + n % 10) ∷ out) (n / 10) ≡ scan out n
unfolding scan
scan_last n out = ground arith

scan_first : (n : ℕ) (out : Bytes) → n < 10 → scan ((b'0' + n) ∷ out) 0 ≡ scan out n
unfolding scan
scan_first n out h = ground arith

scan-digits_onto : (f n : ℕ) (out : Bytes) → n < f → scan (digits_onto f n out) 0 ≡ scan out n
unfolding digits_onto
scan-digits_onto zero n out h = absurd (omega arith)
scan-digits_onto (suc f) n out h = elim (Bool-cases (ltb n 10)) [
  | inl small ↦ rw small (scan_first n out (ground arith))
  | inr big ↦ rw big (scan-digits_onto f (n / 10) _ (ground arith) ∙ scan_last n out)
]

scan-Ends : (n : ℕ) (rest : Bytes) → Ends rest → scan rest n ≡ (n, rest)
unfolding scan
scan-Ends n [] h = refl
scan-Ends n (c ∷ s) h = rw h

-- Reading a printed number gives the number back, and stops behind it.
pub scan-decimal : (n : ℕ) (rest : Bytes) → Ends rest → scan (decimal n ++ rest) 0 ≡ (n, rest)
unfolding decimal
scan-decimal n rest h =
    rw digits_onto-append (scan-digits_onto (suc n) n rest (omega arith) ∙ scan-Ends n rest h)

IsDigit-add : (n : ℕ) → n < 10 → IsDigit (b'0' + n)
unfolding is_digit
IsDigit-add n h = ground arith

digits_onto-IsDigit : (f n : ℕ) (out : Bytes) → All IsDigit out → All IsDigit (digits_onto f n out)
unfolding digits_onto
digits_onto-IsDigit zero n out h = h
digits_onto-IsDigit (suc f) n out h = elim (Bool-cases (ltb n 10)) [
  | inl small ↦ rw small (IsDigit-add n (ground arith), h)
  | inr big ↦ rw big (digits_onto-IsDigit f (n / 10) _ (IsDigit-add (n % 10) (omega arith), h))
]

pub decimal-IsDigit : (n : ℕ) → All IsDigit (decimal n)
unfolding decimal
decimal-IsDigit n = digits_onto-IsDigit (suc n) n [] tt

digits_onto_cons :
    (f n : ℕ) (out : Bytes) → n < f → (c : ℕ) × (s : Bytes) × (digits_onto f n out ≡ c ∷ s)
unfolding digits_onto
digits_onto_cons zero n out h = absurd (omega arith)
digits_onto_cons (suc f) n out h = elim (Bool-cases (ltb n 10)) [
  | inl small ↦ (b'0' + n, out, rw small)
  | inr big ↦ rw big (digits_onto_cons f (n / 10) ((b'0' + n % 10) ∷ out) (ground arith))
]

-- A printed number begins with a digit.
pub decimal_cons : (n : ℕ) → (c : ℕ) × (s : Bytes) × (decimal n ≡ c ∷ s) × IsDigit c
unfolding decimal
decimal_cons n =
    let (c, s, e) = digits_onto_cons (suc n) n [] (omega arith) in
    (c, s, e, (subst (All IsDigit) e (decimal-IsDigit n)).0)

tenth-lt : (k n : ℕ) → n < 10 ^ suc (suc k) → n / 10 < 10 ^ suc k
tenth-lt k n h = omega (arith, pow-suc 10 (suc k))

length-digits_onto :
    (k f n : ℕ) (out : Bytes) → n < 10 ^ suc k → length (digits_onto f n out) ≤ suc k + length out
unfolding digits_onto
length-digits_onto k zero n out h = omega arith
length-digits_onto zero (suc f) n out h = ground arith
length-digits_onto (suc k) (suc f) n out h =
    ground (arith, length-digits_onto k f (n / 10) ((b'0' + n % 10) ∷ out) (tenth-lt k n h))

-- A number below 10 ^ (k + 1) takes at most k + 1 digits.
pub length-decimal : (k n : ℕ) → n < 10 ^ suc k → length (decimal n) ≤ suc k
unfolding decimal
length-decimal k n h = omega (arith, length-digits_onto k (suc n) n [] h)

decimal_example :
    decimal 1734376356 ≡ b'1' ∷ b'7' ∷ b'3' ∷ b'4' ∷ b'3' ∷ b'7' ∷ b'6' ∷ b'3' ∷ b'5' ∷ b'6' ∷ []
unfolding decimal
decimal_example = refl
