-- ===== src/Text/Words/Reads.antt =====
-- Extraction gives back what was printed, and stops behind it.
use rc.Base.{
  ℕ, ◌≤◌, false, [], ◌∷◌, ◌++◌, ◌≡◌, ◌≢◌, refl, ap, subst, sym, ◌∙◌, arith, le→ltb_false, ◌==◌,
  Bytes, All, some,
}
use rc.Base.Int.{ℤ, pos}
use rc.Text.Decimal.{
  is_digit, IsDigit, scan, Ends, decimal, scan-decimal, decimal_cons, decimal-IsDigit,
}
use rc.Text.Words.{
  is_space, In, skip_spaces, span_word, word_of, read_word, read_char, signed_at, uint_of, int_of,
  at_number, read_uint, read_int, take_line, lines,
}

abbrev pub NotSpace : ℕ → Type 0
NotSpace c = is_space c ≡ false

-- A word: at least one byte, and no blank.
pub record IsWord (w : Bytes) : Type 0 where
  pub nonempty : w ≢ []
  pub solid : All NotSpace w

-- A line: no newline.
abbrev pub NotNewline : ℕ → Type 0
NotNewline c = (c == b'\n') ≡ false

pub NotSpace-of_digit : (c : ℕ) → IsDigit c → NotSpace c
unfolding is_digit is_space
NotSpace-of_digit c h = ground arith

pub NotNewline-of_solid : (c : ℕ) → NotSpace c → NotNewline c
unfolding is_space
NotNewline-of_solid c h = ground arith

pub All-mono : {P Q : ℕ → Type 0} → ((c : ℕ) → P c → Q c) → (w : Bytes) → All P w → All Q w
All-mono f [] h = tt
All-mono f (c ∷ w) h = (f c h.0, All-mono f w h.1)

pub decimal-IsWord : (n : ℕ) → IsWord (decimal n)
decimal-IsWord n =
    let (c, s, e, first) = decimal_cons n in
    record {
      nonempty = λ z. cc (sym e ∙ z);
      solid = All-mono NotSpace-of_digit (decimal n) (decimal-IsDigit n);
    }

pub skip_space : (s : Bytes) → skip_spaces (b' ' ∷ s) ≡ skip_spaces s
unfolding skip_spaces
skip_space s = refl

skip_solid : (c : ℕ) (s : Bytes) → NotSpace c → skip_spaces (c ∷ s) ≡ c ∷ s
unfolding skip_spaces
skip_solid c s h = rw h

span_word-append :
    (w : Bytes) (s : Bytes) → All NotSpace w → span_word (w ++ b' ' ∷ s) ≡ (w, b' ' ∷ s)
unfolding span_word
span_word-append [] s h = refl
span_word-append (c ∷ w) s h = rw (h.0, span_word-append w s h.1)

span_word_end : (w : Bytes) → All NotSpace w → span_word w ≡ (w, [])
unfolding span_word
span_word_end [] h = refl
span_word_end (c ∷ w) h = rw (h.0, span_word_end w h.1)

-- A blank in front is skipped.
pub read_word_blank : (old s : Bytes) → read_word old (some (b' ' ∷ s)) ≡ read_word old (some s)
unfolding read_word
read_word_blank old s = refl

pub read_char_blank :
    (old : ℕ) (s : Bytes) → read_char old (some (b' ' ∷ s)) ≡ read_char old (some s)
unfolding read_char
read_char_blank old s = refl

pub read_uint_blank :
    (old : ℕ) (s : Bytes) → read_uint old (some (b' ' ∷ s)) ≡ read_uint old (some s)
unfolding read_uint
read_uint_blank old s = refl

pub read_int_blank : (old : ℤ) (s : Bytes) → read_int old (some (b' ' ∷ s)) ≡ read_int old (some s)
unfolding read_int
read_int_blank old s = refl

pub read_word-append :
    (old w s : Bytes) → IsWord w → read_word old (some (w ++ b' ' ∷ s)) ≡ (w, some (b' ' ∷ s))
unfolding read_word
read_word-append old [] s h = absurd (h.nonempty refl)
read_word-append old (c ∷ w) s h =
    rw (skip_solid c _ h.solid.0) (rw (span_word-append (c ∷ w) s h.solid, word_of))

pub read_char_cons :
    (old c : ℕ) (s : Bytes) → NotSpace c → read_char old (some (c ∷ s)) ≡ (c, some s)
unfolding read_char
read_char_cons old c s h = rw (skip_solid c s h)

pub digits_at-decimal :
    (n : ℕ) (s : Bytes) → Ends s → signed_at (decimal n ++ s) ≡ (false, some (n, s))
unfolding signed_at is_digit
digits_at-decimal n s h =
    let (c, d, e, first) = decimal_cons n in
    let whole : c ∷ (d ++ s) ≡ decimal n ++ s = ap (λ x. x ++ s) (sym e) in
    subst (λ x. signed_at x ≡ (false, some (n, s))) whole
      (ground (arith, first, ap (λ x. scan x 0) whole ∙ scan-decimal n s h))

pub skip-decimal : (n : ℕ) (s : Bytes) → skip_spaces (decimal n ++ s) ≡ decimal n ++ s
skip-decimal n s =
    let (c, d, e, first) = decimal_cons n in
    rw e (skip_solid c (d ++ s) (NotSpace-of_digit c first))

at_number-decimal :
    {A : Type 0} (old : A) (f : Bytes → A × In) (n : ℕ) (s : Bytes)
    → at_number old f (decimal n ++ s) ≡ f (decimal n ++ s)
unfolding at_number
at_number-decimal old f n s = let (c, d, e, first) = decimal_cons n in rw e

fits : (n : ℕ) (s : Bytes) → n ≤ 4294967295 → uint_of (false, some (n, s)) ≡ (n, some s)
unfolding uint_of
fits n s b = rw (le→ltb_false 4294967295 n b)

fits_int : (n : ℕ) (s : Bytes) → n ≤ 2147483647 → int_of (false, some (n, s)) ≡ (pos n, some s)
unfolding int_of
fits_int n s b = rw (le→ltb_false 2147483647 n b)

pub read_uint-decimal :
    (old n : ℕ) (s : Bytes)
    → Ends s
    → n ≤ 4294967295
    → read_uint old (some (decimal n ++ s)) ≡ (n, some s)
unfolding read_uint
read_uint-decimal old n s h b =
    rw (skip-decimal n s, at_number-decimal, digits_at-decimal n s h) (fits n s b)

pub read_int-decimal :
    (old : ℤ) (n : ℕ) (s : Bytes)
    → Ends s
    → n ≤ 2147483647
    → read_int old (some (decimal n ++ s)) ≡ (pos n, some s)
unfolding read_int
read_int-decimal old n s h b =
    rw (skip-decimal n s, at_number-decimal, digits_at-decimal n s h) (fits_int n s b)

pub take_line-append : (w s : Bytes) → All NotNewline w → take_line (w ++ b'\n' ∷ s) ≡ (w, s)
unfolding take_line
take_line-append [] s h = refl
take_line-append (c ∷ w) s h = rw (h.0, take_line-append w s h.1)

pub lines-append : (w s : Bytes) → All NotNewline w → lines (w ++ b'\n' ∷ s) ≡ w ∷ lines s
unfolding lines
lines-append [] s h = refl
lines-append (c ∷ w) s h = rw (h.0, lines-append w s h.1)
