-- ===== src/Text/Words.antt =====
-- Formatted extraction from an `istringstream`, which skips blanks, and lines from a file.
pub mod Reads
use rc.Base.{
  ℕ, zero, suc, ◌+◌, ◌-◌, ◌%◌, ◌^◌, ◌≤◌, ◌<◌, Bool, true, false, not, ◌&&◌, ◌||◌, List, [], ◌∷◌,
  ◌++◌, ◌≡◌, ◌≢◌, refl, ap, subst, sym, ◌∙◌, arith, ltb, leb, ◌==◌, if◌then◌else◌, Bytes, All,
  Option, none, some, Bool-cases, inl, inr, append_assoc, append-nil,
}
use rc.Base.Int.{ℤ, pos, negsuc}
use rc.Text.Decimal.{is_digit, IsDigit, scan, Ends, decimal, scan-decimal, decimal_cons}

-- `std::isspace` in the C locale.
unfoldable pub is_space : ℕ → Bool
is_space c = c == b' ' || (leb 9 c && leb c 13)

-- What is left to extract; `none` once the fail bit is set, and then no variable changes.
abbrev pub In : Type 0
In = Option Bytes

unfoldable pub skip_spaces : Bytes → Bytes
unfolding is_space
skip_spaces [] = []
skip_spaces (c ∷ s) = let t = skip_spaces s in if is_space c then t else c ∷ s

-- The bytes up to the next blank, and those from it on.
unfoldable pub span_word : Bytes → Bytes × Bytes
unfolding is_space
span_word [] = ([], [])
span_word (c ∷ s) = let t = span_word s in if is_space c then ([], c ∷ s) else (c ∷ t.0, t.1)

word_of : Bytes → Bytes → Bytes × In
unfolding span_word
word_of old [] = (old, none)
word_of old (c ∷ s) = let t = span_word (c ∷ s) in (t.0, some t.1)

-- `stream >> text`, where `old` is what the variable holds.
unfoldable pub read_word : Bytes → In → Bytes × In
unfolding word_of skip_spaces
read_word old none = (old, none)
read_word old (some s) = word_of old (skip_spaces s)

char_of : ℕ → Bytes → ℕ × In
char_of old [] = (old, none)
char_of old (c ∷ s) = (c, some s)

-- `stream >> character`.
unfoldable pub read_char : ℕ → In → ℕ × In
unfolding char_of skip_spaces
read_char old none = (old, none)
read_char old (some s) = char_of old (skip_spaces s)

-- The unsigned digits at the front; `none` if there are none.
digits_at : Bytes → Option (ℕ × Bytes)
unfolding is_digit scan
digits_at [] = none
digits_at (c ∷ s) = if is_digit c then some (scan (c ∷ s) 0) else none

-- An optional sign and digits.
pub signed_at : Bytes → Bool × Option (ℕ × Bytes)
unfolding digits_at
signed_at [] = (false, none)
signed_at (c ∷ s) =
    if c == b'-'
    then (true, digits_at s)
    else if c == b'+'
    then (false, digits_at s)
    else (false, digits_at (c ∷ s))

-- A value for `unsigned int`: a negative one wraps around, one that does not fit is the largest
-- and fails, and no digits give 0 and fail.
uint_of : Bool × Option (ℕ × Bytes) → ℕ × In
uint_of (sign, none) = (0, none)
uint_of (sign, some (n, s)) =
    if ltb 4294967295 n
    then (4294967295, none)
    else (if sign then (2 ^ 32 - n) % 2 ^ 32 else n, some s)

-- A value for `int`, likewise at both ends of its range.
int_of : Bool × Option (ℕ × Bytes) → ℤ × In
int_of (sign, none) = (pos 0, none)
int_of (true, some (n, s)) =
    if n == 0
    then (pos 0, some s)
    else if ltb 2147483648 n
    then (negsuc 2147483647, none)
    else (negsuc (n - 1), some s)
int_of (false, some (n, s)) = if ltb 2147483647 n then (pos 2147483647, none) else (pos n, some s)

-- At the end of the stream the variable keeps its value.
at_number : {A : Type 0} → A → (Bytes → A × In) → Bytes → A × In
at_number old f [] = (old, none)
at_number old f (c ∷ s) = f (c ∷ s)

-- `stream >> n` for an `unsigned int`.
unfoldable pub read_uint : ℕ → In → ℕ × In
unfolding at_number uint_of signed_at skip_spaces
read_uint old none = (old, none)
read_uint old (some s) = at_number old (λ t. uint_of (signed_at t)) (skip_spaces s)

-- `stream >> n` for an `int`.
unfoldable pub read_int : ℤ → In → ℤ × In
unfolding at_number int_of signed_at skip_spaces
read_int old none = (old, none)
read_int old (some s) = at_number old (λ t. int_of (signed_at t)) (skip_spaces s)

-- `stream << n` for a signed number.
unfoldable pub show_int : ℤ → Bytes
show_int (pos n) = decimal n
show_int (negsuc n) = b'-' ∷ decimal (suc n)

-- `std::getline`: the line without its newline, and the rest of the file.
unfoldable pub take_line : Bytes → Bytes × Bytes
take_line [] = ([], [])
take_line (c ∷ s) = let t = take_line s in if c == b'\n' then ([], s) else (c ∷ t.0, t.1)

abbrev onto_first : ℕ → List Bytes → List Bytes
onto_first c [] = (c ∷ []) ∷ []
onto_first c (l ∷ ls) = (c ∷ l) ∷ ls

-- The lines that `while (std::getline(file, line))` goes through.
unfoldable pub lines : Bytes → List Bytes
lines [] = []
lines (c ∷ s) = let ls = lines s in if c == b'\n' then [] ∷ ls else onto_first c ls
