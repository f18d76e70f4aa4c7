-- ===== src/Udp/Parser/Reads.antt =====
-- What each parser reads off the text that the encoders print for it, whatever stands behind.
use native.Mathlib.Nat.{pow-suc}
use rc.Base.{
  ℕ, zero, suc, ◌+◌, ◌-◌, ◌*◌, ◌^◌, ◌≤◌, ◌<◌, true, [], ◌∷◌, ◌++◌, ◌≡◌, refl, ap, subst, ◌∙◌, sym,
  arith, Bytes, All, length,
}
use rc.Base.Int.{pos}
use rc.Constants.{plid_len, secret_key_len, uint32_max, valid_colors}
use rc.Exceptions.{return}
use rc.Text.Decimal.{
  is_digit, IsDigit, scan, Ends, decimal, scan-decimal, space-Ends, decimal_cons, decimal-IsDigit,
}
use rc.Udp.Parser.{
  stream, has_byte, read_long, within_uint, parse_uint, parse_fixed_digit_string, parse_player_id,
  parse_color_char, parse_colors, parse_key, next, end_packet, rev_onto, digits_of, spaced,
}

abbrev pub IsColor : ℕ → Type 0
IsColor c = has_byte c valid_colors ≡ true

-- Six digits.
pub record IsPlayerId (p : Bytes) : Type 0 where
  pub six : length p ≡ plid_len
  pub digits : All IsDigit p

-- Four of the six colours.
pub record IsKey (k : Bytes) : Type 0 where
  pub four : length k ≡ secret_key_len
  pub colors : All IsColor k

pub next-space :
    (s past : Bytes) → next (stream past (b' ' ∷ s)) ≡ return (tt, stream (b' ' ∷ past) s)
unfolding next
next-space s past = refl

pub end_packet-newline :
    (past : Bytes) → end_packet (stream past (b'\n' ∷ [])) ≡ return (tt, stream (b'\n' ∷ past) [])
unfolding end_packet
end_packet-newline past = refl

digits_of-append : (p s : Bytes) → All IsDigit p → Ends s → digits_of (p ++ s) ≡ p
unfolding digits_of
digits_of-append [] [] hp hs = refl
digits_of-append [] (c ∷ s) hp hs = rw hs
digits_of-append (c ∷ p) s hp hs = rw hp.0 (ap (◌∷◌ c) (digits_of-append p s hp.1 hs))

read_long-decimal :
    (n : ℕ) (s past : Bytes)
    → Ends s
    → read_long (stream past (decimal n ++ s))
      ≡ return (pos n, stream (rev_onto (decimal n) past) s)
unfolding read_long
read_long-decimal n s past h =
    let (c, d, e, first) = decimal_cons n in
    let whole : c ∷ (d ++ s) ≡ decimal n ++ s = ap (λ x. x ++ s) (sym e) in
    subst (λ x. read_long (stream past x) ≡ return (pos n, stream (rev_onto (decimal n) past) s))
      whole
      (ground (
        arith,
        first,
        ap (λ x. scan x 0) whole ∙ scan-decimal n s h,
        ap digits_of whole ∙ digits_of-append (decimal n) s (decimal-IsDigit n) h,
      ))

pub parse_uint-decimal :
    (n : ℕ) (s past : Bytes)
    → Ends s
    → n ≤ uint32_max
    → parse_uint (stream past (decimal n ++ s)) ≡ return (n, stream (rev_onto (decimal n) past) s)
unfolding parse_uint within_uint
parse_uint-decimal n s past h b = ground (arith, read_long-decimal n s past h)

fixed_digits-append :
    (p s past : Bytes)
    → All IsDigit p
    → parse_fixed_digit_string (length p) (stream past (p ++ s))
      ≡ return (p, stream (rev_onto p past) s)
unfolding parse_fixed_digit_string rev_onto
fixed_digits-append [] s past h = refl
fixed_digits-append (c ∷ p) s past h = rw (h.0, fixed_digits-append p s (c ∷ past) h.1)

digit_step : (c m n : ℕ) → IsDigit c → n < m → n * 10 + (c - b'0') < m * 10
unfolding is_digit
digit_step c m n h b = ground arith

mul_shift : (m t : ℕ) → m * 10 * t ≡ m * (t * 10)
mul_shift m t = omega arith

pub scan-lt : (p : Bytes) (m n : ℕ) → All IsDigit p → n < m → (scan p n).0 < m * 10 ^ length p
unfolding scan
scan-lt [] m n h b = omega arith
scan-lt (c ∷ p) m n h b =
    let deeper = scan-lt p (m * 10) (n * 10 + (c - b'0')) h.1 (digit_step c m n h.0 b) in
    rw (h.0, scan)
      (omega (arith, deeper, ap (λ t. m * t) (pow-suc 10 (length p)), mul_shift m (10 ^ length p)))

pub parse_player_id-append :
    (p s past : Bytes)
    → IsPlayerId p
    → parse_player_id (stream past (p ++ s)) ≡ return (p, stream (rev_onto p past) s)
unfolding parse_player_id
parse_player_id-append p s past v =
    let read = rw v.six at (fixed_digits-append p s past v.digits) in
    let value = rw v.six at (scan-lt p 1 0 v.digits (omega arith)) in ground (arith, read, value)

pub spaced-Ends : (n : ℕ) (k s : Bytes) → Ends s → Ends (spaced n k ++ s)
unfolding spaced
spaced-Ends zero k s h = h
spaced-Ends (suc n) [] s h = space-Ends []
spaced-Ends (suc n) (c ∷ k) s h = space-Ends []

-- A printed key begins with a blank.
pub spaced_cons : (n : ℕ) (k : Bytes) → (r : Bytes) × (spaced (suc n) k ≡ b' ' ∷ r)
unfolding spaced
spaced_cons n [] = (_, refl)
spaced_cons n (c ∷ k) = (_, refl)

parse_color :
    (c : ℕ) (s past : Bytes)
    → IsColor c
    → parse_color_char (stream past (c ∷ s)) ≡ return (c, stream (c ∷ past) s)
unfolding parse_color_char
parse_color c s past h = rw h

parse_colors-spaced :
    (k s past : Bytes)
    → All IsColor k
    → parse_colors (length k) (stream past (spaced (length k) k ++ s))
      ≡ return (k, stream (rev_onto (spaced (length k) k) past) s)
unfolding parse_colors spaced rev_onto
parse_colors-spaced [] s past h = refl
parse_colors-spaced (c ∷ k) s past h =
    rw (next-space, parse_color c _ _ h.0, parse_colors-spaced k s (c ∷ b' ' ∷ past) h.1)

pub parse_key-spaced :
    (k s past : Bytes)
    → IsKey k
    → parse_key (stream past (spaced secret_key_len k ++ s))
      ≡ return (k, stream (rev_onto (spaced secret_key_len k) past) s)
unfolding parse_key
parse_key-spaced k s past v = rw v.four at (parse_colors-spaced k s past v.colors)
