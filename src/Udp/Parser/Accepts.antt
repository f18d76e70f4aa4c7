-- ===== src/Udp/Parser/Accepts.antt =====
-- What a parser accepts, whatever bytes it is given: postconditions, with a rule for `do` blocks.
use rc.Base.{
  ℕ, zero, suc, ◌≤◌, ◌≡◌, refl, true, false, [], ◌∷◌, arith, Bytes, All, length, inl, inr,
  Bool-cases, ltb, subst, Bool, ◌&&◌, true, false, ◌==◌, if◌then◌else◌,
}
use rc.Base.Int.{ℤ, pos, negsuc}
use rc.Constants.{plid_len, packet_id_len, secret_key_len, uint32_max, valid_colors, plid_max}
use rc.Exceptions.{Result, return, throw, invalid_packet}
use rc.Text.Decimal.{is_digit, IsDigit, scan}
use rc.Udp.Parser.Reads.{IsColor, IsPlayerId, IsKey}
use rc.Udp.Parser.{
  read_exactly, parse_packet_id, parse_fixed_string, Stream, stream, Parser, and_then, ◌>>=◌,
  cons_to, has_byte, within_uint, read_long, parse_uint, parse_fixed_digit_string, parse_player_id,
  parse_color_char, parse_colors, parse_key, next, check_next_char, at_eof, end_packet, read_digits,
  yield, refuse,
}

abbrev pub Post : {A : Type 0} → (A → Type 0) → Result (A × Stream) → Type 0
Post P (return (a, t)) = P a
Post P (throw e) = e ≡ invalid_packet

-- Whatever the parser returns has the property, and it refuses a packet as invalid, not otherwise.
pub record Ensures {A : Type 0} (P : A → Type 0) (m : Parser A) : Type 0 where
  pub holds : (s : Stream) → Post P (m s)

module _ {A : Type 0} {P : A → Type 0} where
  pub Ensures-return :
      {m : Parser A} (s : Stream) {a : A} {t : Stream} → Ensures P m → m s ≡ return (a, t) → P a
  Ensures-return s h e = subst (Post P) e (h.holds s)

  pub Ensures-yield : {a : A} → P a → Ensures P (yield a)
  Ensures-yield p = record { holds = λ s. p }

  pub Ensures-refuse : Ensures P (refuse invalid_packet)
  Ensures-refuse = record { holds = λ s. refl }

  pub Ensures-if :
      (b : Bool) {m n : Parser A}
      → (b ≡ true → Ensures P m)
      → (b ≡ false → Ensures P n)
      → Ensures P (if b then m else n)
  Ensures-if true h k = h refl
  Ensures-if false h k = k refl

pub Ensures-bind :
    {A B : Type 0} (P : A → Type 0) {Q : B → Type 0} {m : Parser A} {f : A → Parser B}
    → Ensures P m
    → ((a : A) → P a → Ensures Q (f a))
    → Ensures Q (m >>= f)
Ensures-bind {A = A} P {Q = Q} {m = m} {f = f} h k = record { holds = λ s. go s (m s) (h.holds s) }
  where
    go : (s : Stream) (r : Result (A × Stream)) → Post P r → Post Q (and_then r f)
    go s (return (a, t)) p = (k a p).holds t
    go s (throw e) p = p

abbrev pub Any : {A : Type 0} → A → Type 0
Any a = Unit {0}

char-holds : (x : ℕ) (s : Stream) → Post Any (check_next_char x s)
unfolding check_next_char
char-holds x (stream past []) = refl
char-holds x (stream past (c ∷ s)) = elim (Bool-cases (c == x)) [
  | inl good ↦ rw good tt
  | inr bad ↦ rw bad refl
]

pub next-Ensures : Ensures Any next
unfolding next
next-Ensures = record { holds = char-holds b' ' }

eof-holds : (s : Stream) → Post Any (at_eof s)
unfolding at_eof
eof-holds (stream past []) = tt
eof-holds (stream past (c ∷ s)) = refl

pub end_packet-Ensures : Ensures Any end_packet
unfolding end_packet
end_packet-Ensures =
    Ensures-bind Any {Q = Any} (record { holds = char-holds b'\n' })
      λ _ _. record { holds = eof-holds }

Post-if :
    {A : Type 0} (b : Bool) (P : A → Type 0) (x y : Result (A × Stream))
    → Post P x
    → Post P y
    → Post P (if b then x else y)
Post-if true P x y p q = p
Post-if false P x y p q = q

digits-holds : (negative : Bool) (s : Stream) → Post Any (read_digits negative s)
unfolding read_digits
digits-holds negative (stream past []) = refl
digits-holds negative (stream past (c ∷ s)) =
    Post-if (is_digit c) Any _ _ (Post-if (negative && ltb 0 (scan (c ∷ s) 0).0) Any _ _ tt tt) refl

long-holds : (s : Stream) → Post Any (read_long s)
unfolding read_long
long-holds (stream past []) = refl
long-holds (stream past (c ∷ s)) = elim (Bool-cases (c == b'-')) [
  | inl minus ↦ rw minus (digits-holds true (stream (c ∷ past) s))
  | inr other ↦ elim (Bool-cases (c == b'+')) [
    | inl plus ↦ rw (other, plus) (digits-holds false (stream (c ∷ past) s))
    | inr none ↦ rw (other, none) (digits-holds false (stream past (c ∷ s)))
  ]
]

cons_to-Post :
    (c n : ℕ) (P : ℕ → Type 0) (r : Result (Bytes × Stream))
    → P c
    → Post (λ cs. (length cs ≡ n) × All P cs) r
    → Post (λ cs. (length cs ≡ suc n) × All P cs) (cons_to c r)
cons_to-Post c n P (return (ds, t)) h p = (omega arith, (h, p.1))
cons_to-Post c n P (throw e) h p = p

fixed_digits-holds :
    (n : ℕ) (s : Stream)
    → Post (λ cs. (length cs ≡ n) × All IsDigit cs) (parse_fixed_digit_string n s)
unfolding parse_fixed_digit_string
fixed_digits-holds zero s = (refl, tt)
fixed_digits-holds (suc n) (stream past []) = refl
fixed_digits-holds (suc n) (stream past (c ∷ s)) = elim (Bool-cases (is_digit c)) [
  | inl good ↦
      rw good (cons_to-Post c n IsDigit _ good (fixed_digits-holds n (stream (c ∷ past) s)))
  | inr bad ↦ rw bad refl
]

pub parse_player_id-Ensures : Ensures IsPlayerId parse_player_id
unfolding parse_player_id
parse_player_id-Ensures =
    Ensures-bind (λ cs. (length cs ≡ plid_len) × All IsDigit cs)
      (record { holds = fixed_digits-holds plid_len })
      λ p h.
        Ensures-if (ltb plid_max (scan p 0).0) (λ _. Ensures-refuse)
          (λ _. Ensures-yield (record { six = h.0; digits = h.1 }))

within_uint-holds : (z : ℤ) (s : Stream) → Post (λ n. n ≤ uint32_max) (within_uint z s)
unfolding within_uint
within_uint-holds (pos n) s = elim (Bool-cases (ltb uint32_max n)) [
  | inl big ↦ rw big refl
  | inr small ↦ rw small (ground arith)
]
within_uint-holds (negsuc n) s = refl

pub parse_uint-Ensures : Ensures (λ n. n ≤ uint32_max) parse_uint
unfolding parse_uint
parse_uint-Ensures =
    Ensures-bind Any (record { holds = long-holds }) λ z _. record { holds = within_uint-holds z }

IsColor-holds : (s : Stream) → Post IsColor (parse_color_char s)
unfolding parse_color_char
IsColor-holds (stream past []) = refl
IsColor-holds (stream past (c ∷ s)) = elim (Bool-cases (has_byte c valid_colors)) [
  | inl good ↦ rw good good
  | inr bad ↦ rw bad refl
]

IsColor-Ensures : Ensures IsColor parse_color_char
IsColor-Ensures = record { holds = IsColor-holds }

abbrev AreColors : ℕ → Bytes → Type 0
AreColors n cs = (length cs ≡ n) × All IsColor cs

colors-holds : (n : ℕ) (s : Stream) → Post (AreColors n) (parse_colors n s)
unfolding parse_colors
colors-holds zero s = (refl, tt)
colors-holds (suc n) s =
    (Ensures-bind Any {Q = AreColors (suc n)} next-Ensures λ _ _.
        Ensures-bind IsColor IsColor-Ensures λ c h.
          Ensures-bind (AreColors n) (record { holds = colors-holds n })
            λ cs p. Ensures-yield (omega arith, (h, p.1))).holds
      s

pub parse_key-Ensures : Ensures IsKey parse_key
unfolding parse_key
parse_key-Ensures = record { holds = λ s. go _ (colors-holds secret_key_len s) }
  where
    go :
        (r : Result (Bytes × Stream))
        → Post (λ cs. (length cs ≡ secret_key_len) × All IsColor cs) r
        → Post IsKey r
    go (return (k, t)) p = record { four = p.0; colors = p.1 }
    go (throw e) p = p

cons_to-Any : (c : ℕ) (r : Result (Bytes × Stream)) → Post Any r → Post Any (cons_to c r)
cons_to-Any c (return (cs, t)) h = tt
cons_to-Any c (throw e) h = h

exactly-holds : (n : ℕ) (s : Stream) → Post Any (read_exactly n s)
unfolding read_exactly
exactly-holds zero s = tt
exactly-holds (suc n) (stream past []) = refl
exactly-holds (suc n) (stream past (c ∷ s)) =
    cons_to-Any c (read_exactly n (stream (c ∷ past) s)) (exactly-holds n (stream (c ∷ past) s))

pub parse_packet_id-Ensures : Ensures Any parse_packet_id
unfolding parse_packet_id parse_fixed_string
parse_packet_id-Ensures =
    Ensures-bind Any {Q = Any} (record { holds = exactly-holds packet_id_len })
      λ cs _. Ensures-yield tt
