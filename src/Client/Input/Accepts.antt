-- ===== src/Client/Input/Accepts.antt =====
-- What the user types is refused, or makes a request that the server accepts as well-formed.
use rc.Base.{
  ℕ, zero, suc, ◌-◌, ◌≤◌, ltb, ◌==◌, ◌||◌, Bool-cases, inl, inr, ◌⊎◌, ◌≡◌, refl, ap, arith, Bytes,
  length, length-append, All, All-append, none, some,
}
use rc.Base.Int.{ℤ, pos, negsuc}
use rc.Client.Input.{
  fill, padded, plid_of, parse_player_id, time_of, parse_play_time, to_upper, color_read,
  read_color, read_colors, parse_key, read_short,
}
use rc.Client.UdpCommands.{start_request, debug_request}
use rc.Constants.{plid_len, plid_max, play_time_max, secret_key_len, valid_colors}
use rc.Exceptions.{
  Exception, Result, return, throw, invalid_player_id, invalid_play_time, invalid_key,
}
use rc.Store.{Op, resume}
use rc.Text.Decimal.{is_digit, IsDigit, decimal, length-decimal, decimal-IsDigit}
use rc.Text.Words.{In, read_int, read_char}
use rc.Udp.Parser.Reads.{IsPlayerId, IsKey, IsColor}
use rc.Udp.Parser.{has_byte}
use rc.Udp.Requests.Accepts.{IsStart, IsDebug}
use rc.Udp.Requests.RoundTrip.{IsPlayTime}

-- A value with the first property, or an exception with the second.
abbrev pub Checked : {A : Type 0} → (A → Type 0) → (Exception → Type 0) → Result A → Type 0
Checked P Q (return a) = P a
Checked P Q (throw e) = Q e

length-fill : (n c : ℕ) → length (fill n c) ≡ n
unfolding fill
length-fill zero c = refl
length-fill (suc n) c = omega (arith, length-fill n c)

fill-IsDigit : (n : ℕ) → All IsDigit (fill n b'0')
unfolding fill is_digit
fill-IsDigit zero = tt
fill-IsDigit (suc n) = (refl, fill-IsDigit n)

pub padded-IsPlayerId : (n : ℕ) → n ≤ plid_max → IsPlayerId (padded plid_len n)
unfolding padded
padded-IsPlayerId n h = record {
  six =
      let short = length-decimal 5 n (omega arith) in
      omega (
        arith,
        length-append (fill (plid_len - length (decimal n)) b'0') (decimal n),
        length-fill (plid_len - length (decimal n)) b'0',
        short,
      );
  digits =
      All-append IsDigit (fill (plid_len - length (decimal n)) b'0') (decimal n)
        (fill-IsDigit (plid_len - length (decimal n))) (decimal-IsDigit n);
}

abbrev pub IsThrown : Exception → Exception → Type 0
IsThrown expected e = e ≡ expected

plid_of-Checked : (x : ℤ × In) → Checked IsPlayerId (IsThrown invalid_player_id) (plid_of x).0
unfolding plid_of
plid_of-Checked (n, none) = refl
plid_of-Checked (negsuc n, some s) = refl
plid_of-Checked (pos n, some s) = elim (Bool-cases (ltb plid_max n)) [
  | inl big ↦ rw big refl
  | inr fits ↦ rw fits (padded-IsPlayerId n (ground arith))
]

time_of-Checked : (x : ℤ × In) → Checked IsPlayTime (IsThrown invalid_play_time) (time_of x).0
unfolding time_of
time_of-Checked (n, none) = refl
time_of-Checked (negsuc n, some s) = refl
time_of-Checked (pos n, some s) = elim (Bool-cases (n == 0 || ltb play_time_max n)) [
  | inl bad ↦ rw bad refl
  | inr good ↦ rw good (ground arith, ground arith)
]

color_read-Checked : (x : ℕ × In) → Checked IsColor (IsThrown invalid_key) (color_read x).0
unfolding color_read
color_read-Checked (c, none) = refl
color_read-Checked (c, some s) = elim (Bool-cases (has_byte (to_upper c) valid_colors)) [
  | inl good ↦ rw good good
  | inr bad ↦ rw bad refl
]

-- What holds of the values of both steps holds of their sequence.
module _ {A B : Type 0} (P : A → Type 0) (Q : B → Type 0) (E : Exception → Type 0) where
  Checked-bind :
      (r : Result A × In) (f : A → Op In B)
      → Checked P E r.0
      → ((a : A) → P a → (s : In) → Checked Q E (f a s).0)
      → Checked Q E (resume r f).0
  Checked-bind (return a, s) f h k = k a h s
  Checked-bind (throw e, s) f h k = h

Checked-mono :
    {A : Type 0} (P : A → Type 0) (E F : Exception → Type 0) (r : Result A)
    → ((e : Exception) → E e → F e)
    → Checked P E r
    → Checked P F r
Checked-mono P E F (return a) f h = h
Checked-mono P E F (throw e) f h = f e h

abbrev Colors : ℕ → Bytes → Type 0
Colors n k = (length k ≡ n) × All IsColor k

read_color-Checked : (input : In) → Checked IsColor (IsThrown invalid_key) (read_color input).0
unfolding read_color
read_color-Checked input = color_read-Checked (read_char 0 input)

read_colors-Checked :
    (n : ℕ) (input : In) → Checked (Colors n) (IsThrown invalid_key) (read_colors n input).0
unfolding read_colors
read_colors-Checked zero input = (refl, tt)
read_colors-Checked (suc n) input =
    Checked-bind IsColor (Colors (suc n)) (IsThrown invalid_key) (read_color input) _
      (read_color-Checked input)
      λ c h s.
        Checked-bind (Colors n) (Colors (suc n)) (IsThrown invalid_key) (read_colors n s) _
          (read_colors-Checked n s) λ k v t. (ap (λ m. suc m) v.0, (h, v.1))

-- Whatever the user types behind `try`, `parseKey` returns four of the six colours as capitals, or
-- throws `InvalidKeyException`.
pub parse_key-Checked : (input : In) → Checked IsKey (IsThrown invalid_key) (parse_key input).0
unfolding parse_key
parse_key-Checked input = go _ (read_colors-Checked secret_key_len input)
  where
    go :
        (r : Result Bytes)
        → Checked (Colors secret_key_len) (IsThrown invalid_key) r
        → Checked IsKey (IsThrown invalid_key) r
    go (return k) h = record { four = h.0; colors = h.1 }
    go (throw e) h = h

-- The exceptions that refuse a line.
abbrev pub IsRefusal : Exception → Type 0
IsRefusal e = (e ≡ invalid_player_id) ⊎ ((e ≡ invalid_play_time) ⊎ (e ≡ invalid_key))

parse_player_id-Checked : (input : In) → Checked IsPlayerId IsRefusal (parse_player_id input).0
unfolding parse_player_id
parse_player_id-Checked input =
    Checked-mono IsPlayerId (IsThrown invalid_player_id) IsRefusal _ (λ e h. inl h)
      (plid_of-Checked (read_int (negsuc 0) input))

parse_play_time-Checked : (input : In) → Checked IsPlayTime IsRefusal (parse_play_time input).0
unfolding parse_play_time
parse_play_time-Checked input =
    Checked-mono IsPlayTime (IsThrown invalid_play_time) IsRefusal _ (λ e h. inr (inl h))
      (time_of-Checked (read_short (negsuc 0) input))

-- Whatever the user types behind `start` and `debug`, the client makes a request with a player id
-- of six digits, a time from 1 to 600 and, for `debug`, a key of four colours, or it refuses the
-- line with the exception of the id, the time or the key.
pub requests-Checked :
    (input : In)
    → Checked IsStart IsRefusal (start_request input).0
      × Checked IsDebug IsRefusal (debug_request input).0
unfolding start_request debug_request
requests-Checked input = (
  Checked-bind IsPlayerId IsStart IsRefusal (parse_player_id input) _
      (parse_player_id-Checked input)
      λ p v s.
        Checked-bind IsPlayTime IsStart IsRefusal (parse_play_time s) _ (parse_play_time-Checked s)
          λ t w u. (v, w),
  Checked-bind IsPlayerId IsDebug IsRefusal (parse_player_id input) _
      (parse_player_id-Checked input)
      λ p v s.
        Checked-bind IsPlayTime IsDebug IsRefusal (parse_play_time s) _ (parse_play_time-Checked s)
          λ t w u.
            Checked-bind IsKey IsDebug IsRefusal (parse_key u) _
              (Checked-mono IsKey (IsThrown invalid_key) IsRefusal _ (λ e h. inr (inr h))
                (parse_key-Checked u))
              λ k x y. (v, w, x),
)
