-- ===== src/Tcp/Parser.antt =====
-- common/protocol/TCP/Parser.cpp. The state is what the peer has sent and not been read: `safe_read`
-- takes the next bytes whole, and where there are too few it throws, `ConnectionTimeoutError`,
-- `ConnectionResetError` or `ConnectionReadError`, which is an argument.
use rc.Base.{
  ℕ, zero, suc, [], ◌∷◌, ◌==◌, ltb, not, Bool, true, ◌&&◌, ◌||◌, Option, none, some, Bytes, length,
  take, drop, if◌then◌else◌,
}
use rc.Base.Int.{ℤ, pos, negsuc}
use rc.Constants.{
  plid_max, plid_len, packet_id_len, status_code_len, fname_max, fsize_max, fsize_str_max,
}
use rc.Exceptions.{Exception, Result, return, throw, invalid_packet}
use rc.Store.{Op, ◌>>=◌, ◌>>◌, done, fail, require}
use rc.Text.Decimal.{is_digit, scan}
use rc.Text.Words.{is_space}

abbrev pub Reader : Type 0 → Type 0
Reader A = Op Bytes A

unfoldable pub all_digits : Bytes → Bool
unfolding is_digit
all_digits [] = true
all_digits (c ∷ s) = is_digit c && all_digits s

-- `n` NUL bytes.
unfoldable pub zeros : ℕ → Bytes
zeros zero = []
zeros (suc n) = 0 ∷ zeros n

abbrev pub cons_to : {S : Type 0} → ℕ → Result Bytes × S → Result Bytes × S
cons_to c (return s, t) = (return (c ∷ s), t)
cons_to c (throw e, t) = (throw e, t)

-- `std::stoul` of a text, as the `long` that it is stored in: its value is below 2 ^ 63 for as few
-- digits as are read here. `none` is a text without a number.
unfoldable pub digits_value : Bytes → Option ℕ
unfolding is_digit scan
digits_value [] = none
digits_value (c ∷ s) = if is_digit c then some (scan (c ∷ s) 0).0 else none

unfoldable pub stoul : Bytes → Option ℤ
unfolding digits_value
stoul [] = none
stoul (c ∷ s) =
    if c == b'-'
    then negated (digits_value s)
    else if c == b'+'
    then positive (digits_value s)
    else positive (digits_value (c ∷ s))
  where
    positive : Option ℕ → Option ℤ
    positive none = none
    positive (some n) = some (pos n)

    negated : Option ℕ → Option ℤ
    negated none = none
    negated (some zero) = some (pos 0)
    negated (some (suc n)) = some (negsuc n)

-- A call inside `try { … } catch (const std::exception&) { throw InvalidPacketException(); }`.
abbrev pub or_invalid : {S A : Type 0} → Result A × S → Result A × S
or_invalid (return a, s) = (return a, s)
or_invalid (throw e, s) = (throw invalid_packet, s)

module _ (closing : Exception) where
  unfoldable pub read_bytes : ℕ → Reader Bytes
  read_bytes n incoming =
      if ltb (length incoming) n
      then (throw closing, incoming)
      else (return (take n incoming), drop n incoming)

  unfoldable pub parse_fixed_string : ℕ → Reader Bytes
  parse_fixed_string size = read_bytes size

  unfoldable pub parse_fixed_digit_string : ℕ → Reader Bytes
  parse_fixed_digit_string size = do
    s ← read_bytes size
    require (all_digits s) invalid_packet
    done s

  -- The buffer keeps its length: behind the text it holds NUL bytes.
  unfoldable pub parse_variable_string : ℕ → ℕ → Reader Bytes
  unfolding is_space zeros
  parse_variable_string zero end incoming = (return [], incoming)
  parse_variable_string (suc n) end [] = (throw closing, [])
  parse_variable_string (suc n) end (c ∷ incoming) =
      let rest = cons_to c (parse_variable_string n end incoming) in
      if is_space c
      then (if c == end
          then (return (zeros (suc n)), incoming)
          else (throw invalid_packet, incoming))
      else rest

  unfoldable pub check_next_char : ℕ → Reader (Unit {0})
  check_next_char c [] = (throw closing, [])
  check_next_char c (x ∷ incoming) =
      if x == c then (return tt, incoming) else (throw invalid_packet, incoming)

  unfoldable pub parse_file_name : Reader Bytes
  parse_file_name = parse_variable_string fname_max b' '

  unfoldable pub next : Reader (Unit {0})
  next = check_next_char b' '

  unfoldable pub end_packet : Reader (Unit {0})
  end_packet = check_next_char b'\n'

  unfoldable pub parse_packet_id : Reader Bytes
  parse_packet_id = parse_fixed_string packet_id_len

  unfoldable pub parse_status : Reader Bytes
  parse_status = parse_fixed_string status_code_len

  unfoldable pub parse_player_id : Reader Bytes
  unfolding scan
  parse_player_id = do
    plid ← parse_fixed_digit_string plid_len
    require (not (ltb plid_max (scan plid 0).0)) invalid_packet
    done plid

  -- The size has to lie in 1 to `FSIZE_MAX`; behind one of four digits stands a newline.
  unfoldable pub sized : Option ℤ → Reader ℕ
  sized none = fail invalid_packet
  sized (some (negsuc n)) = fail invalid_packet
  sized (some (pos n)) =
      if n == 0 || ltb fsize_max n
      then fail invalid_packet
      else if ltb 999 n
      then (λ incoming. or_invalid ((do check_next_char b'\n'; done n) incoming))
      else done n

  unfoldable pub parse_file_size : Reader ℕ
  unfolding stoul
  parse_file_size = do text ← parse_variable_string fsize_str_max b' '; sized (stoul text)

  unfoldable pub parse_file : ℕ → Reader Bytes
  parse_file size = read_bytes size
