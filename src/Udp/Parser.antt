-- ===== src/Udp/Parser.antt =====
-- common/protocol/UDP/Parser.cpp, and the loop by which the packets print a key. The packet stream is read with `std::noskipws`, so extraction
-- skips nothing. A stream is what was read, newest first, and what is unread; every failed
-- extraction is thrown as an exception at once, so the stream's error flags need no field.
pub mod Reads
pub mod Accepts
use rc.Base.{
  ◌++◌, ℕ, zero, suc, ◌-◌, Bool, true, false, ◌&&◌, ◌||◌, [], ◌∷◌, ltb, ◌==◌, if◌then◌else◌, Bytes,
}
use rc.Base.Int.{ℤ, pos, negsuc}
use rc.Constants.{
  plid_max, plid_len, secret_key_len, packet_id_len, status_code_len, uint32_max, valid_colors,
}
use rc.Exceptions.{Exception, Result, return, throw, invalid_packet}
use rc.Text.Decimal.{is_digit, scan}

pub data Stream : Type 0 where
  stream : Bytes → Bytes → Stream

abbrev pub Parser : Type 0 → Type 0
Parser A = Stream → Result (A × Stream)

abbrev pub and_then : {A B : Type 0} → Result (A × Stream) → (A → Parser B) → Result (B × Stream)
and_then (return (a, t)) f = f a t
and_then (throw e) f = throw e

infixl 5 ◌>>=◌ ◌>>◌
abbrev pub ◌>>=◌ : {A B : Type 0} → Parser A → (A → Parser B) → Parser B
◌>>=◌ m f s = and_then (m s) f

abbrev pub ◌>>◌ : {B : Type 0} → Parser (Unit {0}) → Parser B → Parser B
m >> k = m >>= λ _. k

abbrev pub yield : {A : Type 0} → A → Parser A
yield a s = return (a, s)

abbrev pub refuse : {A : Type 0} → Exception → Parser A
refuse e s = throw e

-- `colors.find(c) != npos`.
unfoldable pub has_byte : ℕ → Bytes → Bool
has_byte c [] = false
has_byte c (x ∷ xs) = x == c || has_byte c xs

-- `std::string(data)`: the bytes before the first NUL.
unfoldable pub until_nul : Bytes → Bytes
until_nul [] = []
until_nul (c ∷ s) = if c == 0 then [] else c ∷ until_nul s

-- The byte goes in front of those that are read after it.
abbrev pub cons_to : ℕ → Result (Bytes × Stream) → Result (Bytes × Stream)
cons_to c (return (cs, t)) = return (c ∷ cs, t)
cons_to c (throw e) = throw e

-- `packetStream.read(data, size)`; too few bytes are an invalid packet.
unfoldable pub read_exactly : ℕ → Parser Bytes
read_exactly zero s = return ([], s)
read_exactly (suc n) (stream past []) = throw invalid_packet
read_exactly (suc n) (stream past (c ∷ s)) = cons_to c (read_exactly n (stream (c ∷ past) s))

unfoldable pub parse_fixed_string : ℕ → Parser Bytes
unfolding read_exactly until_nul
parse_fixed_string size = do cs ← read_exactly size; yield (until_nul cs)

unfoldable pub parse_fixed_digit_string : ℕ → Parser Bytes
unfolding is_digit
parse_fixed_digit_string zero s = return ([], s)
parse_fixed_digit_string (suc n) (stream past []) = throw invalid_packet
parse_fixed_digit_string (suc n) (stream past (c ∷ s)) =
    let rest = cons_to c (parse_fixed_digit_string n (stream (c ∷ past) s)) in
    if is_digit c then rest else throw invalid_packet

unfoldable pub check_next_char : ℕ → Parser (Unit {0})
check_next_char c (stream past []) = throw invalid_packet
check_next_char c (stream past (x ∷ s)) =
    if x == c then return (tt, stream (x ∷ past) s) else throw invalid_packet

unfoldable pub parse_color_char : Parser ℕ
parse_color_char (stream past []) = throw invalid_packet
parse_color_char (stream past (c ∷ s)) =
    if has_byte c valid_colors then return (c, stream (c ∷ past) s) else throw invalid_packet

abbrev pub value_of : {A : Type 0} → Result (A × Stream) → Result A
value_of (return (a, t)) = return a
value_of (throw e) = throw e

-- A parser on a stream that holds one received packet.
abbrev pub run : {A : Type 0} → Parser A → Bytes → Result A
run m packet = value_of (m (stream [] packet))

-- How the bytes in front of `rest` come to stand behind the reading position.
unfoldable pub rev_onto : Bytes → Bytes → Bytes
rev_onto [] past = past
rev_onto (c ∷ s) past = rev_onto s (c ∷ past)

-- The digits that `scan` takes from a text.
unfoldable pub digits_of : Bytes → Bytes
unfolding is_digit
digits_of [] = []
digits_of (c ∷ s) = let rest = c ∷ digits_of s in if is_digit c then rest else []

-- The digits of `packetStream >> n` for a `long`, behind a sign that is negative or not; no digit
-- is a failure. The value is exact: beyond the range of `long` the extraction fails, and
-- `parse_uint` throws then as it does for a value beyond its own, smaller bounds.
unfoldable pub read_digits : Bool → Parser ℤ
unfolding is_digit scan digits_of rev_onto
read_digits negative (stream past []) = throw invalid_packet
read_digits negative (stream past (c ∷ s)) =
    if is_digit c
    then (let (n, rest) = scan (c ∷ s) 0 in
        let t = stream (rev_onto (digits_of (c ∷ s)) past) rest in
        if negative && ltb 0 n then return (negsuc (n - 1), t) else return (pos n, t))
    else throw invalid_packet

unfoldable pub read_long : Parser ℤ
unfolding read_digits
read_long (stream past []) = throw invalid_packet
read_long (stream past (c ∷ s)) =
    if c == b'-'
    then read_digits true (stream (c ∷ past) s)
    else if c == b'+'
    then read_digits false (stream (c ∷ past) s)
    else read_digits false (stream past (c ∷ s))

within_uint : ℤ → Parser ℕ
within_uint (negsuc n) s = throw invalid_packet
within_uint (pos n) s = if ltb uint32_max n then throw invalid_packet else return (n, s)

unfoldable pub parse_uint : Parser ℕ
unfolding read_long within_uint
parse_uint = do n ← read_long; within_uint n

unfoldable pub next : Parser (Unit {0})
unfolding check_next_char
next = check_next_char b' '

-- The stream has to be at its end.
at_eof : Parser (Unit {0})
at_eof (stream past []) = return (tt, stream past [])
at_eof (stream past (c ∷ s)) = throw invalid_packet

-- `UdpParser::end`.
unfoldable pub end_packet : Parser (Unit {0})
unfolding check_next_char at_eof
end_packet = do check_next_char b'\n'; at_eof

unfoldable pub parse_packet_id : Parser Bytes
unfolding parse_fixed_string
parse_packet_id = parse_fixed_string packet_id_len

-- The receiver of a request reads the identifier first.
abbrev pub identified : {A : Type 0} → Parser A → Parser (Bytes × A)
identified decode = do id ← parse_packet_id; p ← decode; yield (id, p)

unfoldable pub parse_status : Parser Bytes
unfolding parse_fixed_string
parse_status = parse_fixed_string status_code_len

-- `std::stoul` of the digits is at most `PLID_MAX`.
unfoldable pub parse_player_id : Parser Bytes
unfolding parse_fixed_digit_string scan
parse_player_id = do
  plid ← parse_fixed_digit_string plid_len
  if ltb plid_max (scan plid 0).0 then refuse invalid_packet else yield plid

parse_colors : ℕ → Parser Bytes
parse_colors zero s = return ([], s)
parse_colors (suc n) s = (do next; c ← parse_color_char; cs ← parse_colors n; yield (c ∷ cs)) s

unfoldable pub parse_key : Parser Bytes
unfolding parse_colors
parse_key = parse_colors secret_key_len

-- `packetStream.unget()`.
unfoldable pub unget : Parser (Unit {0})
unget (stream [] s) = return (tt, stream [] s)
unget (stream (c ∷ past) s) = return (tt, stream past (c ∷ s))

-- `for (i = 0; i < n; ++i) stream << ' ' << key[i]`; past the end of a string stands its NUL.
unfoldable pub spaced : ℕ → Bytes → Bytes
spaced zero key = []
spaced (suc n) [] = b' ' ∷ 0 ∷ spaced n []
spaced (suc n) (c ∷ key) = b' ' ∷ c ∷ spaced n key
