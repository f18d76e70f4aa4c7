-- ===== src/Client/Input.antt =====
-- client/commands/udp_commands.cpp: what the client reads off the user's line behind the command.
pub mod Accepts
use rc.Base.{
  ℕ, zero, suc, ◌+◌, ◌-◌, ◌∷◌, [], ◌++◌, ◌==◌, ltb, leb, ◌&&◌, ◌||◌, Bytes, length, if◌then◌else◌,
  none, some,
}
use rc.Base.Int.{ℤ, pos, negsuc}
use rc.Constants.{plid_max, plid_len, play_time_max, secret_key_len, valid_colors}
use rc.Exceptions.{Result, return, throw, invalid_player_id, invalid_play_time, invalid_key}
use rc.Store.{Op, resume, ◌>>=◌, ◌>>◌, done, fail}
use rc.Text.Decimal.{decimal}
use rc.Text.Words.{In, read_int, read_char}
use rc.Udp.Parser.{has_byte}

-- `n` times the character.
unfoldable pub fill : ℕ → ℕ → Bytes
fill zero c = []
fill (suc n) c = c ∷ fill n c

-- `std::setw(width) << std::setfill('0') << n`.
unfoldable pub padded : ℕ → ℕ → Bytes
unfolding fill
padded width n = fill (width - length (decimal n)) b'0' ++ decimal n

unfoldable plid_of : ℤ × In → Result Bytes × In
unfolding padded
plid_of (n, none) = (throw invalid_player_id, none)
plid_of (negsuc n, some s) = (throw invalid_player_id, some s)
plid_of (pos n, some s) =
    if ltb plid_max n
    then (throw invalid_player_id, some s)
    else (return (padded plid_len n), some s)

unfoldable pub parse_player_id : Op In Bytes
unfolding plid_of
parse_player_id input = plid_of (read_int (negsuc 0) input)

-- `stream >> n` for a `short` that holds -1; a value for `int` outside of its range fails.
unfoldable to_short : ℤ × In → ℤ × In
to_short (n, none) = (n, none)
to_short (pos n, some s) = if ltb 32767 n then (pos 32767, none) else (pos n, some s)
to_short (negsuc n, some s) = if ltb 32767 n then (negsuc 32767, none) else (negsuc n, some s)

unfoldable pub read_short : ℤ → In → ℤ × In
unfolding to_short
read_short old input = to_short (read_int old input)

unfoldable time_of : ℤ × In → Result ℕ × In
time_of (n, none) = (throw invalid_play_time, none)
time_of (negsuc n, some s) = (throw invalid_play_time, some s)
time_of (pos n, some s) =
    if n == 0 || ltb play_time_max n then (throw invalid_play_time, some s) else (return n, some s)

unfoldable pub parse_play_time : Op In ℕ
unfolding time_of
parse_play_time input = time_of (read_short (negsuc 0) input)

-- `std::toupper` in the C locale.
unfoldable pub to_upper : ℕ → ℕ
to_upper c = if leb b'a' c && leb c b'z' then c - 32 else c

-- An extraction that fails here is one at the end of the stream.
unfoldable color_read : ℕ × In → Result ℕ × In
unfolding to_upper has_byte
color_read (c, none) = (throw invalid_key, none)
color_read (c, some s) =
    if has_byte (to_upper c) valid_colors
    then (return (to_upper c), some s)
    else (throw invalid_key, some s)

unfoldable pub read_color : Op In ℕ
unfolding color_read
read_color input = color_read (read_char 0 input)

unfoldable pub read_colors : ℕ → Op In Bytes
unfolding read_color
read_colors zero = done []
read_colors (suc n) = do c ← read_color; rest ← read_colors n; done (c ∷ rest)

unfoldable pub parse_key : Op In Bytes
unfolding read_colors
parse_key = read_colors secret_key_len
