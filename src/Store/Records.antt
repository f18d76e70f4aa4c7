-- ===== src/Store/Records.antt =====
-- server/GameStore.cpp: the text of a game file. A file has a header line, a line for each
-- attempt, and a last line once the game has ended.
pub mod Sessions
use rc.Base.{
  ℕ, zero, suc, ◌+◌, [], ◌∷◌, ◌++◌, ◌==◌, Bool, true, false, ◌||◌, if◌then◌else◌, Bytes, bytes_eq,
  List, none, some, codes,
}
use rc.Base.Int.{ℤ, pos}
use rc.Exceptions.{Result, return, throw, invalid_game_mode, invalid_ending}
use rc.Store.{Calendar}
use rc.Text.Decimal.{decimal}
use rc.Text.Words.{In, read_word, read_char, read_uint, read_int, show_int, take_line, lines}

pub data GameMode : Type 0 where
  play debug : GameMode

pub data Endings : Type 0 where
  win lost quit timeout : Endings

-- The default branches of these two have no enumerator left.
unfoldable pub game_mode_to_repr : GameMode → Bytes
game_mode_to_repr GameMode.play = codes "PLAY"
game_mode_to_repr GameMode.debug = codes "DEBUG"

unfoldable pub ending_to_repr : Endings → Bytes
ending_to_repr Endings.lost = codes "LOST"
ending_to_repr Endings.win = codes "WIN"
ending_to_repr Endings.quit = codes "QUIT"
ending_to_repr Endings.timeout = codes "TIMEOUT"

-- `repr[0]`.
abbrev pub initial : Bytes → Bytes
initial [] = 0 ∷ []
initial (c ∷ s) = c ∷ []

unfoldable pub char_to_game_mode : ℕ → Result GameMode
char_to_game_mode c =
    if c == b'P'
    then return GameMode.play
    else if c == b'D'
    then return GameMode.debug
    else throw invalid_game_mode

unfoldable pub char_to_ending : ℕ → Result Endings
char_to_ending c =
    if c == b'L'
    then return Endings.lost
    else if c == b'W'
    then return Endings.win
    else if c == b'Q'
    then return Endings.quit
    else if c == b'T'
    then return Endings.timeout
    else throw invalid_ending

pub record Attempt : Type 0 where
  pub att_key : Bytes
  pub blacks : ℕ
  pub whites : ℕ
  pub time : ℕ

-- `Attempt::Attempt`.
unfoldable pub attempt_of : Bytes → Attempt
attempt_of att =
    let (prefix, s) = read_word [] (some att) in
    let (key, s1) = read_word [] s in
    let (blacks, s2) = read_uint 0 s1 in
    let (whites, s3) = read_uint 0 s2 in
    let (time, s4) = read_uint 0 s3 in
    record { att_key = key; blacks = blacks; whites = whites; time = time }

-- `Attempt::create`, up to its newline.
unfoldable pub attempt_text : Bytes → ℕ → ℕ → ℤ → Bytes
attempt_text key blacks whites time =
    codes "T: "
    ++ (key ++ (b' ' ∷ (decimal blacks ++ (b' ' ∷ (decimal whites ++ (b' ' ∷ show_int time))))))

-- `Attempt::create`.
unfoldable pub attempt_create : Bytes → ℕ → ℕ → ℤ → Bytes
attempt_create key blacks whites time = attempt_text key blacks whites time ++ b'\n' ∷ []

-- The fields of `Game` that its header holds.
pub record Header : Type 0 where
  pub plid : Bytes
  pub mode : GameMode
  pub key : Bytes
  pub play_time : ℕ
  pub date_start : Bytes
  pub time_start : Bytes
  pub tstamp_start : ℤ

-- The mode is converted last.
abbrev with_mode : Result GameMode → (GameMode → Header) → Result Header
with_mode (return m) f = return (f m)
with_mode (throw e) f = throw e

-- `Game::parseHeader`, with the rest of the file. A number or a mode that the text does not hold
-- leaves its variable indeterminate in the source; here the variable is 0 then.
header_of : Bytes → Result Header
header_of line =
    let (plid, s) = read_word [] (some line) in
    let (mode_char, s1) = read_char 0 s in
    let (key, s2) = read_word [] s1 in
    let (play_time, s3) = read_uint 0 s2 in
    let (date_start, s4) = read_word [] s3 in
    let (time_start, s5) = read_word [] s4 in
    let (tstamp, s6) = read_int (pos 0) s5 in
    with_mode (char_to_game_mode mode_char) (λ m. record {
      plid = plid;
      mode = m;
      key = key;
      play_time = play_time;
      date_start = date_start;
      time_start = time_start;
      tstamp_start = tstamp;
    })

unfoldable pub parse_header : Bytes → Result Header × Bytes
unfolding header_of take_line
parse_header file = let (line, rest) = take_line file in (header_of line, rest)

-- The variables of the loop of `Game::parseAttempts`.
pub record Seen : Type 0 where
  pub atts : ℕ
  pub last_att : Bytes
  pub dup : Bool

-- `attempt_line[0] == 'T'`.
unfoldable pub is_attempt : Bytes → Bool
is_attempt [] = false
is_attempt (c ∷ s) = c == b'T'

unfoldable pub see_line : Bytes → Seen → Bytes → Seen
unfolding is_attempt
see_line key v line =
    if is_attempt line
    then record {
      atts = v.atts + 1;
      last_att = (attempt_of line).att_key;
      dup = bytes_eq key (attempt_of line).att_key || v.dup;
    }
    else v

unfoldable pub see_lines : Bytes → List Bytes → Seen → Seen
see_lines key [] v = v
see_lines key (l ∷ ls) v = see_lines key ls (see_line key v l)

-- `Game::parseAttempts` on what the header leaves of the file.
unfoldable pub parse_attempts : Bytes → Bytes → Seen
unfolding see_lines lines
parse_attempts file key =
    see_lines key (lines file) (record { atts = 0; last_att = []; dup = false })

-- `Game::create`, up to its newline.
unfoldable pub header_text : Calendar → Bytes → ℕ → GameMode → ℕ → Bytes → Bytes
unfolding game_mode_to_repr
header_text cal plid play_time mode tstamp key =
    plid
    ++ (b' '
        ∷ (initial (game_mode_to_repr mode)
            ++ (b' '
                ∷ (key
                    ++ (b' '
                        ∷ (decimal play_time
                            ++ (b' '
                                ∷ (cal.date tstamp
                                    ++ (b' '
                                        ∷ (cal.clock tstamp ++ (b' ' ∷ decimal tstamp)))))))))))

-- `Game::create`.
unfoldable pub game_create : Calendar → Bytes → ℕ → GameMode → ℕ → Bytes → Bytes
game_create cal plid play_time mode tstamp key =
    header_text cal plid play_time mode tstamp key ++ b'\n' ∷ []
