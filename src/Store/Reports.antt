-- ===== src/Store/Reports.antt =====
-- server/GameStore.cpp: what is read back for a client, the last game of a player here.
pub mod Sorted
pub mod Parsed
pub mod Finished
pub mod Latest
pub mod Scoreboard
pub mod Board
use rc.Base.{
  ℕ, zero, suc, ◌+◌, ◌<◌, [], ◌∷◌, ◌++◌, ◌==◌, ltb, Bool, true, false, ◌&&◌, ◌||◌, not, List, Bytes,
  Option, none, some, codes, if◌then◌else◌, length, bytes_eq,
}
use rc.Base.Int.{ℤ, pos, negsuc, ltb_ℤ, ◌-ℤ◌}
use rc.Constants.{scoreboard_max_entries}
use rc.Exceptions.{
  Exception, Result, return, throw, after, db_filesystem, never_played, empty_scoreboard,
  undefined_behaviour,
}
use rc.Store.Files.{Call, get, opened, or_throw}
use rc.Store.Games.{check_timedout_game, caught}
use rc.Store.Records.{
  GameMode, Endings, Attempt, Header, attempt_of, parse_header, is_attempt, char_to_ending,
  char_to_game_mode, game_mode_to_repr, ending_to_repr,
}
use rc.Store.{Calendar, Disk, Op, resume, ◌>>=◌, ◌>>◌, done, fail, require, game_fname}
use rc.Text.Decimal.{decimal}
use rc.Text.Words.{In, read_word, read_char, read_uint, read_int, show_int, lines}

-- `a < b` for strings: byte by byte.
unfoldable pub bytes_lt : Bytes → Bytes → Bool
bytes_lt [] [] = false
bytes_lt [] (y ∷ b) = true
bytes_lt (x ∷ a) [] = false
bytes_lt (x ∷ a) (y ∷ b) = ltb x y || (x == y && bytes_lt a b)

-- The last line of a finished game's file. The ending is `none` where no such line was read; the
-- variable is indeterminate then.
pub record Finish : Type 0 where
  pub date_end : Bytes
  pub time_end : Bytes
  pub used_time : ℕ
  pub ending : Option Endings

pub record Game : Type 0 where
  pub header : Header
  pub attempts : List Attempt
  pub finish : Finish

abbrev with_ending : Result Endings → (Endings → Game) → Result Game
with_ending (return e) f = return (f e)
with_ending (throw x) f = throw x

-- A line of the file behind the header.
unfoldable pub parse_line : Game → Bytes → Result Game
unfolding is_attempt
parse_line g line =
    if is_attempt line
    then return (record g { attempts = g.attempts ++ attempt_of line ∷ [] })
    else (let (date_end, s) = read_word g.finish.date_end (some line) in
        let (time_end, s1) = read_word g.finish.time_end s in
        let (used_time, s2) = read_uint g.finish.used_time s1 in
        let (mode_char, s3) = read_char 0 s2 in
        with_ending (char_to_ending mode_char) (λ e. record g {
          finish = record {
            date_end = date_end;
            time_end = time_end;
            used_time = used_time;
            ending = some e;
          };
        }))

abbrev pub then_lines : Result Game → (Game → Result Game) → Result Game
then_lines (return g) f = f g
then_lines (throw e) f = throw e

unfoldable pub parse_lines : Game → List Bytes → Result Game
parse_lines g [] = return g
parse_lines g (l ∷ ls) = then_lines (parse_line g l) (λ h. parse_lines h ls)

abbrev pub no_finish : Finish
no_finish = record { date_end = []; time_end = []; used_time = 0; ending = none }

abbrev pub then_header : Result Header → (Header → Result Game) → Result Game
then_header (return h) f = f h
then_header (throw e) f = throw e

-- `Game::parseGame`.
unfoldable pub parse_game : Bytes → Result Game
parse_game file = then_header (parse_header file).0 (λ h.
    parse_lines (record { header = h; attempts = []; finish = no_finish })
      (lines (parse_header file).1))

-- `path.extension() == ".txt"`: a dot at the front is no extension.
unfoldable pub ends_txt : Bytes → Bool
unfolding bytes_eq
ends_txt [] = false
ends_txt (c ∷ name) = bytes_eq (c ∷ name) (codes ".txt") || ends_txt name

unfoldable pub is_txt : Bytes → Bool
unfolding ends_txt
is_txt [] = false
is_txt (c ∷ name) = ends_txt name

unfoldable pub txt_files : List (Bytes × Bytes) → List (Bytes × Bytes)
unfolding is_txt
txt_files [] = []
txt_files ((name, file) ∷ files) =
    if is_txt name then (name, file) ∷ txt_files files else txt_files files

-- `std::sort` by name with `std::greater`; the names of a directory differ, so that its result is
-- the only one.
unfoldable pub insert_file : Bytes × Bytes → List (Bytes × Bytes) → List (Bytes × Bytes)
unfolding bytes_lt
insert_file f [] = f ∷ []
insert_file f (g ∷ files) = if bytes_lt f.0 g.0 then g ∷ insert_file f files else f ∷ g ∷ files

unfoldable pub sort_files : List (Bytes × Bytes) → List (Bytes × Bytes)
unfolding insert_file
sort_files [] = []
sort_files (f ∷ files) = insert_file f (sort_files files)

abbrev pub first_file : List (Bytes × Bytes) → Result (Bytes × Bytes)
first_file [] = throw never_played
first_file (f ∷ files) = return f

-- The name of the last finished game, with its contents.
unfoldable pub find_last_finished_game : List (Bytes × Bytes) → Result (Bytes × Bytes)
find_last_finished_game files = first_file (sort_files (txt_files files))

abbrev pub concat : List Bytes → Bytes
concat [] = []
concat (s ∷ ss) = s ++ concat ss

pub data GameStatus : Type 0 where
  fin act : GameStatus

-- The text up to the first attempt.
unfoldable pub report_head : Bytes → GameStatus → Header → Bytes
unfolding game_mode_to_repr
report_head plid status h = concat (
    codes "\nPlayer: "
    ∷ plid
    ∷ codes " | Mode: "
    ∷ game_mode_to_repr h.mode
    ∷ codes "\nStatus: "
    ∷ secret status h.mode
    ∷ codes "Game initiated: "
    ∷ h.date_start
    ∷ codes " "
    ∷ h.time_start
    ∷ codes " with "
    ∷ decimal h.play_time
    ∷ codes "s to be completed\n"
    ∷ [])
  where
    secret : GameStatus → GameMode → Bytes
    secret GameStatus.act GameMode.debug =
        concat (codes "Active | Secret code: " ∷ h.key ∷ codes "\n" ∷ [])
    secret GameStatus.act GameMode.play = codes "Active | Secret code: ????\n"
    secret GameStatus.fin m = concat (codes "Finished | Secret code: " ∷ h.key ∷ codes "\n" ∷ [])

unfoldable pub report_attempts : List Attempt → Bytes
report_attempts [] = []
report_attempts (a ∷ atts) = concat (
    codes "    Trial: "
    ∷ a.att_key
    ∷ codes " | nB: "
    ∷ decimal a.blacks
    ∷ codes " | nW: "
    ∷ decimal a.whites
    ∷ codes " at "
    ∷ decimal a.time
    ∷ codes "s\n"
    ∷ report_attempts atts
    ∷ [])

unfoldable pub report_count : List Attempt → Bytes
report_count [] = codes "\n    --- No transactions found ---\n\n"
report_count (a ∷ atts) =
    concat
      (codes "\n    --- Transactions found: " ∷ decimal (length (a ∷ atts)) ∷ codes " ---\n\n" ∷ [])

-- The text behind the attempts.
unfoldable pub report_end : ℕ → GameStatus → Game → Result Bytes
unfolding ending_to_repr
report_end now GameStatus.act g = return (
    concat (
      codes "\n    --- "
      ∷ show_int (pos g.header.play_time -ℤ (pos now -ℤ g.header.tstamp_start))
      ∷ codes " seconds remaining ---\n"
      ∷ []))
report_end now GameStatus.fin g = ended g.finish.ending
  where
    ended : Option Endings → Result Bytes
    ended none = throw undefined_behaviour
    ended (some e) = return (
        concat (
          codes "\nGame terminated: "
          ∷ ending_to_repr e
          ∷ codes " at "
          ∷ g.finish.date_end
          ∷ codes " "
          ∷ g.finish.time_end
          ∷ codes "\nDuration: "
          ∷ decimal g.finish.used_time
          ∷ codes " seconds\n"
          ∷ []))

unfoldable pub report : Bytes → ℕ → GameStatus → Game → Result Bytes
report plid now status g =
    after
      (report_head plid status g.header ++ (report_count g.attempts ++ report_attempts g.attempts))
      (report_end now status g)

module _ (cal : Calendar) (disk : Disk) where
  -- Which file is read, and whether its game is active.
  unfoldable pub last_file : Bytes → ℕ → Op Call (GameStatus × Bytes)
  last_file plid now = do
    code ← check_timedout_game cal disk false plid now
    c ← get
    if ltb_ℤ code (pos 0)
        then (do
          found ← or_throw (find_last_finished_game (c.store.finished plid))
          require disk.reads db_filesystem
          done (GameStatus.fin, found.1))
        else (do
          require disk.reads db_filesystem
          file ← opened (c.store.games (game_fname plid))
          done (GameStatus.act, file))

  unfoldable pub get_last_game : Bytes → ℕ → Op Call (GameStatus × Bytes)
  get_last_game plid now = do
    found ← last_file plid now
    g ← λ c. caught (or_throw (parse_game found.1) c)
    text ← or_throw (report plid now found.0 g)
    done (found.0, text)
