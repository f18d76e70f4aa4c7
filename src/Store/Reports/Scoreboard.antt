-- ===== src/Store/Reports/Scoreboard.antt =====
-- server/GameStore.cpp: `LeaderboardEntry` and `getScoreboard`.
use rc.Base.{ℕ, zero, suc, ◌+◌, [], ◌∷◌, List, Bytes, some, codes}
use rc.Base.Int.{ℤ, pos}
use rc.Constants.{scoreboard_max_entries}
use rc.Exceptions.{
  Result, return, throw, after, db_filesystem, empty_scoreboard, undefined_behaviour,
}
use rc.Store.Records.{GameMode, char_to_game_mode, game_mode_to_repr}
use rc.Store.Reports.{txt_files, sort_files, concat}
use rc.Text.Decimal.{decimal}
use rc.Text.Words.{read_word, read_char, read_uint, read_int, show_int}

pub record LeaderboardEntry : Type 0 where
  pub score : ℤ
  pub plid : Bytes
  pub key : Bytes
  pub used_atts : ℕ
  pub mode : GameMode

abbrev entry_with : Result GameMode → (GameMode → LeaderboardEntry) → Result LeaderboardEntry
entry_with (return m) f = return (f m)
entry_with (throw e) f = throw e

-- `LeaderboardEntry::LeaderboardEntry`.
unfoldable pub leaderboard_entry : Bytes → Result LeaderboardEntry
leaderboard_entry file =
    let (score, s) = read_int (pos 0) (some file) in
    let (plid, s1) = read_word [] s in
    let (key, s2) = read_word [] s1 in
    let (used_atts, s3) = read_uint 0 s2 in
    let (mode_char, s4) = read_char 0 s3 in
    entry_with (char_to_game_mode mode_char)
      (λ m. record { score = score; plid = plid; key = key; used_atts = used_atts; mode = m })

unfoldable pub scoreboard_row : ℕ → LeaderboardEntry → Bytes
unfolding game_mode_to_repr
scoreboard_row i e = concat (
    codes "        "
    ∷ decimal (i + 1)
    ∷ codes "\t "
    ∷ show_int e.score
    ∷ codes "  "
    ∷ e.plid
    ∷ codes "     "
    ∷ e.key
    ∷ codes "        "
    ∷ decimal e.used_atts
    ∷ codes "       "
    ∷ game_mode_to_repr e.mode
    ∷ codes "\n"
    ∷ [])

abbrev pub row_then :
    Result LeaderboardEntry → (LeaderboardEntry → Bytes) → Result Bytes → Result Bytes
row_then (return e) f rest = after (f e) rest
row_then (throw x) f rest = throw x

-- The loop over the sorted files: `n` of them at most from the `i`-th on.
unfoldable pub scoreboard_rows : ℕ → ℕ → List (Bytes × Bytes) → Result Bytes
scoreboard_rows zero i files = return []
scoreboard_rows (suc n) i [] = return []
scoreboard_rows (suc n) i ((name, file) ∷ files) =
    let rest = scoreboard_rows n (i + 1) files in
    row_then (leaderboard_entry file) (scoreboard_row i) rest

unfoldable pub scoreboard_head : Bytes
scoreboard_head = concat (
    codes "\n----------------- Mastermind Leaderboard - TOP "
    ∷ decimal scoreboard_max_entries
    ∷ codes " -----------------\n\n"
    ∷ codes "        \tSCORE PLAYER     CODE    NO TRIALS   MODE\n\n"
    ∷ [])

-- Any exception but that of an empty scoreboard becomes one of the file system.
abbrev pub as_db : {A : Type 0} → Result A → Result A
as_db (return a) = return a
as_db (throw undefined_behaviour) = throw undefined_behaviour
as_db (throw e) = throw db_filesystem

abbrev scoreboard_of : List (Bytes × Bytes) → Result Bytes
scoreboard_of [] = throw empty_scoreboard
scoreboard_of files =
    as_db (after scoreboard_head (scoreboard_rows scoreboard_max_entries 0 (sort_files files)))

-- `getScoreboard` on the files of `SCORES`, all of which can be read.
unfoldable pub get_scoreboard : List (Bytes × Bytes) → Result Bytes
unfolding txt_files sort_files scoreboard_rows scoreboard_head
get_scoreboard files = scoreboard_of (txt_files files)
