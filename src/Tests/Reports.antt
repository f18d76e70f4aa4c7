-- ===== src/Tests/Reports.antt =====
-- Reports on sample files.
use rc.Base.{◌⊎◌, bytes_eq, ◌≡◌, refl, [], ◌∷◌, List, Bytes, codes, arith, All}
use rc.Exceptions.{return, throw, never_played}
use rc.Store.Reports.Parsed.{IsRecorded, game_of, report_hides_key}
use rc.Store.Reports.Sorted.{HasTxt, IsLatest, find_last_finished_game-IsLast}
use rc.Store.Reports.{
  GameStatus, report, find_last_finished_game, txt_files, bytes_lt, insert_file, sort_files, is_txt,
}
use rc.Tests.Games.{one, one_words}
use rc.Tests.Samples.{calendar, player, ybgr, game}

pub one-IsRecorded : All IsRecorded one
one-IsRecorded = (
  record {
    word = one_words.0;
    few_blacks = omega arith;
    few_whites = omega arith;
    elapsed = refl;
    short = omega arith;
  },
  tt,
)

report_hides_key_example :
    report player 1010 GameStatus.act (game_of calendar (game one))
    ≡ report player 1010 GameStatus.act (record (game_of calendar (game one)) {
      header = record ((game_of calendar (game one)).header) { key = ybgr };
    })
report_hides_key_example = report_hides_key player ybgr 1010 (game_of calendar (game one)) refl

abbrev directory : List (Bytes × Bytes)
directory =
    (codes "20250101_100000_W.txt", codes "a")
    ∷ (codes "20250102_090000_Q.txt", codes "b")
    ∷ (codes "notes", codes "c")
    ∷ (codes "20241231_235959_T.txt", codes "d")
    ∷ []

latest : find_last_finished_game directory ≡ return (codes "20250102_090000_Q.txt", codes "b")
unfolding find_last_finished_game txt_files sort_files insert_file bytes_lt is_txt bytes_eq
latest = refl

find_last_finished_game-IsLast_example :
    ((find_last_finished_game directory ≡ throw never_played) × All (λ g. ¬ HasTxt g.0) directory)
    ⊎ ((f : Bytes × Bytes) × (find_last_finished_game directory ≡ return f) × IsLatest directory f)
find_last_finished_game-IsLast_example = find_last_finished_game-IsLast directory
