-- ===== src/Tests/Endings.antt =====
-- A game that is given up and reported, and a scoreboard with two games.
use mathlib.Core.List.{Permᴰ}
use rc.Base.{
  ℕ, ◌-◌, ◌++◌, ◌≡◌, refl, sym, subst, false, bytes_eq, [], ◌∷◌, List, Bytes, codes, arith, All,
}
use rc.Exceptions.{return}
use rc.Store.Games.Active.{working}
use rc.Store.Games.{quit_game}
use rc.Store.Records.{GameMode, Endings, is_attempt}
use rc.Store.Reports.Board.{Score, IsScore, files_of, board, get_scoreboard-board}
use rc.Store.Reports.Finished.{
  Outcome, IsDated, finished_text, finished_game, parse_game-finished_text,
}
use rc.Store.Reports.Latest.{quit_then_report}
use rc.Store.Reports.Sorted.{Descending}
use rc.Store.Reports.Scoreboard.{get_scoreboard, scoreboard_head}
use rc.Store.Reports.{GameStatus, parse_game, report, get_last_game, is_txt, ends_txt}
use rc.Constants.{scoreboard_max_entries}
use rc.Tests.Games.{one, one_words}
use rc.Tests.Reports.{one-IsRecorded}
use rc.Tests.Samples.{
  calendar, calendar-IsCalendar, player, rgby, game, game-IsActive, store_of, call_of,
}
use rc.Text.Decimal.{is_digit, IsDigit, decimal_cons}

digit-is_attempt : (c : ℕ) (s : Bytes) → IsDigit c → is_attempt (c ∷ s) ≡ false
unfolding is_digit is_attempt
digit-is_attempt c s h = ground (arith, h)

pub calendar-IsDated : IsDated calendar
calendar-IsDated t =
    let (c, s, e, h) = decimal_cons t in
    subst (λ x. is_attempt x ≡ false) (sym e) (digit-is_attempt c s h)

abbrev lost : Outcome
lost = record { reason = Endings.lost; tstamp = 1010; used_time = 10 }

parse_game-finished_text_example :
    parse_game (finished_text calendar (game one) lost)
    ≡ return (finished_game calendar (game one) lost)
parse_game-finished_text_example =
    parse_game-finished_text calendar calendar-IsCalendar calendar-IsDated (game one) lost
      (game-IsActive one one_words).session one-IsRecorded (omega arith)

quit_then_report_example :
    (text : Bytes) × (report player 5000 GameStatus.fin (
        finished_game calendar
          (game one)
          (record { reason = Endings.quit; tstamp = 1010; used_time = 1010 - 1000 }))
      ≡ return text)
    × (get_last_game calendar working player 5000
          (quit_game calendar working player 1010 (call_of (store_of (game one)))).1
        ≡ (
          return (GameStatus.fin, text),
          (quit_game calendar working player 1010 (call_of (store_of (game one)))).1,
        ))
quit_then_report_example =
    quit_then_report calendar calendar-IsCalendar calendar-IsDated (game one) 1010 5000
      (call_of (store_of (game one))) (game-IsActive one one_words) one-IsRecorded tt

abbrev won : Bytes → ℕ → Score
won name n = record {
  name = name;
  n = n;
  plid = player;
  key = rgby;
  used_atts = 8;
  mode = GameMode.play;
}

abbrev scores : List Score
scores = won (codes "150_a.txt") 150 ∷ won (codes "99_b.txt") 99 ∷ []

scores-IsScore : All IsScore scores
unfolding is_txt ends_txt bytes_eq
scores-IsScore =
    let session = (game-IsActive one one_words).session in
    (
      record {
        txt = refl;
        int_score = omega arith;
        plid_word = session.plid_word;
        key_word = session.key_word;
        few_atts = omega arith;
      },
      (
        record {
          txt = refl;
          int_score = omega arith;
          plid_word = session.plid_word;
          key_word = session.key_word;
          few_atts = omega arith;
        },
        tt,
      ),
    )

get_scoreboard-board_example :
    (top : List Score) × Permᴰ top scores
    × Descending (files_of calendar top)
    × (get_scoreboard (files_of calendar scores)
        ≡ return (scoreboard_head ++ board scoreboard_max_entries 0 top))
get_scoreboard-board_example = get_scoreboard-board calendar scores (λ e. cc) scores-IsScore
