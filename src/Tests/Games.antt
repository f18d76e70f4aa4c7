-- ===== src/Tests/Games.antt =====
-- The store's operations on sample games.
use rc.Base.{
  ℕ, ◌+◌, ◌-◌, ◌≡◌, refl, [], ◌∷◌, List, none, some, arith, All, ◌≤◌, ◌<◌, inl, true, bytes_eq,
}
use rc.Base.Int.{pos}
use rc.Exceptions.{
  return, throw, ongoing_game, uncontextualized_game, timedout_game, invalid_trial, duplicate_trial,
  exceeded_max_trials,
}
use rc.Mastermind.Pegs.{calculate_attempt-pegs, matches, common}
use rc.Mastermind.{calculate_attempt}
use rc.Store.Files.Scores.{score_bounds}
use rc.Store.Files.{score, Call}
use rc.Store.Games.Accepted.{
  attempt_accepted, attempt_won, attempt_exhausted, saved, pegs_set, scored, trial_of,
}
use rc.Store.Games.Active.{working, tried_once, ended}
use rc.Store.Games.Attempts.{attempt_invalid, attempt_duplicate, attempt_resend}
use rc.Store.Games.Created.{create_ongoing, create_same_second, new_session}
use rc.Store.Games.Ended.{too_late, timed_out, revealing}
use rc.Store.Games.{attempt, create_game, quit_game, choose_key}
use rc.Store.Records.Sessions.{Trial, session_text, header, trials_text, parse_header-session_text}
use rc.Store.Records.{GameMode, Endings, parse_header}
use rc.Tests.Samples.{
  calendar, calendar-IsCalendar, player, rgby, rgop, ybgr, rgby-IsKey, ybgr-IsKey, game, trial,
  no_store, store_of, call_of, call-Fresh, game-IsActive, game-IsActive_at_start, game-IsExpired,
}
use rc.Text.Words.Reads.{IsWord}
use rc.Text.Words.{is_space}

four_blacks : calculate_attempt rgby rgby 0 0 ≡ some (0, 4)
unfolding calculate_attempt
four_blacks = refl

two_blacks : calculate_attempt rgby rgop 0 0 ≡ some (0, 2)
unfolding calculate_attempt
two_blacks = refl

four_whites : calculate_attempt rgby ybgr 0 0 ≡ some (4, 0)
unfolding calculate_attempt
four_whites = refl

rgop-IsWord : IsWord rgop
unfolding is_space
rgop-IsWord = record { nonempty = λ e. cc; solid = (refl, (refl, (refl, (refl, tt)))) }

abbrev pub one : List Trial
one = trial rgop ∷ []

abbrev seven : List Trial
seven =
    trial rgop ∷ trial rgop ∷ trial rgop ∷ trial rgop ∷ trial rgop ∷ trial rgop ∷ trial rgop ∷ []

pub one_words : All (λ t. IsWord t.att) one
one_words = (rgop-IsWord, tt)

seven_words : All (λ t. IsWord t.att) seven
seven_words = (
  rgop-IsWord,
  (rgop-IsWord, (rgop-IsWord, (rgop-IsWord, (rgop-IsWord, (rgop-IsWord, one_words))))),
)

attempt_accepted_example :
    attempt calendar working player 1010 ybgr 2 (call_of (store_of (game one))) ≡ (
      return 2,
      record {
        store =
            saved calendar
              (tried_once (game one) (trial_of (game one) 1010 ybgr 4 0))
              (store_of (game one));
        refs = pegs_set 4 0 (call_of (store_of (game one))).refs;
      },
    )
unfolding bytes_eq
attempt_accepted_example =
    attempt_accepted calendar calendar-IsCalendar (game one) 1010 ybgr
      (call_of (store_of (game one))) (game-IsActive one one_words)
      (call-Fresh (store_of (game one))) refl 4 0 four_whites (λ e. cc) (omega arith)

attempt_exhausted_example :
    attempt calendar working player 1010 ybgr 8 (call_of (store_of (game seven))) ≡ (
      throw exceeded_max_trials,
      record {
        store =
            ended calendar player Endings.lost 1010
              (pos 10)
              (session_text calendar
                (tried_once (game seven) (trial_of (game seven) 1010 ybgr 4 0)))
              (store_of (game seven));
        refs = record { blacks = 0; whites = 4; real_key = rgby };
      },
    )
unfolding bytes_eq
attempt_exhausted_example =
    attempt_exhausted calendar calendar-IsCalendar (game seven) 1010 ybgr
      (call_of (store_of (game seven))) (game-IsActive seven seven_words)
      (call-Fresh (store_of (game seven))) refl 4 0 four_whites (λ e. cc) refl

attempt_won_example :
    attempt calendar working player 1010 rgby 8 (call_of (store_of (game seven))) ≡ (
      return 8,
      record {
        store = scored calendar (game seven) 1010 8 (
            ended calendar player Endings.win 1010
              (pos 10)
              (session_text calendar
                (tried_once (game seven) (trial_of (game seven) 1010 rgby 0 4)))
              (store_of (game seven)));
        refs = pegs_set 0 4 (call_of (store_of (game seven))).refs;
      },
    )
unfolding bytes_eq
attempt_won_example =
    attempt_won calendar calendar-IsCalendar (game seven) 1010 rgby
      (call_of (store_of (game seven))) (game-IsActive seven seven_words)
      (call-Fresh (store_of (game seven))) refl 0 4 four_blacks refl

attempt_resend_example :
    attempt calendar working player 1010 rgop 1 (call_of (store_of (game one))) ≡ (
      return 1,
      record (call_of (store_of (game one))) {
        refs = record { blacks = 2; whites = 0; real_key = [] };
      },
    )
attempt_resend_example =
    attempt_resend calendar calendar-IsCalendar (game one) 1010 rgop (call_of (store_of (game one)))
      (game-IsActive one one_words) 0 2 (call-Fresh (store_of (game one))) refl two_blacks

attempt_invalid_example :
    attempt calendar working player 1010 rgop 3 (call_of (store_of (game one)))
    ≡ (throw invalid_trial, call_of (store_of (game one)))
attempt_invalid_example =
    attempt_invalid calendar calendar-IsCalendar (game one) 1010 rgop
      (call_of (store_of (game one))) (game-IsActive one one_words) 3 (λ e. cc) (inl (λ e. cc))

attempt_duplicate_example :
    attempt calendar working player 1010 rgop 2 (call_of (store_of (game one)))
    ≡ (throw duplicate_trial, call_of (store_of (game one)))
unfolding bytes_eq
attempt_duplicate_example =
    attempt_duplicate calendar calendar-IsCalendar (game one) 1010 rgop
      (call_of (store_of (game one))) (game-IsActive one one_words) 2 refl refl

given_key : (d : Call) → choose_key (some ybgr) none d ≡ (return (ybgr, GameMode.debug), d)
unfolding choose_key
given_key d = refl

create_ongoing_example :
    create_game calendar working player 1010 60 (some ybgr) none (call_of (store_of (game one)))
    ≡ (throw ongoing_game, call_of (store_of (game one)))
create_ongoing_example =
    create_ongoing calendar calendar-IsCalendar (game one) 1010 60 (some ybgr) none
      (call_of (store_of (game one))) (game-IsActive one one_words) (omega arith)

create_same_second_example :
    create_game calendar working player 1000 60 (some ybgr) none (call_of (store_of (game []))) ≡ (
      return ybgr,
      record {
        store =
            saved calendar (new_session player 1000 60 ybgr GameMode.debug) (store_of (game []));
        refs = (call_of no_store).refs;
      },
    )
create_same_second_example =
    create_same_second calendar calendar-IsCalendar (game []) 1000 60 (some ybgr) none ybgr
      GameMode.debug (call_of (store_of (game []))) game-IsActive_at_start refl
      (given_key (call_of (store_of (game []))))

too_late_example :
    (attempt calendar working player 2000 ybgr 1 (call_of (store_of (game []))) ≡ (
      throw timedout_game,
      record {
        store = timed_out calendar (game []) 2000 (store_of (game []));
        refs = revealing true rgby (call_of no_store).refs;
      },
    ))
    × (quit_game calendar working player 2000 (call_of (store_of (game []))) ≡ (
      throw uncontextualized_game,
      record {
        store = timed_out calendar (game []) 2000 (store_of (game []));
        refs = (call_of no_store).refs;
      },
    ))
too_late_example =
    too_late calendar calendar-IsCalendar (game []) 2000 (call_of (store_of (game [])))
      game-IsExpired ybgr 1

calculate_attempt-pegs_example :
    (matches rgby ybgr ≤ common rgby ybgr)
    × (calculate_attempt rgby ybgr 0 0
        ≡ some (0 + (common rgby ybgr - matches rgby ybgr), 0 + matches rgby ybgr))
calculate_attempt-pegs_example = calculate_attempt-pegs rgby ybgr 0 0 rgby-IsKey ybgr-IsKey

score_bounds_example : (n : ℕ) × (score calendar working 3 (pos 45) ≡ pos n) × (0 < n) × (n ≤ 999)
score_bounds_example = score_bounds calendar 3 45 (omega arith) (omega arith) (omega arith)

parse_header-session_text_example :
    parse_header (session_text calendar (game one))
    ≡ (return (header calendar (game one)), trials_text one)
parse_header-session_text_example =
    parse_header-session_text calendar calendar-IsCalendar (game one)
      (game-IsActive one one_words).session
