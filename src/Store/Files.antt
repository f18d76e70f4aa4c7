-- ===== src/Store/Files.antt =====
-- server/GameStore.cpp: what the operations do to files, `endGame` and `saveGameScore` among it.
-- What `std::localtime` prints and which accesses to the disk succeed are arguments.
pub mod Scores
use rc.Base.{
  ℕ, zero, suc, ◌+◌, ◌-◌, ◌*◌, ◌/◌, ◌%◌, [], ◌∷◌, ◌++◌, ◌==◌, ltb, not, Bool, true, false, ◌&&◌,
  ◌||◌, if◌then◌else◌, Bytes, bytes_eq, List, Option, none, some, codes,
}
use rc.Base.Int.{ℤ, pos, negsuc, ltb_ℤ, ◌+ℤ◌, ◌-ℤ◌, sub_ℕ, scale, quotient, to_int}
use rc.Constants.{guesses_max, play_time_max, secret_key_len, valid_colors}
use rc.Exceptions.{
  Exception, Result, return, throw, db_filesystem, ongoing_game, uncontextualized_game,
  timedout_game, invalid_trial, duplicate_trial, exceeded_max_trials, undefined_behaviour,
}
use rc.Mastermind.{calculate_attempt}
use rc.Store.Records.{
  GameMode, Endings, Header, Seen, attempt_create, parse_header, parse_attempts, game_create,
  game_mode_to_repr, ending_to_repr, initial,
}
use rc.Store.{Store, Calendar, Disk, Op, ◌>>=◌, ◌>>◌, done, fail, require, update, put, game_fname}
use rc.Text.Decimal.{decimal}
use rc.Text.Words.{show_int}

-- `revealed_key` and the other references of a call: what the caller's variables hold. The
-- pointer of `checkTimedoutGame` is `real_key` in `attempt`, and null elsewhere.
pub record Refs : Type 0 where
  pub blacks : ℕ
  pub whites : ℕ
  pub real_key : Bytes

-- The state of a call: the files and the variables that it may set.
pub record Call : Type 0 where
  pub store : Store
  pub refs : Refs

abbrev pub get : Op Call Call
get c = (return c, c)

abbrev pub set_store : Store → Op Call (Unit {0})
set_store s c = (return tt, record c { store = s })

abbrev pub set_refs : Refs → Op Call (Unit {0})
set_refs r c = (return tt, record c { refs = r })

-- A call inside `try { … } catch (const std::exception&) { throw DBFilesystemError(); }`.
abbrev pub or_db : {A : Type 0} → Result A → Op Call A
or_db (return a) c = (return a, c)
or_db (throw e) c = (throw db_filesystem, c)

abbrev pub or_throw : {A : Type 0} → Result A → Op Call A
or_throw (return a) c = (return a, c)
or_throw (throw e) c = (throw e, c)

-- The contents of a file that is opened: `none` if it is not there.
abbrev pub opened : Option Bytes → Op Call Bytes
opened (some file) c = (return file, c)
opened none c = (throw db_filesystem, c)

-- What an appending stream leaves: it creates a missing file.
abbrev pub appended : Option Bytes → Bytes → Bytes
appended none text = text
appended (some file) text = file ++ text

module _ (cal : Calendar) (disk : Disk) where
  -- `file << text` on a stream opened with `std::ios::app`; one that failed to open writes nothing.
  unfoldable pub append_game : Bytes → Bytes → Op Call (Unit {0})
  append_game fname text c =
      if disk.writes
      then (
        return tt,
        record c {
          store = record (c.store) {
            games = update c.store.games fname (some (appended (c.store.games fname) text));
          };
        },
      )
      else (return tt, c)

  -- `fs::rename(game_path, finished_path)`, which writes over a file of that name.
  unfoldable pub rename_game : Bytes → Bytes → Bytes → Op Call (Unit {0})
  rename_game plid from to = do
    require disk.renames db_filesystem
    c ← get
    file ← opened (c.store.games from)
    set_store (record (c.store) {
      games = update c.store.games from none;
      finished = update c.store.finished plid (put to file (c.store.finished plid));
    })

  -- The name of a finished game's file.
  unfoldable pub finished_fname : ℕ → Endings → Bytes
  unfolding ending_to_repr
  finished_fname tstamp reason =
      cal.compact tstamp ++ (b'_' ∷ (initial (ending_to_repr reason) ++ codes ".txt"))

  -- The last line of a finished game's file.
  unfoldable pub ending_text : ℕ → ℤ → Endings → Bytes
  unfolding ending_to_repr
  ending_text tstamp used_time reason =
      cal.date tstamp
      ++ (b' '
          ∷ (cal.clock tstamp
              ++ (b' '
                  ∷ (show_int used_time
                      ++ (b' ' ∷ (initial (ending_to_repr reason) ++ b'\n' ∷ []))))))

  unfoldable pub end_game : Bytes → Endings → ℕ → ℤ → Op Call (Unit {0})
  end_game plid reason tstamp used_time = do
    append_game (game_fname plid) (ending_text tstamp used_time reason)
    rename_game plid (game_fname plid) (finished_fname tstamp reason)

  -- The score of a won game, in `int` arithmetic.
  unfoldable pub score : ℕ → ℤ → ℤ
  score used_atts used_time =
      pos 701
      +ℤ quotient (scale (sub_ℕ guesses_max (used_atts * used_atts)) 100) guesses_max
      +ℤ quotient (scale (pos play_time_max -ℤ used_time) 211) play_time_max

  unfoldable pub score_fname : ℤ → Bytes → ℕ → Bytes
  score_fname n plid tstamp =
      show_int n
      ++ (b'_'
          ∷ (plid ++ (b'_' ∷ (cal.date tstamp ++ (b'_' ∷ (cal.clock tstamp ++ codes ".txt"))))))

  unfoldable pub score_text : ℤ → Bytes → Bytes → ℕ → GameMode → Bytes
  unfolding game_mode_to_repr
  score_text n plid key used_atts mode =
      show_int n
      ++ (b' '
          ∷ (plid
              ++ (b' '
                  ∷ (key
                      ++ (b' '
                          ∷ (decimal used_atts
                              ++ (b' ' ∷ (initial (game_mode_to_repr mode) ++ b'\n' ∷ []))))))))

  unfoldable pub save_game_score : Bytes → Bytes → GameMode → ℕ → ℕ → ℤ → Op Call (Unit {0})
  save_game_score plid key mode tstamp used_atts used_time = do
    require disk.saves_score db_filesystem
    c ← get
    let n = score used_atts used_time
    set_store (record (c.store) {
      scores =
          put (score_fname n plid tstamp) (score_text n plid key used_atts mode) c.store.scores;
    })
