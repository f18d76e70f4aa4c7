-- ===== src/Store/Games.antt =====
-- server/GameStore.cpp: the operations on games. `now` is the time of the command, and what
-- `/dev/urandom` yields is an argument.
pub mod Active
pub mod Attempts
pub mod Accepted
pub mod Ended
pub mod Created
pub mod Invariant
pub mod Keys
pub mod Sound
pub mod Preserved
use rc.Base.{
  ℕ, zero, suc, ◌+◌, ◌-◌, ◌%◌, [], ◌∷◌, ◌==◌, ltb, not, Bool, true, false, ◌&&◌, ◌||◌,
  if◌then◌else◌, Bytes, bytes_eq, Option, none, some,
}
use rc.Base.Int.{ℤ, pos, negsuc, ltb_ℤ, ◌-ℤ◌, to_int}
use rc.Constants.{guesses_max, secret_key_len, valid_colors}
use rc.Exceptions.{
  Exception, Result, return, throw, db_filesystem, ongoing_game, uncontextualized_game,
  timedout_game, invalid_trial, duplicate_trial, exceeded_max_trials, undefined_behaviour,
}
use rc.Mastermind.{calculate_attempt}
use rc.Store.Files.{
  Refs, Call, get, set_store, set_refs, or_db, or_throw, opened, append_game, end_game,
  save_game_score,
}
use rc.Store.Records.{
  GameMode, Endings, Header, Seen, attempt_create, parse_header, parse_attempts, game_create,
}
use rc.Store.{Calendar, Disk, Op, resume, ◌>>=◌, ◌>>◌, done, fail, require, update, game_fname}

-- `*revealed_key = key`, unless the pointer is null.
abbrev pub reveal : Bool → Bytes → Op Call (Unit {0})
reveal true key c = (return tt, record c { refs = record (c.refs) { real_key = key } })
reveal false key c = (return tt, c)

-- `catch (const std::exception&) { throw DBFilesystemError(); }`.
abbrev pub caught : {A : Type 0} → Result A × Call → Result A × Call
caught (return a, c) = (return a, c)
caught (throw e, c) = (throw db_filesystem, c)

-- `key[i] = VALID_COLORS[byte % 6]`, over the bytes read.
unfoldable pub color_of : ℕ → Bytes → ℕ
color_of i [] = 0
color_of zero (c ∷ cs) = c
color_of (suc i) (c ∷ cs) = color_of i cs

unfoldable pub colors_of : Bytes → Bytes
unfolding color_of
colors_of [] = []
colors_of (b ∷ bs) = color_of (b % 6) valid_colors ∷ colors_of bs

-- `none` is a `/dev/urandom` that cannot be opened or read; else it yields four bytes.
unfoldable pub generate_key : Option Bytes → Op Call Bytes
unfolding colors_of
generate_key none = fail db_filesystem
generate_key (some bytes) = done (colors_of bytes)

unfoldable pub choose_key : Option Bytes → Option Bytes → Op Call (Bytes × GameMode)
unfolding generate_key
choose_key none entropy = do key ← generate_key entropy; done (key, GameMode.play)
choose_key (some key) entropy = done (key, GameMode.debug)

-- `calculateAttempt(game.key, att, whites, blacks)` on the caller's variables.
unfoldable pub set_pegs : Option (ℕ × ℕ) → Op Call (Unit {0})
set_pegs none = fail undefined_behaviour
set_pegs (some (whites, blacks)) =
    λ c. (return tt, record c { refs = record (c.refs) { whites = whites; blacks = blacks } })

unfoldable pub pegs : Bytes → Bytes → Op Call (Unit {0})
pegs key att = do c ← get; set_pegs (calculate_attempt key att c.refs.whites c.refs.blacks)

module _ (cal : Calendar) (disk : Disk) where
  -- The end of `checkTimedoutGame`: the elapsed time is compared with the playing time.
  unfoldable pub expire : Bool → Bytes → ℕ → Header → ℤ → Op Call ℤ
  expire revealed plid now h elapsed =
      if ltb_ℤ elapsed (to_int h.play_time) then done elapsed else (do
        reveal revealed h.key
        end_game cal disk plid Endings.timeout (now + h.play_time) (to_int h.play_time)
        done (negsuc 1))

  unfoldable pub check_file : Bool → Bytes → ℕ → Option Bytes → Op Call ℤ
  unfolding expire
  check_file revealed plid now none = done (negsuc 0)
  check_file revealed plid now (some file) = do
    require disk.reads db_filesystem
    λ c. caught (
        (do
          h ← or_throw (parse_header file).0
          expire revealed plid now h (to_int now -ℤ h.tstamp_start))
          c)

  -- -1: no active game; -2: the game has just timed out; else the elapsed seconds.
  unfoldable pub check_timedout_game : Bool → Bytes → ℕ → Op Call ℤ
  unfolding check_file
  check_timedout_game revealed plid now = do
    c ← get
    check_file revealed plid now (c.store.games (game_fname plid))

  -- `key` is given for a debug game, and null else.
  unfoldable pub create_game : Bytes → ℕ → ℕ → Option Bytes → Option Bytes → Op Call Bytes
  create_game plid now play_time key entropy = do
    code ← check_timedout_game false plid now
    if ltb_ℤ (pos 0) code then fail ongoing_game else (do
      chosen ← choose_key key entropy
      require disk.writes db_filesystem
      c ← get
      set_store (record (c.store) {
        games =
            update c.store.games (game_fname plid)
              (some (game_create cal plid play_time chosen.1 now chosen.0));
      })
      done chosen.0)

  unfoldable pub quit_game : Bytes → ℕ → Op Call Bytes
  quit_game plid now = do
    code ← check_timedout_game false plid now
    if ltb_ℤ code (pos 0) then fail uncontextualized_game else (do
      c ← get
      require disk.reads db_filesystem
      file ← opened (c.store.games (game_fname plid))
      h ← or_throw (parse_header file).0
      require disk.writes db_filesystem
      end_game cal disk plid Endings.quit now (pos now -ℤ h.tstamp_start)
      done h.key)

  -- The codes of `checkTimedoutGame` that end an attempt.
  unfoldable pub refuse_code : ℤ → Op Call (Unit {0})
  refuse_code (negsuc zero) = fail uncontextualized_game
  refuse_code (negsuc (suc zero)) = fail timedout_game
  refuse_code _ = done tt

  -- The end of `attempt`: what the pegs of the new attempt decide.
  unfoldable pub settle : Bytes → ℕ → Header → ℕ → ℤ → ℕ → Op Call ℕ
  settle plid now h num used_time blacks =
      if num == guesses_max - 1 && not (blacks == secret_key_len)
      then (do
        end_game cal disk plid Endings.lost now used_time
        reveal true h.key
        fail exceeded_max_trials)
      else if blacks == secret_key_len
      then (do
        end_game cal disk plid Endings.win now used_time
        save_game_score cal disk plid h.key h.mode now (num + 1) used_time
        done (num + 1))
      else done (num + 1)

  -- A new attempt is written to the game's file, with the pegs that the variables hold.
  unfoldable pub write_attempt : Bytes → ℕ → Bytes → Header → ℕ → Op Call ℕ
  write_attempt plid now att h num c =
      resume
        (append_game cal disk (game_fname plid)
          (attempt_create att c.refs.blacks c.refs.whites (pos now -ℤ h.tstamp_start)) c)
        (λ _. settle plid now h num (pos now -ℤ h.tstamp_start) c.refs.blacks)

  unfoldable pub register : Bytes → ℕ → Bytes → Header → ℕ → Op Call ℕ
  register plid now att h num = do pegs h.key att; write_attempt plid now att h num

  -- The middle of `attempt`: the trial number and the key against what the file holds.
  unfoldable pub answer : Bytes → ℕ → Bytes → ℕ → Header → Seen → Op Call ℕ
  answer plid now att trial h seen =
      if trial == seen.atts && bytes_eq att seen.last_att
      then (do pegs h.key att; done seen.atts)
      else if trial == seen.atts && not (bytes_eq att seen.last_att) || not (trial == seen.atts + 1)
      then fail invalid_trial
      else if trial == seen.atts + 1 && seen.dup
      then fail duplicate_trial
      else register plid now att h seen.atts

  unfoldable pub attempt : Bytes → ℕ → Bytes → ℕ → Op Call ℕ
  attempt plid now att trial = do
    code ← check_timedout_game true plid now
    refuse_code code
    c ← get
    require disk.reads db_filesystem
    file ← opened (c.store.games (game_fname plid))
    h ← or_db (parse_header file).0
    answer plid now att trial h (parse_attempts (parse_header file).1 att)
