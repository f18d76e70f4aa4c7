-- ===== src/Store/Games/Accepted.antt =====
-- `attempt` with a new key: the attempt is written down, and the game goes on or ends.
use rc.Base.{
  ℕ, ◌+◌, ◌-◌, ◌≤◌, ◌<◌, ◌==◌, not, ◌&&◌, true, false, ◌++◌, ◌≡◌, ◌≢◌, refl, ap, ◌∙◌, arith, Bytes,
  none, some, length,
}
use rc.Base.Int.{pos, ◌-ℤ◌}
use rc.Constants.{guesses_max, secret_key_len}
use rc.Exceptions.{return, throw, exceeded_max_trials}
use rc.Mastermind.{calculate_attempt}
use rc.Store.Files.{Refs, Call, save_game_score, score, score_fname, score_text, end_game}
use rc.Store.Games.Active.{
  working, update-update, update_self, tried, tried_once, session_text-tried_once, IsActive, ended,
  append_game_lem, end_game_lem,
}
use rc.Store.Games.Attempts.{Fresh, attempt-answer, answer-register, pegs_lem}
use rc.Store.Games.{settle, write_attempt, register, attempt}
use rc.Store.Records.Sessions.{Trial, Session, session_text, IsCalendar, header}
use rc.Store.Records.{Endings, attempt_create}
use rc.Store.{Store, Calendar, resume, update, put, game_fname}

-- The new attempt, as the game's file records it.
abbrev pub trial_of : Session → ℕ → Bytes → ℕ → ℕ → Trial
trial_of g now att w b = record { att = att; blacks = b; whites = w; time = pos (now - g.start) }

-- The files with the active game of its player replaced.
abbrev pub saved : Calendar → Session → Store → Store
saved cal g s = record s { games = update s.games (game_fname g.plid) (some (session_text cal g)) }

abbrev pub pegs_set : ℕ → ℕ → Refs → Refs
pegs_set w b r = record { blacks = b; whites = w; real_key = r.real_key }

-- The files once a score has been written.
abbrev pub scored : Calendar → Session → ℕ → ℕ → Store → Store
scored cal g now atts s =
    let n = score cal working atts (pos (now - g.start)) in
    record s {
      scores =
          put (score_fname cal working n g.plid now)
            (score_text cal working n g.plid g.key atts g.mode) s.scores;
    }

pub sub_ℤ-le : (now start : ℕ) → start ≤ now → pos now -ℤ pos start ≡ pos (now - start)
sub_ℤ-le now start h = ground arith

last_lem : (n : ℕ) → n + 1 ≡ guesses_max → (n == guesses_max - 1) ≡ true
last_lem n e = ground arith

not_equal : (m n : ℕ) → m ≢ n → (m == n) ≡ false
not_equal m n h = ground arith

equal : (m n : ℕ) → m ≡ n → (m == n) ≡ true
equal m n h = ground arith

no_loss :
    (n b : ℕ) → b ≡ secret_key_len → (n == guesses_max - 1 && not (b == secret_key_len)) ≡ false
no_loss n b h = ground arith

module _ (cal : Calendar) (ok_cal : IsCalendar cal) (g : Session) (now : ℕ) (att : Bytes) (c : Call)
    (active : IsActive cal g now c.store) (fresh : Fresh c.refs) (new : tried att g.trials ≡ false)
    (w b : ℕ) (feedback : calculate_attempt g.key att 0 0 ≡ some (w, b)) where
  abbrev pub next_game : Session
  next_game = tried_once g (trial_of g now att w b)

  abbrev pub written : Call
  written = record { store = saved cal next_game c.store; refs = pegs_set w b c.refs }

  write_attempt-settle :
      write_attempt cal working g.plid now att
        (header cal g)
        (length g.trials)
        (record c { refs = pegs_set w b c.refs })
      ≡ settle cal working g.plid now
          (header cal g)
          (length g.trials)
          (pos (now - g.start))
          b
          written
  unfolding write_attempt
  write_attempt-settle =
      ap
        (λ r. resume r (λ _.
          settle cal working g.plid now (header cal g) (length g.trials) (pos now -ℤ pos g.start)
            b))
        (append_game_lem cal (game_fname g.plid) (attempt_create att b w (pos now -ℤ pos g.start))
          (session_text cal g) (record c { refs = pegs_set w b c.refs }) active.file)
      ∙ ap
          (λ n. settle cal working g.plid now (header cal g) (length g.trials) n b (record {
            store = record (c.store) {
              games =
                  update c.store.games (game_fname g.plid)
                    (some (session_text cal g ++ attempt_create att b w n));
            };
            refs = pegs_set w b c.refs;
          }))
          (sub_ℤ-le now g.start active.begun)
      ∙ ap
          (λ text.
            settle cal working g.plid now (header cal g) (length g.trials) (pos (now - g.start)) b
              (record {
                store = record (c.store) {
                  games = update c.store.games (game_fname g.plid) (some text);
                };
                refs = pegs_set w b c.refs;
              }))
          (session_text-tried_once cal g (trial_of g now att w b))

  register-settle :
      register cal working g.plid now att (header cal g) (length g.trials) c
      ≡ settle cal working g.plid now
          (header cal g)
          (length g.trials)
          (pos (now - g.start))
          b
          written
  unfolding register
  register-settle =
      ap
        (λ r.
          resume r (λ _. write_attempt cal working g.plid now att (header cal g) (length g.trials)))
        (pegs_lem cal now att g c w b fresh feedback)
      ∙ write_attempt-settle

  attempt-settle :
      attempt cal working g.plid now att (length g.trials + 1) c
      ≡ settle cal working g.plid now
          (header cal g)
          (length g.trials)
          (pos (now - g.start))
          b
          written
  attempt-settle =
      attempt-answer cal ok_cal g now att c active (length g.trials + 1)
      ∙ answer-register cal now att g c (length g.trials + 1) refl new
      ∙ register-settle

  ended-written :
      (reason : Endings)
      → end_game cal working g.plid reason now (pos (now - g.start)) written ≡ (
        return tt,
        record {
          store =
              ended cal g.plid reason now
                (pos (now - g.start))
                (session_text cal next_game)
                c.store;
          refs = pegs_set w b c.refs;
        },
      )
  ended-written reason =
      end_game_lem cal g.plid (session_text cal next_game) reason now (pos (now - g.start)) written
        (update_self c.store.games (game_fname g.plid) (some (session_text cal next_game)))
      ∙ ap
          (λ u. (
            return tt,
            record {
              store = record {
                games = u;
                finished =
                    (ended cal g.plid reason now (pos (now - g.start)) (session_text cal next_game)
                      c.store).finished;
                scores = c.store.scores;
              };
              refs = pegs_set w b c.refs;
            },
          ))
          (update-update c.store.games (game_fname g.plid) (some (session_text cal next_game)) none)

  settle-goes_on :
      b ≢ secret_key_len
      → length g.trials + 1 < guesses_max
      → settle cal working g.plid now
          (header cal g)
          (length g.trials)
          (pos (now - g.start))
          b
          written
        ≡ (return (length g.trials + 1), written)
  unfolding settle
  settle-goes_on wrong room = ground arith

  settle-lost :
      b ≢ secret_key_len
      → length g.trials + 1 ≡ guesses_max
      → settle cal working g.plid now
          (header cal g)
          (length g.trials)
          (pos (now - g.start))
          b
          written
        ≡ (
          throw exceeded_max_trials,
          record {
            store =
                ended cal g.plid Endings.lost now
                  (pos (now - g.start))
                  (session_text cal next_game)
                  c.store;
            refs = record { blacks = b; whites = w; real_key = g.key };
          },
        )
  unfolding settle
  settle-lost wrong last = rw (
    last_lem (length g.trials) last,
    not_equal b secret_key_len wrong,
    ended-written Endings.lost,
  )

  settle-won :
      b ≡ secret_key_len
      → settle cal working g.plid now
          (header cal g)
          (length g.trials)
          (pos (now - g.start))
          b
          written
        ≡ (
          return (length g.trials + 1),
          record {
            store = scored cal g now (length g.trials + 1) (
                ended cal g.plid Endings.win now
                  (pos (now - g.start))
                  (session_text cal next_game)
                  c.store);
            refs = pegs_set w b c.refs;
          },
        )
  unfolding settle save_game_score
  settle-won right =
      rw
        (no_loss (length g.trials) b right, equal b secret_key_len right, ended-written Endings.win)

  -- In an active game, on a disk that works: an attempt with the next number and a new key that is
  -- not the secret key, before the last one allowed, returns its number, leaves its pegs in the
  -- caller's variables, and the game's file is that of the game with this attempt added. No other
  -- file changes.
  pub attempt_accepted :
      b ≢ secret_key_len
      → length g.trials + 1 < guesses_max
      → attempt cal working g.plid now att (length g.trials + 1) c ≡ (
        return (length g.trials + 1),
        record { store = saved cal next_game c.store; refs = pegs_set w b c.refs },
      )
  attempt_accepted wrong room = attempt-settle ∙ settle-goes_on wrong room

  -- In an active game, on a disk that works: the last attempt allowed, with a new key that is not
  -- the secret key, ends the game as lost. The caller learns the secret key and the pegs, and the
  -- file, with the attempt and a last line added, moves to the player's finished games.
  pub attempt_exhausted :
      b ≢ secret_key_len
      → length g.trials + 1 ≡ guesses_max
      → attempt cal working g.plid now att (length g.trials + 1) c ≡ (
        throw exceeded_max_trials,
        record {
          store =
              ended cal g.plid Endings.lost now
                (pos (now - g.start))
                (session_text cal next_game)
                c.store;
          refs = record { blacks = b; whites = w; real_key = g.key };
        },
      )
  attempt_exhausted wrong last = attempt-settle ∙ settle-lost wrong last

  -- In an active game, on a disk that works: an attempt with the next number that matches the
  -- secret key and was not tried before wins, be it the last one allowed or not. Its number is
  -- returned, the file, with the attempt and a last line added, moves to the player's finished
  -- games, and a score is written.
  pub attempt_won :
      b ≡ secret_key_len
      → attempt cal working g.plid now att (length g.trials + 1) c ≡ (
        return (length g.trials + 1),
        record {
          store = scored cal g now (length g.trials + 1) (
              ended cal g.plid Endings.win now
                (pos (now - g.start))
                (session_text cal next_game)
                c.store);
          refs = pegs_set w b c.refs;
        },
      )
  attempt_won right = attempt-settle ∙ settle-won right
