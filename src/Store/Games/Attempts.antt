-- ===== src/Store/Games/Attempts.antt =====
-- `attempt` on an active game, branch by branch.
use rc.Base.{
  ℕ, ◌+◌, ◌==◌, true, false, [], ◌≡◌, ◌≢◌, ◌∙◌, arith, Bytes, bytes_eq_iff, some, length, ◌⊎◌,
}
use rc.Exceptions.{return, throw, invalid_trial, duplicate_trial}
use rc.Mastermind.{calculate_attempt}
use rc.Store.Files.{Refs, Call}
use rc.Store.Games.Active.{working, last_att, tried, see_trials_lem, IsActive, check_active}
use rc.Store.Games.{refuse_code, pegs, set_pegs, register, answer, attempt}
use rc.Store.Records.Sessions.{
  Session, trials_text, session_text, IsCalendar, header, parse_header-session_text,
  parse_attempts-trials_text, see_trials, nothing_seen,
}
use rc.Store.Records.{Seen, parse_header}
use rc.Store.{Calendar}

-- What the file of a game tells about a new attempt.
abbrev pub seen : Bytes → Session → Seen
seen att g = record {
  atts = length g.trials;
  last_att = last_att [] g.trials;
  dup = tried att g.trials;
}

-- The variables that a call starts with.
pub record Fresh (r : Refs) : Type 0 where
  pub blacks_zero : r.blacks ≡ 0
  pub whites_zero : r.whites ≡ 0

seen_lem : (att : Bytes) (g : Session) → see_trials att g.trials nothing_seen ≡ seen att g
seen_lem att g = see_trials_lem att g.trials nothing_seen ∙ ground arith

not_this : (t n : ℕ) → t ≡ n + 1 → (t == n) ≡ false
not_this t n e = ground arith

is_next : (t n : ℕ) → t ≡ n + 1 → (t == n + 1) ≡ true
is_next t n e = ground arith

eq_refl : (n : ℕ) → (n == n) ≡ true
eq_refl n = ground arith

module _ (cal : Calendar) (now : ℕ) (att : Bytes) (g : Session) (c : Call) where
  pub pegs_lem :
      (w b : ℕ)
      → Fresh c.refs
      → calculate_attempt g.key att 0 0 ≡ some (w, b)
      → pegs g.key att c ≡ (
        return tt,
        record c { refs = record { blacks = b; whites = w; real_key = c.refs.real_key } },
      )
  unfolding pegs set_pegs
  pegs_lem w b fresh feedback = rw (fresh.blacks_zero, fresh.whites_zero, feedback)

  answer_resend :
      (w b : ℕ)
      → Fresh c.refs
      → att ≡ last_att [] g.trials
      → calculate_attempt g.key att 0 0 ≡ some (w, b)
      → answer cal working g.plid now att (length g.trials) (header cal g) (seen att g) c ≡ (
        return (length g.trials),
        record c { refs = record { blacks = b; whites = w; real_key = c.refs.real_key } },
      )
  unfolding answer
  answer_resend w b fresh same feedback = rw (
    eq_refl (length g.trials),
    (bytes_eq_iff att (last_att [] g.trials)).1 same,
    pegs_lem w b fresh feedback,
  )

  answer_invalid :
      (trial : ℕ)
      → trial ≢ length g.trials + 1
      → (trial ≢ length g.trials) ⊎ (att ≢ last_att [] g.trials)
      → answer cal working g.plid now att trial (header cal g) (seen att g) c
        ≡ (throw invalid_trial, c)
  unfolding answer
  answer_invalid trial other wrong = ground (arith, bytes_eq_iff att (last_att [] g.trials))

  answer_duplicate :
      (trial : ℕ)
      → trial ≡ length g.trials + 1
      → tried att g.trials ≡ true
      → answer cal working g.plid now att trial (header cal g) (seen att g) c
        ≡ (throw duplicate_trial, c)
  unfolding answer
  answer_duplicate trial e again = rw (not_this _ _ e, is_next _ _ e, again)

  pub answer-register :
      (trial : ℕ)
      → trial ≡ length g.trials + 1
      → tried att g.trials ≡ false
      → answer cal working g.plid now att trial (header cal g) (seen att g) c
        ≡ register cal working g.plid now att (header cal g) (length g.trials) c
  unfolding answer
  answer-register trial e new = rw (not_this _ _ e, is_next _ _ e, new)

module _ (cal : Calendar) (ok_cal : IsCalendar cal) (g : Session) (now : ℕ) (att : Bytes) (c : Call)
    (active : IsActive cal g now c.store) where
  parsed : (parse_header (session_text cal g)) ≡ (return (header cal g), trials_text g.trials)
  parsed = parse_header-session_text cal ok_cal g active.session

  -- The attempt is judged by what the game's file holds.
  pub attempt-answer :
      (trial : ℕ)
      → attempt cal working g.plid now att trial c
        ≡ answer cal working g.plid now att trial (header cal g) (seen att g) c
  unfolding attempt refuse_code
  attempt-answer trial = rw (
    check_active cal ok_cal g now true c active,
    active.file,
    parsed,
    parse_attempts-trials_text att g.trials active.session.att_words,
    seen_lem att g,
  )

  -- In an active game, on a disk that works: an attempt that repeats the last one, number and key,
  -- returns its number and its pegs again and changes no file.
  pub attempt_resend :
      (w b : ℕ)
      → Fresh c.refs
      → att ≡ last_att [] g.trials
      → calculate_attempt g.key att 0 0 ≡ some (w, b)
      → attempt cal working g.plid now att (length g.trials) c ≡ (
        return (length g.trials),
        record c { refs = record { blacks = b; whites = w; real_key = c.refs.real_key } },
      )
  attempt_resend w b fresh same feedback =
      attempt-answer (length g.trials) ∙ answer_resend cal now att g c w b fresh same feedback

  -- In an active game, on a disk that works: an attempt whose number is not the next one, and that
  -- does not repeat the last one, is refused as invalid and changes nothing.
  pub attempt_invalid :
      (trial : ℕ)
      → trial ≢ length g.trials + 1
      → (trial ≢ length g.trials) ⊎ (att ≢ last_att [] g.trials)
      → attempt cal working g.plid now att trial c ≡ (throw invalid_trial, c)
  attempt_invalid trial other wrong =
      attempt-answer trial ∙ answer_invalid cal now att g c trial other wrong

  -- In an active game, on a disk that works: an attempt with the next number and a key that was
  -- tried before is refused as a duplicate and changes nothing.
  pub attempt_duplicate :
      (trial : ℕ)
      → trial ≡ length g.trials + 1
      → tried att g.trials ≡ true
      → attempt cal working g.plid now att trial c ≡ (throw duplicate_trial, c)
  attempt_duplicate trial e again =
      attempt-answer trial ∙ answer_duplicate cal now att g c trial e again
