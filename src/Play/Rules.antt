-- ===== src/Play/Rules.antt =====
-- The rules of an attempt, which client and server implement together.
use rc.Base.{
  ℕ, ◌+◌, ◌-◌, ◌==◌, true, false, ◌≡◌, refl, if◌then◌else◌, Bytes, length, none, some, Option,
}
use rc.Base.Int.{pos}
use rc.Client.State.{Console}
use rc.Constants.{guesses_max, secret_key_len}
use rc.Exceptions.{Exception, Result, return, dup_attempt}
use rc.Mastermind.Pegs.{matches, common}
use rc.Play.InStep.{InStep, IsOver}
use rc.Play.Network.{World}
use rc.Store.Games.Accepted.{trial_of, scored}
use rc.Store.Games.Active.{tried, tried_once, ended}
use rc.Store.Records.Sessions.{Session, session_text}
use rc.Store.Records.{Endings}
use rc.Store.{Store, Calendar}

-- What an attempt comes to.
pub data Verdict : Type 0 where
  duplicate goes_on won lost : Verdict

-- The rules: eight attempts, no key twice.
abbrev pub rules : Session → Bytes → Verdict
rules g att =
    if tried att g.trials
    then Verdict.duplicate
    else if matches g.key att == secret_key_len
    then Verdict.won
    else if length g.trials + 1 == guesses_max
    then Verdict.lost
    else Verdict.goes_on

module _ (g : Session) (att : Bytes) where
  pub rules-duplicate : tried att g.trials ≡ true → rules g att ≡ Verdict.duplicate
  rules-duplicate again = rw again refl

  module _ (new : tried att g.trials ≡ false) where
    pub rules-won : (matches g.key att == secret_key_len) ≡ true → rules g att ≡ Verdict.won
    rules-won right = rw (new, right) refl

    pub rules-lost :
        (matches g.key att == secret_key_len) ≡ false
        → (length g.trials + 1 == guesses_max) ≡ true
        → rules g att ≡ Verdict.lost
    rules-lost wrong last = rw (new, wrong, last) refl

    pub rules-goes_on :
        (matches g.key att == secret_key_len) ≡ false
        → (length g.trials + 1 == guesses_max) ≡ false
        → rules g att ≡ Verdict.goes_on
    rules-goes_on wrong room = rw (new, wrong, room) refl

module _ (cal : Calendar) (now : ℕ) (s : Store) (g : Session) (att : Bytes) where
  -- The game with the attempt and its pegs by the rules.
  abbrev pub after_try : Session
  after_try =
      tried_once g (trial_of g now att (common g.key att - matches g.key att) (matches g.key att))

  -- The server's files once the attempt has ended the game.
  abbrev pub files_ended : Endings → Store
  files_ended reason =
      ended cal g.plid reason now (pos (now - g.start)) (session_text cal after_try) s

  -- What the user is told, and what client and server hold afterwards.
  abbrev pub Follows : Verdict → Result (Option Exception) × Console World → Type 0
  Follows Verdict.duplicate r = (r.0 ≡ return (some dup_attempt)) × InStep cal now r.1 g
  Follows Verdict.goes_on r = (r.0 ≡ return none) × InStep cal now r.1 after_try
  Follows Verdict.won r =
      (r.0 ≡ return none)
      × IsOver r.1 g (scored cal g now (length g.trials + 1) (files_ended Endings.win))
  Follows Verdict.lost r = (r.0 ≡ return none) × IsOver r.1 g (files_ended Endings.lost)
