-- ===== src/Play/InStep.antt =====
-- A client that plays against the server, in step with the game that the server keeps for it.
use rc.Base.{
  suc, ◌<◌, sym, subst, All-append, ℕ, ◌+◌, ◌≤◌, true, false, ◌||◌, List, [], ◌∷◌, ◌++◌, ◌≡◌, refl,
  ap, ◌∙◌, arith, Bytes, none, length, length-append, All, ◌⊎◌, inl, inr,
}
use rc.Client.Shown.{IsFour, IsShown}
use rc.Client.Moves.{saved_state, next_state}
use rc.Client.State.{GameState, Console}
use rc.Play.Network.{World}
use rc.Constants.{guesses_max}
use rc.Store.Games.Active.{IsActive, tried_once}
use rc.Store.Games.Invariant.{IsGame, IsMarked}
use rc.Store.Records.Sessions.{Trial, Session}
use rc.Store.Records.{GameMode}
use rc.Store.{Store, Calendar, game_fname}
use rc.Udp.Parser.Reads.{IsKey}

abbrev pub keys_of : List Trial → List Bytes
keys_of [] = []
keys_of (t ∷ ts) = t.att ∷ keys_of ts

abbrev pub pegs_of_trials : List Trial → List (ℕ × ℕ)
pegs_of_trials [] = []
pegs_of_trials (t ∷ ts) = (t.blacks, t.whites) ∷ pegs_of_trials ts

-- The client's memory is that of this game: its player, its attempts with their pegs, and the
-- number of the next one.
pub record Mirrors (m : GameState) (g : Session) : Type 0 where
  pub playing : m.is_game ≡ true
  pub unfinished : m.finished ≡ false
  pub player : m.plid ≡ g.plid
  pub counted : m.trial ≡ length g.trials + 1
  pub guessed : m.guesses ≡ keys_of g.trials
  pub marked : m.feedback ≡ pegs_of_trials g.trials
  pub keyed : (m.debug ≡ false) ⊎ IsFour m.key

-- The server's files hold the same game, in order and in time, and no reply is on its way.
pub record InStep (cal : Calendar) (now : ℕ) (c : Console World) (g : Session) : Type 0 where
  pub mirror : Mirrors c.game g
  pub game : IsGame g
  pub active : IsActive cal g now c.world.store
  pub empty : c.world.inbox ≡ []

-- The game is over on both sides: the client knows the key, and the server's files are these,
-- without an active game of the player.
pub record IsOver (c : Console World) (g : Session) (files : Store) : Type 0 where
  pub idle : c.game.is_game ≡ false
  pub finished : c.game.finished ≡ true
  pub revealed : c.game.key ≡ g.key
  pub left : c.world.store ≡ files
  pub gone : files.games (game_fname g.plid) ≡ none
  pub empty : c.world.inbox ≡ []

-- What the client holds of the key: in a game for play nothing, and in a debug game the key itself.
abbrev pub Knows : GameMode → Bytes → GameState → Type 0
Knows GameMode.play secret m = (m.debug ≡ false) × (m.key ≡ [])
Knows GameMode.debug secret m = (m.debug ≡ true) × (m.key ≡ secret)

keys_of-append : (ts : List Trial) (t : Trial) → keys_of (ts ++ t ∷ []) ≡ keys_of ts ++ t.att ∷ []
keys_of-append [] t = refl
keys_of-append (u ∷ ts) t = ap (λ x. u.att ∷ x) (keys_of-append ts t)

pegs_of_trials-append :
    (ts : List Trial) (t : Trial)
    → pegs_of_trials (ts ++ t ∷ []) ≡ pegs_of_trials ts ++ (t.blacks, t.whites) ∷ []
pegs_of_trials-append [] t = refl
pegs_of_trials-append (u ∷ ts) t = ap (λ x. (u.blacks, u.whites) ∷ x) (pegs_of_trials-append ts t)

keys_of-IsFour : (key : Bytes) (ts : List Trial) → All (IsMarked key) ts → All IsFour (keys_of ts)
keys_of-IsFour key [] h = tt
keys_of-IsFour key (t ∷ ts) h = (h.0.att_key.four, keys_of-IsFour key ts h.1)

same_length : (ts : List Trial) → length (keys_of ts) ≡ length (pegs_of_trials ts)
same_length [] = refl
same_length (t ∷ ts) = ap (λ n. suc n) (same_length ts)

-- One attempt more, on both sides.
pub Mirrors-next :
    (m : GameState) (g : Session) (t : Trial)
    → Mirrors m g
    → length g.trials < guesses_max
    → Mirrors (next_state m t.att t.blacks t.whites) (tried_once g t)
Mirrors-next m g t v room = record {
  playing = v.playing;
  unfinished = v.unfinished;
  player = v.player;
  counted = omega (arith, v.counted, length-append g.trials (t ∷ []));
  guessed = ap (λ x. x ++ t.att ∷ []) v.guessed ∙ sym (keys_of-append g.trials t);
  marked =
      ap (λ x. x ++ (t.blacks, t.whites) ∷ []) v.marked ∙ sym (pegs_of_trials-append g.trials t);
  keyed = v.keyed;
}

saved-IsFour :
    (m : GameState) (g : Session) (att : Bytes)
    → Mirrors m g
    → IsGame g
    → IsKey att
    → All IsFour (m.guesses ++ att ∷ [])
saved-IsFour m g att v game k =
    All-append IsFour m.guesses (att ∷ [])
      (subst (All IsFour) (sym v.guessed) (keys_of-IsFour g.key g.trials game.marked)) (k.four, tt)

saved_marked :
    (m : GameState) (g : Session) (att : Bytes) (b w : ℕ)
    → Mirrors m g
    → length (m.guesses ++ att ∷ []) ≤ length (m.feedback ++ (b, w) ∷ [])
saved_marked m g att b w v =
    let guesses = ap length v.guessed in
    let feedback = ap length v.marked in
    omega (
      arith,
      length-append m.guesses (att ∷ []),
      length-append m.feedback ((b, w) ∷ []),
      guesses,
      feedback,
      same_length g.trials,
    )

hidden :
    (m : GameState) (g : Session) → Mirrors m g → (m.finished || m.debug ≡ false) ⊎ IsFour m.key
hidden m g v = elim v.keyed [ inl d ↦ inl (rw (v.unfinished, d) refl) | inr four ↦ inr four ]

-- The table with one attempt more is printed, while the game goes on and at its end.
pub next-IsShown :
    (m : GameState) (g : Session) (att : Bytes) (b w : ℕ)
    → Mirrors m g
    → IsGame g
    → IsKey att
    → IsShown (next_state m att b w)
next-IsShown m g att b w v game k = record {
  four = saved-IsFour m g att v game k;
  marked = saved_marked m g att b w v;
  keyed = hidden m g v;
}

pub last-IsShown :
    (m : GameState) (g : Session) (att key : Bytes) (b w : ℕ)
    → Mirrors m g
    → IsGame g
    → IsKey att
    → IsKey key
    → IsShown (record (saved_state m att b w) { key = key; finished = true })
last-IsShown m g att key b w v game k secret = record {
  four = saved-IsFour m g att v game k;
  marked = saved_marked m g att b w v;
  keyed = inr secret.four;
}

pub quit-IsShown :
    (m : GameState) (g : Session)
    → Mirrors m g
    → IsGame g
    → IsShown (record m { key = g.key; finished = true })
quit-IsShown m g v game = record {
  four = subst (All IsFour) (sym v.guessed) (keys_of-IsFour g.key g.trials game.marked);
  marked =
      let guesses = ap length v.guessed in
      let feedback = ap length v.marked in omega (arith, guesses, feedback, same_length g.trials);
  keyed = inr game.secret.four;
}
