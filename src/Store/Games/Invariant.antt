-- ===== src/Store/Games/Invariant.antt =====
-- What holds of every game in progress, and of all of them together.
use rc.Base.{
  ℕ, suc, ◌+◌, ◌≤◌, ◌<◌, false, ◌||◌, List, [], ◌∷◌, ◌++◌, ◌≡◌, ◌≢◌, refl, ◌∙◌, arith, Bytes,
  bytes_eq, some, length, length-append, All, All-append,
}
use rc.Constants.{guesses_max, secret_key_len}
use rc.Mastermind.{calculate_attempt}
use rc.Store.Games.Accepted.{trial_of}
use rc.Store.Games.Active.{tried, tried_once}
use rc.Store.Games.Created.{new_session}
use rc.Store.Records.Sessions.{Trial, Session, IsSession}
use rc.Store.Records.{GameMode}
use rc.Text.Words.Reads.{IsWord, NotSpace, NotSpace-of_digit, All-mono}
use rc.Text.Words.{is_space}
use rc.Udp.Parser.Reads.{IsColor, IsKey, IsPlayerId}
use rc.Udp.Parser.{has_byte}
use rc.Udp.Requests.RoundTrip.{IsPlayTime}

-- An attempt of a game that goes on: its pegs are those of the key, and it is not the key.
pub record IsMarked (key : Bytes) (t : Trial) : Type 0 where
  pub att_key : IsKey t.att
  pub marks : calculate_attempt key t.att 0 0 ≡ some (t.whites, t.blacks)
  pub wrong : t.blacks ≢ secret_key_len

-- No key is tried twice.
abbrev pub Once : List Trial → Type 0
Once [] = Unit
Once (t ∷ ts) = (tried t.att ts ≡ false) × Once ts

pub record IsGame (g : Session) : Type 0 where
  pub player : IsPlayerId g.plid
  pub secret : IsKey g.key
  pub limit : IsPlayTime g.play_time
  pub int_start : g.start ≤ 2147483647
  pub marked : All (IsMarked g.key) g.trials
  pub once : Once g.trials
  pub room : length g.trials < guesses_max

solid_color : (c : ℕ) → IsColor c → NotSpace c
unfolding has_byte is_space
solid_color c h = ground arith

some_bytes : (k : Bytes) (n : ℕ) → length k ≡ suc n → k ≢ []
some_bytes [] n e = absurd (omega arith)
some_bytes (c ∷ k) n e = ground arith

key-IsWord : (k : Bytes) → IsKey k → IsWord k
key-IsWord k v = record {
  nonempty = some_bytes k 3 v.four;
  solid = All-mono solid_color k v.colors;
}

plid-IsWord : (p : Bytes) → IsPlayerId p → IsWord p
plid-IsWord p v = record {
  nonempty = some_bytes p 5 v.six;
  solid = All-mono NotSpace-of_digit p v.digits;
}

marked-words : (key : Bytes) (ts : List Trial) → All (IsMarked key) ts → All (λ t. IsWord t.att) ts
marked-words key [] h = tt
marked-words key (t ∷ ts) h = (key-IsWord t.att h.0.att_key, marked-words key ts h.1)

pub game-IsSession : (g : Session) → IsGame g → IsSession g
game-IsSession g v = record {
  plid_word = plid-IsWord g.plid v.player;
  key_word = key-IsWord g.key v.secret;
  time_fits = omega (arith, v.limit.1);
  start_fits = v.int_start;
  att_words = marked-words g.key g.trials v.marked;
}

bytes_eq_comm : (a b : Bytes) → bytes_eq a b ≡ bytes_eq b a
unfolding bytes_eq
bytes_eq_comm [] [] = refl
bytes_eq_comm [] (y ∷ b) = refl
bytes_eq_comm (x ∷ a) [] = refl
bytes_eq_comm (x ∷ a) (y ∷ b) = ground (arith, bytes_eq_comm a b)

tried-append :
    (att : Bytes) (ts : List Trial) (t : Trial)
    → tried att (ts ++ t ∷ []) ≡ tried att ts || bytes_eq att t.att
tried-append att [] t = ground arith
tried-append att (u ∷ ts) t = ground (arith, tried-append att ts t)

Once-append : (ts : List Trial) (t : Trial) → Once ts → tried t.att ts ≡ false → Once (ts ++ t ∷ [])
Once-append [] t o n = (refl, tt)
Once-append (u ∷ ts) t o n = (
  tried-append u.att ts t ∙ ground (arith, bytes_eq_comm u.att t.att),
  Once-append ts t o.1 (ground arith),
)

-- A new game is in order.
pub new-IsGame :
    (plid key : Bytes) (now play_time : ℕ) (mode : GameMode)
    → IsPlayerId plid
    → IsKey key
    → IsPlayTime play_time
    → now ≤ 2147483647
    → IsGame (new_session plid now play_time key mode)
new-IsGame plid key now play_time mode p k t n = record {
  player = p;
  secret = k;
  limit = t;
  int_start = n;
  marked = tt;
  once = tt;
  room = ground arith;
}

-- So is a game that goes on after an attempt.
pub next-IsGame :
    (g : Session) (now : ℕ) (att : Bytes) (w b : ℕ)
    → IsGame g
    → IsKey att
    → tried att g.trials ≡ false
    → calculate_attempt g.key att 0 0 ≡ some (w, b)
    → b ≢ secret_key_len
    → length g.trials + 1 < guesses_max
    → IsGame (tried_once g (trial_of g now att w b))
next-IsGame g now att w b v k new pegs wrong room = record {
  player = v.player;
  secret = v.secret;
  limit = v.limit;
  int_start = v.int_start;
  marked =
      All-append (IsMarked g.key) g.trials (trial_of g now att w b ∷ []) v.marked
        (record { att_key = k; marks = pegs; wrong = wrong }, tt);
  once = Once-append g.trials (trial_of g now att w b) v.once new;
  room = omega (arith, length-append g.trials (trial_of g now att w b ∷ []));
}
