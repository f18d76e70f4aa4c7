-- ===== src/Play/Ends.antt =====
-- A game that is played on comes to its end, on both sides.
use rc.Base.{
  ℕ, ◌+◌, ◌-◌, ◌≤◌, ◌<◌, ◌==◌, false, List, [], ◌∷◌, ◌++◌, ◌≡◌, refl, sym, subst, arith, Bytes,
  bytes_eq, length, length-append, All, Bool-cases, inl, inr, ◌⊎◌,
}
use rc.Client.Input.{parse_key}
use rc.Client.Moves.{playing-idle}
use rc.Client.State.{Console}
use rc.Client.UdpCommands.{try_handler, try_request, reported}
use rc.Constants.{guesses_max, secret_key_len}
use rc.Exceptions.{return}
use rc.Mastermind.Pegs.{matches, common}
use rc.Play.Follows.{try_handler-Follows}
use rc.Play.InStep.{InStep, IsOver}
use rc.Play.Network.{World, server_net}
use rc.Play.Rules.{Verdict, rules, rules-won, rules-lost, rules-goes_on, after_try, Follows}
use rc.Store.Games.Accepted.{trial_of}
use rc.Store.Games.Active.{tried, tried_once}
use rc.Store.Records.Sessions.{IsCalendar, Session, Trial}
use rc.Store.{Store, Calendar}
use rc.Text.Words.{In}
use rc.Udp.Replies.{ReplyTryPacket, ReplyQuitPacket}

-- Keys of which none has been tried or stands twice.
abbrev pub AreNew : List Trial → List Bytes → Type 0
AreNew ts [] = Unit
AreNew ts (k ∷ ks) = (tried k ts ≡ false) × All (λ j. bytes_eq j k ≡ false) ks × AreNew ts ks

-- A line behind `try`: when it is sent, what the user has typed, and what the reply objects of the
-- handler and `/dev/urandom` on the server hold then.
pub record Line : Type 0 where
  pub now : ℕ
  pub input : In
  pub old_try : ReplyTryPacket
  pub old_quit : ReplyQuitPacket
  pub bytes : Bytes

-- The lines that the user types, read as these keys.
abbrev pub AreKeys : List Line → List Bytes → Type 0
AreKeys [] [] = Unit
AreKeys (l ∷ ls) (k ∷ ks) = ((parse_key l.input).0 ≡ return k) × AreKeys ls ks
AreKeys _ _ = ⊥

-- The lines come one after the other, each as late as the one before or later, and before the time
-- `limit`, which is below 2 ^ 31.
abbrev pub AreInTime : ℕ → ℕ → List Line → Type 0
AreInTime limit now [] = Unit
AreInTime limit now (l ∷ ls) =
    (now ≤ l.now) × (l.now < limit) × (l.now ≤ 2147483647) × AreInTime limit l.now ls

new_key :
    (t : Trial) (ts : List Trial) (k : Bytes)
    → tried k ts ≡ false
    → bytes_eq k t.att ≡ false
    → tried k (ts ++ t ∷ []) ≡ false
new_key t [] k h d = ground (arith, d)
new_key t (u ∷ ts) k h d = ground (arith, d, new_key t ts k)

AreNew-append :
    (t : Trial) (ts : List Trial) (ks : List Bytes)
    → AreNew ts ks
    → All (λ j. bytes_eq j t.att ≡ false) ks
    → AreNew (ts ++ t ∷ []) ks
AreNew-append t ts [] h d = tt
AreNew-append t ts (k ∷ ks) h d = (new_key t ts k h.0 d.0, h.1, AreNew-append t ts ks h.2 d.1)

-- A game that is in step stays in step as time passes within its playing time.
InStep-later :
    (cal : Calendar) (now later : ℕ) (c : Console World) (g : Session)
    → now ≤ later
    → later < g.start + g.play_time
    → later ≤ 2147483647
    → InStep cal now c g
    → InStep cal later c g
InStep-later cal now later c g after in_time int_time v = record {
  mirror = v.mirror;
  game = v.game;
  active = record {
    session = v.active.session;
    file = v.active.file;
    begun = let begun = v.active.begun in omega (arith, begun, after);
    in_time = in_time;
    short = v.active.short;
    int_time = int_time;
  };
  empty = v.empty;
}

module _ (cal : Calendar) where
  -- What `try` with a line leaves.
  abbrev pub tried_line : Line → Console World → Console World
  tried_line l c = (try_handler (server_net cal l.now l.bytes) l.old_try l.old_quit l.input c).1

  -- `try` with one line after another.
  unfoldable pub tries : List Line → Console World → Console World
  tries [] c = c
  tries (l ∷ ls) c = tries ls (tried_line l c)

  -- Once the game is over, `try` changes nothing.
  refused : (l : Line) (c : Console World) → c.game.is_game ≡ false → tried_line l c ≡ c
  unfolding try_handler try_request reported
  refused l c idle = rw (tried_line, playing-idle c idle) refl

  tries-over : (lines : List Line) (c : Console World) → c.game.is_game ≡ false → tries lines c ≡ c
  unfolding tries
  tries-over [] c idle = refl
  tries-over (l ∷ ls) c idle = rw (refused l c idle) (tries-over ls c idle)

  -- However the game goes on after a new key: it is over, or both sides hold one attempt more.
  once :
      (ok_cal : IsCalendar cal) (c : Console World) (g : Session) (l : Line) (att : Bytes)
      → InStep cal l.now c g
      → (parse_key l.input).0 ≡ return att
      → tried att g.trials ≡ false
      → ((files : Store) × IsOver (tried_line l c) g files)
        ⊎ InStep cal l.now (tried_line l c) (after_try cal l.now c.world.store g att)
  once ok_cal c g l att v typed new =
      let r = try_handler (server_net cal l.now l.bytes) l.old_try l.old_quit l.input c in
      let all =
        try_handler-Follows cal ok_cal l.now l.bytes l.old_try l.old_quit c g v l.input att typed in
      let judged : (u : Verdict) → rules g att ≡ u → Follows cal l.now c.world.store g att u r =
        λ u e. subst (λ x. Follows cal l.now c.world.store g att x r) e all in
      elim (Bool-cases (matches g.key att == secret_key_len)) [
        | inl right ↦ inl (_, (judged Verdict.won (rules-won g att new right)).1)
        | inr wrong ↦ elim (Bool-cases (length g.trials + 1 == guesses_max)) [
          | inl last ↦ inl (_, (judged Verdict.lost (rules-lost g att new wrong last)).1)
          | inr room ↦ inr (judged Verdict.goes_on (rules-goes_on g att new wrong room)).1
        ]
      ]

  IsOver-before :
      (t : Trial) (g : Session) (c : Console World) (files : Store)
      → IsOver c (tried_once g t) files
      → IsOver c g files
  IsOver-before t g c files v = record {
    idle = v.idle;
    finished = v.finished;
    revealed = v.revealed;
    left = v.left;
    gone = v.gone;
    empty = v.empty;
  }

  -- A client in step whose user types new keys until eight have been tried, at any times within
  -- the playing time and below 2 ^ 31, reaches the end of its game: over a network that loses nothing
  -- and on a server whose disk works, the game is over on both sides, won or lost, and the client
  -- knows the key, however many of the keys were typed after the end.
  pub tries_end :
      IsCalendar cal
      → (lines : List Line) (atts : List Bytes) (now : ℕ) (c : Console World) (g : Session)
      → InStep cal now c g
      → AreKeys lines atts
      → AreInTime (g.start + g.play_time) now lines
      → AreNew g.trials atts
      → length g.trials + length atts ≡ guesses_max
      → (files : Store) × IsOver (tries lines c) g files
  unfolding tries
  tries_end ok_cal [] [] now c g v keys times new all =
      let room = v.game.room in absurd (omega (arith, all, room))
  tries_end ok_cal [] (k ∷ ks) now c g v keys times new all = absurd keys
  tries_end ok_cal (l ∷ ls) [] now c g v keys times new all = absurd keys
  tries_end ok_cal (l ∷ ls) (k ∷ ks) now c g v keys times new all =
      let d = tried_line l c in
      let (after, in_time, int_time, rest) = times in
      elim (once ok_cal c g l k (InStep-later cal now l.now c g after in_time int_time v) keys.0
        new.0) [
          | inl (files, over) ↦
              (files, subst (λ e. IsOver e g files) (sym (tries-over ls d over.idle)) over)
          | inr w ↦
              let t = trial_of g l.now k (common g.key k - matches g.key k) (matches g.key k) in
              let (files, over) =
                tries_end ok_cal ls ks l.now d (after_try cal l.now c.world.store g k) w keys.1 rest
                  (AreNew-append t g.trials ks new.2 new.1)
                  (omega (arith, all, length-append g.trials (t ∷ []))) in
              (files, IsOver-before t g (tries ls d) files over)
        ]
