-- ===== src/Store/Games/Preserved.antt =====
-- The operations keep every game in order, whatever the command.
use rc.Base.{
  ℕ, ◌+◌, ◌≤◌, ◌==◌, true, false, [], ◌≡◌, ◌≢◌, refl, sym, subst, arith, Bytes, bytes_eq,
  bytes_eq_iff, Option, none, some, length, ltb, ◌⊎◌, inl, inr, Bool-cases,
}
use rc.Constants.{guesses_max, secret_key_len}
use rc.Exceptions.{Result, return, is_defined}
use rc.Mastermind.Pegs.{calculate_attempt-pegs}
use rc.Mastermind.{calculate_attempt}
use rc.Store.Files.{Call}
use rc.Store.Games.Accepted.{trial_of, attempt_accepted, attempt_exhausted, attempt_won}
use rc.Store.Games.Active.{working, tried, last_att, tried_once, IsActive, update_self}
use rc.Store.Games.Attempts.{Fresh, attempt_resend, attempt_invalid, attempt_duplicate}
use rc.Store.Games.Created.{
  new_session, create_ongoing, create_first, create_after_expired, create_same_second,
}
use rc.Store.Games.Ended.{IsExpired, timed_out, quit_active, too_late, no_game}
use rc.Store.Games.Invariant.{IsGame, game-IsSession, new-IsGame, next-IsGame}
use rc.Store.Games.Sound.{InPlay, IsSound, IsSound-none, IsSound-some}
use rc.Store.Games.{attempt, quit_game, create_game, choose_key}
use rc.Store.Records.Sessions.{Session, session_text, IsCalendar}
use rc.Store.Records.{GameMode}
use rc.Store.{Store, Calendar, update, game_fname}
use rc.Udp.Parser.Reads.{IsKey, IsPlayerId}
use rc.Udp.Requests.RoundTrip.{IsPlayTime}

-- The game of a player is either in time or over.
in_time :
    (cal : Calendar) (g : Session) (now : ℕ) (s : Store)
    → IsGame g
    → g.start ≤ now
    → now ≤ 2147483647
    → s.games (game_fname g.plid) ≡ some (session_text cal g)
    → IsActive cal g now s ⊎ IsExpired cal g now s
in_time cal g now s v begun int_now file = elim (Bool-cases (ltb now (g.start + g.play_time))) [
  | inl early ↦ inl (record {
    session = game-IsSession g v;
    file = file;
    begun = begun;
    in_time = ground arith;
    short = v.limit.1;
    int_time = int_now;
  })
  | inr late ↦ inr (record {
    session = game-IsSession g v;
    file = file;
    late = ground arith;
    short = v.limit.1;
    int_time = int_now;
  })
]

-- The outcome of an operation: it is one that the source defines, and the games are in order.
abbrev pub SoundAfter : {A : Type 0} → Calendar → ℕ → Result A × Call → Type 0
SoundAfter cal now r = IsSound cal now r.1.store.games × (is_defined r.0 ≡ true)

abbrev QuitDone : {A : Type 0} → Calendar → ℕ → Bytes → Result A × Call → Type 0
QuitDone cal now plid r = SoundAfter cal now r × (r.1.store.games (game_fname plid) ≡ none)

module _ (cal : Calendar) (ok_cal : IsCalendar cal) (now : ℕ) (c : Call)
    (sound : IsSound cal now c.store.games) where
  new_key :
      (g : Session) (att : Bytes) (w b : ℕ)
      → IsGame g
      → IsKey att
      → Fresh c.refs
      → IsActive cal g now c.store
      → calculate_attempt g.key att 0 0 ≡ some (w, b)
      → tried att g.trials ≡ false
      → SoundAfter cal now (attempt cal working g.plid now att (length g.trials + 1) c)
  new_key g att w b v k fresh a pegs new = elim (Bool-cases (b == secret_key_len)) [
    | inl right ↦
        subst (SoundAfter cal now)
          (sym (attempt_won cal ok_cal g now att c a fresh new w b pegs (ground arith)))
          (IsSound-none cal now c.store.games sound g.plid v.player, refl)
    | inr wrong ↦ elim (Bool-cases (ltb (length g.trials + 1) guesses_max)) [
      | inl room ↦
          subst (SoundAfter cal now)
            (sym (
              attempt_accepted cal ok_cal g now att c a fresh new w b pegs (ground arith)
                (ground arith)))
            (
              IsSound-some cal now c.store.games sound (tried_once g (trial_of g now att w b))
                  (next-IsGame g now att w b v k new pegs (ground arith) (ground arith)) a.begun,
              refl,
            )
      | inr full ↦
          subst (SoundAfter cal now)
            (sym (
              attempt_exhausted cal ok_cal g now att c a fresh new w b pegs (ground arith)
                (let room = v.room in ground arith)))
            (IsSound-none cal now c.store.games sound g.plid v.player, refl)
    ]
  ]

  old_number :
      (g : Session) (att : Bytes) (trial w b : ℕ)
      → Fresh c.refs
      → IsActive cal g now c.store
      → calculate_attempt g.key att 0 0 ≡ some (w, b)
      → trial ≢ length g.trials + 1
      → SoundAfter cal now (attempt cal working g.plid now att trial c)
  old_number g att trial w b fresh a pegs other = elim (Bool-cases (trial == length g.trials)) [
    | inl same ↦ elim (Bool-cases (bytes_eq att (last_att [] g.trials))) [
      | inl again ↦
          subst (λ t. SoundAfter cal now (attempt cal working g.plid now att t c)) (ground arith)
            (subst (SoundAfter cal now)
              (sym (
                attempt_resend cal ok_cal g now att c a w b fresh
                  ((bytes_eq_iff att (last_att [] g.trials)).0 again) pegs))
              (sound, refl))
      | inr changed ↦
          subst (SoundAfter cal now)
            (sym (
              attempt_invalid cal ok_cal g now att c a trial other
                (inr (ground (arith, bytes_eq_iff att (last_att [] g.trials))))))
            (sound, refl)
    ]
    | inr wrong ↦
        subst (SoundAfter cal now)
          (sym (attempt_invalid cal ok_cal g now att c a trial other (inl (ground arith))))
          (sound, refl)
  ]

  judged :
      (g : Session) (att : Bytes) (trial w b : ℕ)
      → IsGame g
      → IsKey att
      → Fresh c.refs
      → IsActive cal g now c.store
      → calculate_attempt g.key att 0 0 ≡ some (w, b)
      → SoundAfter cal now (attempt cal working g.plid now att trial c)
  judged g att trial w b v k fresh a pegs = elim (Bool-cases (trial == length g.trials + 1)) [
    | inr other ↦ old_number g att trial w b fresh a pegs (ground arith)
    | inl next ↦ elim (Bool-cases (tried att g.trials)) [
      | inl again ↦
          subst (SoundAfter cal now)
            (sym (attempt_duplicate cal ok_cal g now att c a trial (ground arith) again))
            (sound, refl)
      | inr new ↦
          subst (λ t. SoundAfter cal now (attempt cal working g.plid now att t c)) (ground arith)
            (new_key g att w b v k fresh a pegs new)
    ]
  ]

  attempt_game :
      (g : Session) (att : Bytes) (trial : ℕ)
      → IsGame g
      → IsKey att
      → Fresh c.refs
      → IsActive cal g now c.store ⊎ IsExpired cal g now c.store
      → SoundAfter cal now (attempt cal working g.plid now att trial c)
  attempt_game g att trial v k fresh (inl a) =
      judged g att trial _ _ v k fresh a (calculate_attempt-pegs g.key att 0 0 v.secret k).1
  attempt_game g att trial v k fresh (inr x) =
      subst (SoundAfter cal now) (sym (too_late cal ok_cal g now c x att trial).0)
        (IsSound-none cal now c.store.games sound g.plid v.player, refl)

  quit_of_game :
      (g : Session)
      → IsGame g
      → IsActive cal g now c.store ⊎ IsExpired cal g now c.store
      → QuitDone cal now g.plid (quit_game cal working g.plid now c)
  quit_of_game g v (inl a) =
      subst (QuitDone cal now g.plid) (sym (quit_active cal ok_cal g now c a)) (
        (IsSound-none cal now c.store.games sound g.plid v.player, refl),
        update_self c.store.games (game_fname g.plid) none,
      )
  quit_of_game g v (inr x) =
      subst (QuitDone cal now g.plid) (sym (too_late cal ok_cal g now c x [] 0).1) (
        (IsSound-none cal now c.store.games sound g.plid v.player, refl),
        update_self c.store.games (game_fname g.plid) none,
      )

  in_play :
      (plid : Bytes) (P : Bytes → Type 0)
      → now ≤ 2147483647
      → InPlay cal now plid c.store.games
      → ((g : Session)
          → IsGame g
          → IsActive cal g now c.store ⊎ IsExpired cal g now c.store
          → P g.plid)
      → P plid
  in_play plid P int_now i f = subst P i.same (
      f i.session i.game (
        in_time cal i.session now c.store i.game i.begun int_now (
          subst (λ p. c.store.games (game_fname p) ≡ some (session_text cal i.session)) (sym i.same)
            i.file)))

  -- On a disk that works, with every player's games in order before and a clock below 2 ^ 31 that is
  -- not behind any game's start: whatever key of four colours a player tries, with any number, the
  -- outcome is defined, and every player is left with no game or with one in order.
  pub attempt_keeps :
      (plid att : Bytes) (trial : ℕ)
      → IsPlayerId plid
      → IsKey att
      → Fresh c.refs
      → now ≤ 2147483647
      → SoundAfter cal now (attempt cal working plid now att trial c)
  attempt_keeps plid att trial p k fresh int_now = elim (sound plid p) [
    | inl e ↦
        subst (SoundAfter cal now) (sym (no_game cal working plid now c e att trial).0)
          (sound, refl)
    | inr i ↦
        in_play plid (λ q. SoundAfter cal now (attempt cal working q now att trial c)) int_now i
          λ g v t. attempt_game g att trial v k fresh t
  ]

  -- On a disk that works, with every player's games in order before and a clock below 2 ^ 31 that is
  -- not behind any game's start: after `quitGame`, whatever its outcome, every player has no game or
  -- one in order, and the player who quits has none.
  pub quit_keeps :
      (plid : Bytes)
      → IsPlayerId plid
      → now ≤ 2147483647
      → SoundAfter cal now (quit_game cal working plid now c)
        × ((quit_game cal working plid now c).1.store.games (game_fname plid) ≡ none)
  quit_keeps plid p int_now = elim (sound plid p) [
    | inl e ↦
        subst (QuitDone cal now plid) (sym (no_game cal working plid now c e [] 0).1)
          ((sound, refl), e)
    | inr i ↦
        in_play plid (λ q. QuitDone cal now q (quit_game cal working q now c)) int_now i
          λ g v t. quit_of_game g v t
  ]

  module _ (play_time : ℕ) (key entropy : Option Bytes) (k : Bytes) (m : GameMode)
      (chosen : (d : Call) → choose_key key entropy d ≡ (return (k, m), d)) (key_ok : IsKey k)
      (time_ok : IsPlayTime play_time) (int_now : now ≤ 2147483647) where
    create_over :
        (plid : Bytes)
        → IsPlayerId plid
        → IsSound cal now c.store.games
        → IsSound cal now (
            update c.store.games
              (game_fname plid)
              (some (session_text cal (new_session plid now play_time k m))))
    create_over plid p s =
        IsSound-some cal now c.store.games s (new_session plid now play_time k m)
          (new-IsGame plid k now play_time m p key_ok time_ok int_now) (omega arith)

    create_of_game :
        (g : Session)
        → IsGame g
        → IsActive cal g now c.store ⊎ IsExpired cal g now c.store
        → SoundAfter cal now (create_game cal working g.plid now play_time key entropy c)
    create_of_game g v (inr x) =
        subst (SoundAfter cal now)
          (sym (create_after_expired cal ok_cal g now play_time key entropy k m c chosen x))
          (
            IsSound-some cal now (timed_out cal g now c.store).games
                (IsSound-none cal now c.store.games sound g.plid v.player)
                (new_session g.plid now play_time k m)
                (new-IsGame g.plid k now play_time m v.player key_ok time_ok int_now) (omega arith),
            refl,
          )
    create_of_game g v (inl a) = elim (Bool-cases (ltb g.start now)) [
      | inl earlier ↦
          subst (SoundAfter cal now)
            (sym (create_ongoing cal ok_cal g now play_time key entropy c a (ground arith)))
            (sound, refl)
      | inr now_too ↦
          subst (SoundAfter cal now)
            (sym (
              create_same_second cal ok_cal g now play_time key entropy k m c a
                (let begun = a.begun in ground arith) (chosen c)))
            (create_over g.plid v.player sound, refl)
    ]

    -- On a disk that works, with every player's games in order before and a clock below 2 ^ 31 that
    -- is not behind any game's start: `createGame` with a playing time from 1 to 600 and a key of four
    -- colours, given or drawn, leaves every player with no game or with one in order.
    pub create_keeps :
        (plid : Bytes)
        → IsPlayerId plid
        → SoundAfter cal now (create_game cal working plid now play_time key entropy c)
    create_keeps plid p = elim (sound plid p) [
      | inl e ↦
          subst (SoundAfter cal now)
            (sym (create_first cal plid now play_time key entropy k m c chosen e))
            (create_over plid p sound, refl)
      | inr i ↦
          in_play plid
            (λ q. SoundAfter cal now (create_game cal working q now play_time key entropy c))
            int_now i λ g v t. create_of_game g v t
    ]
