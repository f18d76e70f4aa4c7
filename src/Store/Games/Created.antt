-- ===== src/Store/Games/Created.antt =====
-- `createGame`: when it refuses, and the game that it leaves.
use rc.Base.{
  ℕ, ◌-◌, ◌<◌, true, false, ◌≡◌, refl, ap, sym, append-nil, arith, Bytes, Option, none, some, [],
}
use rc.Base.Int.{ℤ, pos, negsuc, ltb_ℤ}
use rc.Exceptions.{return, throw, ongoing_game}
use rc.Store.Files.{Call}
use rc.Store.Games.Active.{working, IsActive, check_active}
use rc.Store.Games.Accepted.{saved}
use rc.Store.Games.Ended.{IsExpired, check_expired, timed_out}
use rc.Store.Games.{check_timedout_game, check_file, create_game, choose_key}
use rc.Store.Records.Sessions.{Session, session_text, IsCalendar, trials_text}
use rc.Store.Records.{GameMode, game_create}
use rc.Store.{Calendar, update, game_fname}

-- The game that a command with these arguments asks for.
abbrev pub new_session : Bytes → ℕ → ℕ → Bytes → GameMode → Session
new_session plid now play_time key mode = record {
  plid = plid;
  mode = mode;
  key = key;
  play_time = play_time;
  start = now;
  trials = [];
}

same_lem : (m n : ℕ) → n ≡ m → ltb_ℤ (pos 0) (pos (m - n)) ≡ false
same_lem m n e = ground arith

running_lem : (e : ℕ) → 0 < e → ltb_ℤ (pos 0) (pos e) ≡ true
running_lem e h = ground arith

module _ (cal : Calendar) where
  check_none :
      (plid : Bytes) (now : ℕ) (c : Call)
      → c.store.games (game_fname plid) ≡ none
      → check_timedout_game cal working false plid now c ≡ (return (negsuc 0), c)
  unfolding check_timedout_game check_file
  check_none plid now c e = rw e

  -- After a check that found no running game, the game's file is written.
  create_from :
      (plid : Bytes) (now play_time : ℕ) (key entropy : Option Bytes) (k : Bytes) (m : GameMode)
      (code : ℤ)
      → (c d : Call) → check_timedout_game cal working false plid now c ≡ (return code, d)
      → ltb_ℤ (pos 0) code ≡ false
      → choose_key key entropy d ≡ (return (k, m), d)
      → create_game cal working plid now play_time key entropy c ≡ (
        return k,
        record { store = saved cal (new_session plid now play_time k m) d.store; refs = d.refs },
      )
  unfolding create_game session_text trials_text
  create_from plid now play_time key entropy k m code c d check low chosen =
      rw (check, low, chosen)
        (ap
          (λ x. (
            return k,
            record {
              store = record (d.store) { games = update d.store.games (game_fname plid) (some x) };
              refs = d.refs;
            },
          ))
          (sym (append-nil (game_create cal plid play_time m now k))))

  -- A player without a game gets the one asked for: the key that was given, or drawn, is returned,
  -- and the game's file is written. The disk works.
  pub create_first :
      (plid : Bytes) (now play_time : ℕ) (key entropy : Option Bytes) (k : Bytes) (m : GameMode)
      → (c : Call) → ((d : Call) → choose_key key entropy d ≡ (return (k, m), d))
      → c.store.games (game_fname plid) ≡ none
      → create_game cal working plid now play_time key entropy c ≡ (
        return k,
        record { store = saved cal (new_session plid now play_time k m) c.store; refs = c.refs },
      )
  create_first plid now play_time key entropy k m c chosen e =
      create_from plid now play_time key entropy k m (negsuc 0) c c (check_none plid now c e) refl
        (chosen c)

module _ (cal : Calendar) (ok_cal : IsCalendar cal) where
  -- On a disk that works, an active game that started in an earlier second is kept: `createGame`
  -- throws that there is an ongoing game, and nothing changes.
  pub create_ongoing :
      (g : Session) (now : ℕ) (play_time : ℕ) (key entropy : Option Bytes) (c : Call)
      → IsActive cal g now c.store
      → g.start < now
      → create_game cal working g.plid now play_time key entropy c ≡ (throw ongoing_game, c)
  unfolding create_game
  create_ongoing g now play_time key entropy c a earlier =
      rw (check_active cal ok_cal g now false c a, running_lem (now - g.start) (ground arith))

  -- A player whose playing time has passed gets the game asked for: the old one moves to the player's
  -- finished games first. The disk works.
  pub create_after_expired :
      (g : Session) (now play_time : ℕ) (key entropy : Option Bytes) (k : Bytes) (m : GameMode)
      → (c : Call) → ((d : Call) → choose_key key entropy d ≡ (return (k, m), d))
      → IsExpired cal g now c.store
      → create_game cal working g.plid now play_time key entropy c ≡ (
        return k,
        record {
          store = saved cal (new_session g.plid now play_time k m) (timed_out cal g now c.store);
          refs = c.refs;
        },
      )
  create_after_expired g now play_time key entropy k m c chosen x =
      let d : Call = record { store = timed_out cal g now c.store; refs = c.refs } in
      create_from cal g.plid now play_time key entropy k m (negsuc 1) c d
        (check_expired cal ok_cal g now false c x) refl (chosen d)

  -- A game in progress that started in the very second of the command is written over by the new
  -- one. The disk works.
  pub create_same_second :
      (g : Session) (now play_time : ℕ) (key entropy : Option Bytes) (k : Bytes) (m : GameMode)
      → (c : Call) → IsActive cal g now c.store
      → g.start ≡ now
      → choose_key key entropy c ≡ (return (k, m), c)
      → create_game cal working g.plid now play_time key entropy c ≡ (
        return k,
        record { store = saved cal (new_session g.plid now play_time k m) c.store; refs = c.refs },
      )
  create_same_second g now play_time key entropy k m c a same chosen =
      create_from cal g.plid now play_time key entropy k m (pos (now - g.start)) c c
        (check_active cal ok_cal g now false c a) (same_lem now g.start same) chosen
