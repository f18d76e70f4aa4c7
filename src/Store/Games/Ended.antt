-- ===== src/Store/Games/Ended.antt =====
-- Games that are over: `quitGame` on an active game, and what each operation does once the
-- playing time of a game has passed, or when there is no game.
use rc.Base.{ℕ, ◌+◌, ◌-◌, ◌≤◌, Bool, true, false, ◌≡◌, refl, arith, Bytes, none, some}
use rc.Base.Int.{pos, negsuc, ltb_ℤ, ◌-ℤ◌, to_int}
use rc.Constants.{play_time_max}
use rc.Exceptions.{return, throw, uncontextualized_game, timedout_game}
use rc.Store.Files.{Refs, Call}
use rc.Store.Games.Accepted.{sub_ℤ-le}
use rc.Store.Games.Active.{working, IsActive, check_active, ended, end_game_lem}
use rc.Store.Games.{
  reveal, expire, check_file, check_timedout_game, quit_game, refuse_code, attempt,
}
use rc.Store.Records.Sessions.{
  Session, session_text, IsCalendar, IsSession, header, parse_header-session_text,
}
use rc.Store.Records.{Endings}
use rc.Store.{Store, Calendar, Disk, game_fname}

-- The player's game is `g`, and its playing time has passed.
pub record IsExpired (cal : Calendar) (g : Session) (now : ℕ) (s : Store) : Type 0 where
  pub session : IsSession g
  pub file : s.games (game_fname g.plid) ≡ some (session_text cal g)
  pub late : g.start + g.play_time ≤ now
  pub short : g.play_time ≤ play_time_max
  pub int_time : now ≤ 2147483647

abbrev pub revealing : Bool → Bytes → Refs → Refs
revealing true key r = record { blacks = r.blacks; whites = r.whites; real_key = key }
revealing false key r = r

reveal_lem :
    (revealed : Bool) (key : Bytes) (c : Call)
    → reveal revealed key c
      ≡ (return tt, record { store = c.store; refs = revealing revealed key c.refs })
reveal_lem true key c = refl
reveal_lem false key c = refl

-- The files once the game `g` has been found to be over at `now`.
abbrev pub timed_out : Calendar → Session → ℕ → Store → Store
timed_out cal g now s =
    ended cal g.plid Endings.timeout (now + g.play_time) (pos g.play_time) (session_text cal g) s

late_lem :
    (start now play_time : ℕ)
    → start + play_time ≤ now
    → play_time ≤ play_time_max
    → now ≤ 2147483647
    → ltb_ℤ (to_int now -ℤ pos start) (to_int play_time) ≡ false
late_lem start now play_time a b c = ground arith

short_lem : (play_time : ℕ) → play_time ≤ play_time_max → to_int play_time ≡ pos play_time
short_lem play_time b = ground arith

pub not_negative : (n : ℕ) → ltb_ℤ (pos n) (pos 0) ≡ false
not_negative n = ground arith

module _ (cal : Calendar) (ok_cal : IsCalendar cal) where
  expire_late :
      (g : Session) (now : ℕ) (revealed : Bool) (c : Call)
      → IsExpired cal g now c.store
      → expire cal working revealed g.plid now (header cal g) (to_int now -ℤ pos g.start) c ≡ (
        return (negsuc 1),
        record { store = timed_out cal g now c.store; refs = revealing revealed g.key c.refs },
      )
  unfolding expire
  expire_late g now revealed c x = rw (
    late_lem g.start now g.play_time x.late x.short x.int_time,
    short_lem g.play_time x.short,
    reveal_lem revealed g.key c,
    end_game_lem cal g.plid (session_text cal g) Endings.timeout (now + g.play_time)
        (pos g.play_time) (record { store = c.store; refs = revealing revealed g.key c.refs })
        x.file,
  )

  -- A game whose playing time has passed is found once: its file moves to the player's finished
  -- games, and the key is revealed where the caller asks for it.
  pub check_expired :
      (g : Session) (now : ℕ) (revealed : Bool) (c : Call)
      → IsExpired cal g now c.store
      → check_timedout_game cal working revealed g.plid now c ≡ (
        return (negsuc 1),
        record { store = timed_out cal g now c.store; refs = revealing revealed g.key c.refs },
      )
  unfolding check_timedout_game
  check_expired g now revealed c x =
      rw (x.file, parse_header-session_text cal ok_cal g x.session, expire_late g now revealed c x)

  -- On a disk that works, `quitGame` on an active game returns its key and ends it with the time
  -- used: its file moves to the player's finished games with a last line added. Nothing else
  -- changes.
  pub quit_active :
      (g : Session) (now : ℕ) (c : Call)
      → IsActive cal g now c.store
      → quit_game cal working g.plid now c ≡ (
        return g.key,
        record {
          store =
              ended cal g.plid Endings.quit now (pos (now - g.start)) (session_text cal g) c.store;
          refs = c.refs;
        },
      )
  unfolding quit_game
  quit_active g now c a = rw (
    check_active cal ok_cal g now false c a,
    not_negative (now - g.start),
    a.file,
    parse_header-session_text cal ok_cal g a.session,
    sub_ℤ-le now g.start a.begun,
    end_game_lem cal g.plid (session_text cal g) Endings.quit now (pos (now - g.start)) c a.file,
  )

  -- On a disk that works, once the playing time of a game has passed, `attempt` throws that it
  -- timed out, with the key for the caller, and `quitGame` that there is no game. Both move the
  -- game's file to the finished ones, ended by the time at the command's time plus the playing
  -- time.
  pub too_late :
      (g : Session) (now : ℕ) (c : Call)
      → IsExpired cal g now c.store
      → (att : Bytes) (trial : ℕ)
      → (attempt cal working g.plid now att trial c ≡ (
        throw timedout_game,
        record { store = timed_out cal g now c.store; refs = revealing true g.key c.refs },
      ))
        × (quit_game cal working g.plid now c ≡ (
          throw uncontextualized_game,
          record { store = timed_out cal g now c.store; refs = c.refs },
        ))
  unfolding attempt quit_game refuse_code
  too_late g now c x att trial =
      (rw (check_expired g now true c x), rw (check_expired g now false c x))

module _ (cal : Calendar) where
  -- A player without an active game is told so by `attempt` and `quitGame`, whatever the disk
  -- does, and nothing changes.
  pub no_game :
      (disk : Disk) (plid : Bytes) (now : ℕ) (c : Call)
      → c.store.games (game_fname plid) ≡ none
      → (att : Bytes) (trial : ℕ)
      → (attempt cal disk plid now att trial c ≡ (throw uncontextualized_game, c))
        × (quit_game cal disk plid now c ≡ (throw uncontextualized_game, c))
  unfolding attempt quit_game check_timedout_game refuse_code check_file
  no_game disk plid now c e att trial = (rw e, rw e)
