-- ===== src/Store/Games/Active.antt =====
-- An active game in time: what the first steps of each operation find, and how its file changes.
use mathlib.Core.Path.{fun_ext}
use rc.Base.{
  ℕ, ◌+◌, ◌-◌, ◌≤◌, ◌<◌, Bool, true, false, ◌||◌, List, [], ◌∷◌, ◌++◌, ◌≡◌, refl, ap, sym, ◌∙◌,
  arith, Bytes, bytes_eq, bytes_eq_refl, none, some, length, append_assoc, append-nil,
}
use rc.Base.Int.{ℤ, pos, ltb_ℤ, ◌-ℤ◌, to_int}
use rc.Constants.{play_time_max}
use rc.Exceptions.{return}
use rc.Store.Files.{Call, append_game, rename_game, end_game, finished_fname, ending_text}
use rc.Store.Games.{check_timedout_game, expire}
use rc.Store.Records.Sessions.{
  Trial, Session, trials_text, session_text, IsCalendar, IsSession, parse_header-session_text,
  see_trials, see_trial,
}
use rc.Store.Records.{Endings, Seen, attempt_create, game_create}
use rc.Store.{Store, Calendar, Disk, resume, update, put, game_fname}

-- Every access to the disk succeeds.
abbrev pub working : Disk
working = record { reads = true; writes = true; renames = true; saves_score = true }

pub update-update :
    {A : Type 0} (f : Bytes → A) (k : Bytes) (v w : A) → update (update f k v) k w ≡ update f k w
update-update f k v w = fun_ext λ j. go j
  where
    go : (j : Bytes) → update (update f k v) k w j ≡ update f k w j
    go j = ground arith

pub update_self : {A : Type 0} (f : Bytes → A) (k : Bytes) (v : A) → update f k v k ≡ v
update_self f k v = rw (bytes_eq_refl k)

-- The last attempt's key, and the empty one before the first attempt.
abbrev pub last_att : Bytes → List Trial → Bytes
last_att old [] = old
last_att old (t ∷ ts) = last_att t.att ts

-- Whether a key has been tried.
abbrev pub tried : Bytes → List Trial → Bool
tried att [] = false
tried att (t ∷ ts) = bytes_eq att t.att || tried att ts

pub see_trials_lem :
    (att : Bytes) (ts : List Trial) (v : Seen)
    → see_trials att ts v ≡ record {
      atts = v.atts + length ts;
      last_att = last_att v.last_att ts;
      dup = tried att ts || v.dup;
    }
see_trials_lem att [] v = ground arith
see_trials_lem att (t ∷ ts) v = see_trials_lem att ts (see_trial att v t) ∙ ground arith

trials_text-append :
    (ts us : List Trial) → trials_text (ts ++ us) ≡ trials_text ts ++ trials_text us
unfolding trials_text
trials_text-append [] us = refl
trials_text-append (t ∷ ts) us = simp (trials_text-append ts us, append_assoc)

-- A game with one more attempt.
abbrev pub tried_once : Session → Trial → Session
tried_once g t = record g { trials = g.trials ++ t ∷ [] }

pub session_text-tried_once :
    (cal : Calendar) (g : Session) (t : Trial)
    → session_text cal g ++ attempt_create t.att t.blacks t.whites t.time
      ≡ session_text cal (tried_once g t)
unfolding session_text trials_text
session_text-tried_once cal g t =
    rw (append_assoc, trials_text-append g.trials (t ∷ []))
      (ap
        (λ x.
          game_create cal g.plid g.play_time g.mode g.start g.key ++ (trials_text g.trials ++ x))
        (sym (append-nil (attempt_create t.att t.blacks t.whites t.time))))

-- The player's game is `g`, and it is still in time.
pub record IsActive (cal : Calendar) (g : Session) (now : ℕ) (s : Store) : Type 0 where
  pub session : IsSession g
  pub file : s.games (game_fname g.plid) ≡ some (session_text cal g)
  pub begun : g.start ≤ now
  pub in_time : now < g.start + g.play_time
  pub short : g.play_time ≤ play_time_max
  pub int_time : now ≤ 2147483647

-- The elapsed time of such a game is found, and nothing changes.
module _ (cal : Calendar) (ok_cal : IsCalendar cal) where
  in_time_lem :
      (start now play_time : ℕ)
      → start ≤ now
      → now < start + play_time
      → play_time ≤ play_time_max
      → now ≤ 2147483647
      → (to_int now -ℤ pos start ≡ pos (now - start))
        × (ltb_ℤ (pos (now - start)) (to_int play_time) ≡ true)
  in_time_lem start now play_time a b c d = (ground arith, ground arith)

  pub check_active :
      (g : Session) (now : ℕ) (revealed : Bool) (c : Call)
      → IsActive cal g now c.store
      → check_timedout_game cal working revealed g.plid now c ≡ (return (pos (now - g.start)), c)
  unfolding check_timedout_game expire
  check_active g now revealed c a =
      let (elapsed, early) =
        in_time_lem g.start now g.play_time a.begun a.in_time a.short a.int_time in
      rw (a.file, parse_header-session_text cal ok_cal g a.session, elapsed, early)

-- The files once the active game of a player, whose file holds `text`, has ended.
abbrev pub ended : Calendar → Bytes → Endings → ℕ → ℤ → Bytes → Store → Store
ended cal plid reason tstamp used_time text s = record s {
  games = update s.games (game_fname plid) none;
  finished = update s.finished plid (
      put (finished_fname cal working tstamp reason)
        (text ++ ending_text cal working tstamp used_time reason) (s.finished plid));
}

module _ (cal : Calendar) where
  pub append_game_lem :
      (fname text file : Bytes) (c : Call)
      → c.store.games fname ≡ some file
      → append_game cal working fname text c ≡ (
        return tt,
        record c {
          store = record (c.store) { games = update c.store.games fname (some (file ++ text)) };
        },
      )
  unfolding append_game
  append_game_lem fname text file c e = rw e

  rename_game_lem :
      (plid from to file : Bytes) (c : Call)
      → c.store.games from ≡ some file
      → rename_game cal working plid from to c ≡ (
        return tt,
        record c {
          store = record (c.store) {
            games = update c.store.games from none;
            finished = update c.store.finished plid (put to file (c.store.finished plid));
          };
        },
      )
  unfolding rename_game
  rename_game_lem plid from to file c e = rw e

  -- Ending a game moves its file, with the last line appended, to the player's directory.
  pub end_game_lem :
      (plid file : Bytes) (reason : Endings) (tstamp : ℕ) (used_time : ℤ) (c : Call)
      → c.store.games (game_fname plid) ≡ some file
      → end_game cal working plid reason tstamp used_time c
        ≡ (return tt, record c { store = ended cal plid reason tstamp used_time file c.store })
  unfolding end_game
  end_game_lem plid file reason tstamp used_time c e =
      let name = game_fname plid in
      let target = finished_fname cal working tstamp reason in
      let text = ending_text cal working tstamp used_time reason in
      let written : Call = record c {
        store = record (c.store) { games = update c.store.games name (some (file ++ text)) };
      } in
      ap (λ r. resume r (λ _. rename_game cal working plid name target))
        (append_game_lem name text file c e)
      ∙ rename_game_lem plid name target (file ++ text) written
          (update_self c.store.games name (some (file ++ text)))
      ∙ ap
          (λ u. (
            return tt,
            record c {
              store = record (c.store) {
                games = u;
                finished =
                    update c.store.finished plid
                      (put target (file ++ text) (c.store.finished plid));
              };
            },
          ))
          (update-update c.store.games name (some (file ++ text)) none)
