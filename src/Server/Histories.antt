-- ===== src/Server/Histories.antt =====
-- What the server's loop makes of any sequence of datagrams.
use rc.Base.{ℕ, ◌≤◌, ◌≡◌, Bytes, Option, none, some, length, inl, inr, ◌⊎◌, arith}
use rc.Constants.{secret_key_len}
use rc.Server.Keeps.{run_udp_keeps}
use rc.Server.{run_udp}
use rc.Store.Games.Active.{working}
use rc.Store.Games.Sound.{InPlay, IsSound}
use rc.Store.Records.Sessions.{IsCalendar}
use rc.Store.{Store, Calendar, game_fname}

-- The files that the loop can come to, and the time of its last turn: it starts without games, each
-- turn takes one datagram of any bytes, and the clock does not run backwards.
pub data Reached (cal : Calendar) : ℕ → Store → Type 0 where
  start : (s : Store) → ((plid : Bytes) → s.games (game_fname plid) ≡ none) → Reached cal 0 s
  turn :
      (now later : ℕ) (s : Store) (bytes datagram : Bytes)
      → Reached cal now s
      → now ≤ later
      → later ≤ 2147483647
      → length bytes ≡ secret_key_len
      → Reached cal later (run_udp cal working later (some bytes) datagram s).1

pub later-IsSound :
    (cal : Calendar) (now later : ℕ) (games : Bytes → Option Bytes)
    → now ≤ later
    → IsSound cal now games
    → IsSound cal later games
later-IsSound cal now later games h sound plid v = go (sound plid v)
  where
    go :
        (games (game_fname plid) ≡ none) ⊎ InPlay cal now plid games
        → (games (game_fname plid) ≡ none) ⊎ InPlay cal later plid games
    go (inl e) = inl e
    go (inr i) = inr (record {
      session = i.session;
      same = i.same;
      game = i.game;
      begun = let begun = i.begun in omega (arith, begun, h);
      file = i.file;
    })

-- Whatever datagrams arrive from a start without games, on a disk that works and with a clock
-- below 2 ^ 31 that does not run backwards, every player is left with no game or with one in
-- order: its file is the text of a game with less than eight attempts, all different, none of
-- them the secret key, and each recorded with its true pegs.
pub Reached-IsSound :
    (cal : Calendar)
    → IsCalendar cal
    → (now : ℕ) (s : Store) → Reached cal now s
    → IsSound cal now s.games
Reached-IsSound cal ok_cal now s (Reached.start t empty) = λ plid v. inl (empty plid)
Reached-IsSound cal ok_cal now s
      (Reached.turn before later t bytes datagram r forward int_now four) =
    let sound = Reached-IsSound cal ok_cal before t r in
    (run_udp_keeps cal ok_cal later int_now bytes four t
      (later-IsSound cal before later t.games forward sound) datagram).0
