-- ===== src/Tests/Samples.antt =====
-- A player, a calendar, keys and games for the tests.
use rc.Base.{ℕ, refl, [], List, Bytes, none, some, codes, arith, All, inl}
use rc.Base.Int.{pos}
use rc.Store.Files.{Call}
use rc.Store.Games.Active.{IsActive, update_self}
use rc.Store.Games.Attempts.{Fresh}
use rc.Store.Games.Ended.{IsExpired}
use rc.Store.Games.Invariant.{IsGame, game-IsSession}
use rc.Store.Games.Sound.{IsSound, IsSound-some}
use rc.Store.Records.Sessions.{Trial, Session, session_text, IsCalendar}
use rc.Store.Records.{GameMode}
use rc.Store.{Store, Calendar, update, game_fname}
use rc.Text.Decimal.{decimal, is_digit}
use rc.Text.Words.Reads.{decimal-IsWord, IsWord}
use rc.Udp.Parser.Reads.{IsKey, IsPlayerId}
use rc.Udp.Parser.{has_byte}

-- Dates and times printed as the number of seconds.
abbrev pub calendar : Calendar
calendar = record { date = decimal; clock = decimal; compact = decimal }

pub calendar-IsCalendar : IsCalendar calendar
calendar-IsCalendar = record { date_word = decimal-IsWord; clock_word = decimal-IsWord }

abbrev pub player : Bytes
player = codes "123456"

pub player-IsPlayerId : IsPlayerId player
unfolding is_digit
player-IsPlayerId = record {
  six = refl;
  digits = (refl, (refl, (refl, (refl, (refl, (refl, tt))))));
}

abbrev pub rgby : Bytes
rgby = codes "RGBY"

abbrev pub rgop : Bytes
rgop = codes "RGOP"

abbrev pub ybgr : Bytes
ybgr = codes "YBGR"

pub rgby-IsKey : IsKey rgby
unfolding has_byte
rgby-IsKey = record { four = refl; colors = (refl, (refl, (refl, (refl, tt)))) }

pub ybgr-IsKey : IsKey ybgr
unfolding has_byte
ybgr-IsKey = record { four = refl; colors = (refl, (refl, (refl, (refl, tt)))) }

pub rgop-IsKey : IsKey rgop
unfolding has_byte
rgop-IsKey = record { four = refl; colors = (refl, (refl, (refl, (refl, tt)))) }

abbrev pub game : List Trial → Session
game trials = record {
  plid = player;
  mode = GameMode.play;
  key = rgby;
  play_time = 600;
  start = 1000;
  trials = trials;
}

pub game-IsGame : IsGame (game [])
game-IsGame = record {
  player = player-IsPlayerId;
  secret = rgby-IsKey;
  limit = (omega arith, omega arith);
  int_start = omega arith;
  marked = tt;
  once = tt;
  room = omega arith;
}

abbrev pub trial : Bytes → Trial
trial key = record { att = key; blacks = 0; whites = 0; time = pos 7 }

abbrev pub no_store : Store
no_store = record { games = λ _. none; finished = λ _. []; scores = [] }

abbrev pub store_of : Session → Store
store_of g = record no_store {
  games = update (λ _. none) (game_fname player) (some (session_text calendar g));
}

abbrev pub call_of : Store → Call
call_of s = record { store = s; refs = record { blacks = 0; whites = 0; real_key = [] } }

pub call-Fresh : (s : Store) → Fresh ((call_of s).refs)
call-Fresh s = record { blacks_zero = refl; whites_zero = refl }

pub no_store-IsSound : (now : ℕ) → IsSound calendar now no_store.games
no_store-IsSound now plid v = inl refl

pub store-IsSound : IsSound calendar 1010 (store_of (game [])).games
store-IsSound =
    IsSound-some calendar 1010 no_store.games (no_store-IsSound 1010) (game []) game-IsGame
      (omega arith)

pub game-IsActive :
    (trials : List Trial)
    → All (λ t. IsWord t.att) trials
    → IsActive calendar (game trials) 1010 (store_of (game trials))
game-IsActive trials h = record {
  session = record {
    plid_word = (game-IsSession (game []) game-IsGame).plid_word;
    key_word = (game-IsSession (game []) game-IsGame).key_word;
    time_fits = omega arith;
    start_fits = omega arith;
    att_words = h;
  };
  file =
      update_self no_store.games (game_fname player) (some (session_text calendar (game trials)));
  begun = omega arith;
  in_time = omega arith;
  short = omega arith;
  int_time = omega arith;
}

pub game-IsExpired : IsExpired calendar (game []) 2000 (store_of (game []))
game-IsExpired = record {
  session = game-IsSession (game []) game-IsGame;
  file = update_self no_store.games (game_fname player) (some (session_text calendar (game [])));
  late = omega arith;
  short = omega arith;
  int_time = omega arith;
}

pub game-IsActive_at_start : IsActive calendar (game []) 1000 (store_of (game []))
game-IsActive_at_start = record {
  session = game-IsSession (game []) game-IsGame;
  file = update_self no_store.games (game_fname player) (some (session_text calendar (game [])));
  begun = omega arith;
  in_time = omega arith;
  short = omega arith;
  int_time = omega arith;
}
