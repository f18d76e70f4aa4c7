-- ===== src/Tests/Play.antt =====
-- A client against the server, and its commands.
use rc.Base.{
  inl, ℕ, ◌+◌, arith, [], ◌∷◌, ◌≡◌, refl, true, false, List, Bytes, codes, some, bytes_eq,
}
use rc.Client.Input.{parse_key}
use rc.Client.State.{GameState, Console}
use rc.Client.UdpCommands.{try_handler}
use rc.Exceptions.{return}
use rc.Play.Ends.{Line, AreInTime, AreKeys, AreNew, tries, tries_end}
use rc.Play.Follows.{try_handler-Follows}
use rc.Play.InStep.{Mirrors, InStep, IsOver}
use rc.Play.Network.{World, server_net}
use rc.Play.Rules.{rules, Follows}
use rc.Store.{Store}
use rc.Tests.Samples.{
  calendar, calendar-IsCalendar, player, rgop, game, game-IsGame, store_of, game-IsActive,
}
use rc.Text.Words.{In, read_char}
use rc.Udp.Replies.{Status, TryStatus, ReplyTryPacket, ReplyQuitPacket}

abbrev pub old_try : ReplyTryPacket
old_try = record { status = TryStatus.err; trial = 77; whites = 1; blacks = 2; key = [] }

abbrev pub old_quit : ReplyQuitPacket
old_quit = record { status = Status.err; key = [] }

abbrev pub entropy : Bytes
entropy = 7 ∷ 255 ∷ 12 ∷ 4 ∷ []

-- A client that has started the sample game.
abbrev pub client : GameState
client = record {
  is_game = true;
  finished = false;
  debug = false;
  unicode = false;
  trial = 1;
  plid = player;
  guesses = [];
  feedback = [];
  key = [];
}

abbrev pub console : Console World
console = record {
  game = client;
  files = [];
  printed = [];
  world = record { store = store_of (game []); inbox = [] };
}

pub client-Mirrors : Mirrors client (game [])
client-Mirrors = record {
  playing = refl;
  unfinished = refl;
  player = refl;
  counted = refl;
  guessed = refl;
  marked = refl;
  keyed = inl refl;
}

pub console-InStep : InStep calendar 1010 console (game [])
console-InStep = record {
  mirror = client-Mirrors;
  game = game-IsGame;
  active = game-IsActive [] tt;
  empty = refl;
}

abbrev pub typed : Bytes → In
typed s = some (b' ' ∷ s)

pub rgop-typed : (parse_key (typed (codes "r g Op"))).0 ≡ return rgop
unfolding parse_key read_char
rgop-typed = refl

try_handler-Follows_example :
    Follows calendar 1010 (store_of (game [])) (game []) rgop (rules (game []) rgop) (
      try_handler
        (server_net calendar 1010 entropy)
        old_try
        old_quit
        (typed (codes "r g Op"))
        console)
try_handler-Follows_example =
    try_handler-Follows calendar calendar-IsCalendar 1010 entropy old_try old_quit console (game [])
      console-InStep (typed (codes "r g Op")) rgop rgop-typed

-- Eight different keys, the last of which is the secret one.
abbrev eight : List Bytes
eight =
    codes "RRRR"
    ∷ codes "GGGG"
    ∷ codes "BBBB"
    ∷ codes "YYYY"
    ∷ codes "OOOO"
    ∷ codes "PPPP"
    ∷ codes "RGOP"
    ∷ codes "RGBY"
    ∷ []

-- One key every minute.
abbrev lines : ℕ → List Bytes → List Line
lines now [] = []
lines now (s ∷ ss) =
    record { now = now; input = typed s; old_try = old_try; old_quit = old_quit; bytes = entropy }
    ∷ lines (now + 60) ss

eight_typed : AreKeys (lines 1010 eight) eight
unfolding parse_key read_char
eight_typed = (refl, (refl, (refl, (refl, (refl, (refl, (refl, (refl, tt))))))))

eight_new : AreNew [] eight
unfolding bytes_eq
eight_new = (
  refl,
  (refl, (refl, (refl, (refl, (refl, (refl, (refl, tt))))))),
  (
    refl,
    (refl, (refl, (refl, (refl, (refl, (refl, tt)))))),
    (
      refl,
      (refl, (refl, (refl, (refl, (refl, tt))))),
      (
        refl,
        (refl, (refl, (refl, (refl, tt)))),
        (
          refl,
          (refl, (refl, (refl, tt))),
          (refl, (refl, (refl, tt)), (refl, (refl, tt), (refl, tt, tt))),
        ),
      ),
    ),
  ),
)

eight_in_time : AreInTime 1600 1010 (lines 1010 eight)
eight_in_time = (
  omega arith,
  omega arith,
  omega arith,
  (
    omega arith,
    omega arith,
    omega arith,
    (
      omega arith,
      omega arith,
      omega arith,
      (
        omega arith,
        omega arith,
        omega arith,
        (
          omega arith,
          omega arith,
          omega arith,
          (
            omega arith,
            omega arith,
            omega arith,
            (omega arith, omega arith, omega arith, (omega arith, omega arith, omega arith, tt)),
          ),
        ),
      ),
    ),
  ),
)

tries_end_example :
    (files : Store) × IsOver (tries calendar (lines 1010 eight) console) (game []) files
tries_end_example =
    tries_end calendar calendar-IsCalendar (lines 1010 eight) eight 1010 console (game [])
      console-InStep eight_typed eight_in_time eight_new refl
