-- ===== src/Tests/Commands.antt =====
-- One command of the client each, against the server or against a network that agrees.
use rc.Base.{Option}
use rc.Exceptions.{Exception, Result}
use rc.Play.InStep.{Knows}
use rc.Play.InStep.{IsOver}
use rc.Tests.Samples.{no_store, rgby}
use rc.Base.{[], ◌≡◌, refl, true, false, Bytes, codes, arith, some, none}
use rc.Client.Debug.{start_after_debug}
use rc.Client.Input.Accepts.{Checked, IsRefusal, requests-Checked}
use rc.Client.Input.{parse_key, parse_player_id, parse_play_time, read_short}
use rc.Client.State.{GameState, Console, started, new_state}
use rc.Client.UdpCommands.{
  start_request, debug_request, start_new_game_handler, try_handler, quit_handler,
  debug_game_handler, exchange,
}
use rc.Client.UdpSocket.{Network, checked, or_error}
use rc.Sockets.{Answer}
use rc.Exceptions.{return, throw, undefined_behaviour}
use rc.Play.InStep.{InStep, IsOver}
use rc.Play.Network.{World, server_net}
use rc.Play.Quits.{files_quit, quit_ends, late_try_ends}
use rc.Play.Starts.{start-InStep, debug-InStep}
use rc.Store.Games.Created.{new_session}
use rc.Store.Games.Ended.{timed_out}
use rc.Store.Games.{colors_of}
use rc.Store.Records.{GameMode}
use rc.Tests.Samples.{
  calendar, calendar-IsCalendar, player, rgby, rgop, game, game-IsGame, no_store, store_of,
  game-IsExpired,
}
use rc.Text.Decimal.{decimal}
use rc.Udp.Parser.{end_packet}
use rc.Text.Words.{read_char, read_int}
use rc.Udp.Replies.{Status, decode_reply_start}
use rc.Udp.Requests.Accepts.{IsStart, IsDebug}
use rc.Udp.Requests.{StartNewGamePacket, DebugPacket, encode_start}
use rc.Tests.Play.{
  old_try, old_quit, entropy, client, console, typed, client-Mirrors, console-InStep, rgop-typed,
}

abbrev idle : Console World
idle = record console {
  game = record client { is_game = false; finished = true };
  world = record { store = no_store; inbox = [] };
}

abbrev start_packet : StartNewGamePacket
start_packet = record { time = 600; player_id = codes "001234" }

start_typed : (start_request (typed (codes "1234 600"))).0 ≡ return start_packet
unfolding start_request parse_player_id parse_play_time read_int read_short decimal
start_typed = refl

abbrev after_start : Result (Option Exception) × Console World
after_start =
    start_new_game_handler (server_net calendar 1000 entropy) old_try old_quit
      (typed (codes "1234 600")) idle

start-InStep_example :
    (after_start.0 ≡ return none)
    × InStep calendar 1000 after_start.1
        (new_session (codes "001234") 1000 600 (colors_of entropy) GameMode.play)
    × Knows GameMode.play (colors_of entropy) after_start.1.game
start-InStep_example =
    start-InStep calendar 1000 (omega arith) entropy refl old_try old_quit idle
      (typed (codes "1234 600")) start_packet start_typed refl refl refl

abbrev debug_packet : DebugPacket
debug_packet = record { time = 337; player_id = codes "106485"; key = codes "BOBY" }

debug_typed : (debug_request (typed (codes "106485 337 boby"))).0 ≡ return debug_packet
unfolding debug_request parse_player_id parse_play_time parse_key read_int read_char read_short
    decimal
debug_typed = refl

abbrev debugged : Result (Option Exception) × Console World
debugged =
    debug_game_handler (server_net calendar 1000 entropy) old_try old_quit
      (typed (codes "106485 337 boby")) idle

debug-InStep_example :
    (debugged.0 ≡ return none)
    × InStep calendar 1000 debugged.1
        (new_session (codes "106485") 1000 337 (codes "BOBY") GameMode.debug)
    × Knows GameMode.debug (codes "BOBY") debugged.1.game
debug-InStep_example =
    debug-InStep calendar 1000 (omega arith) entropy refl old_try old_quit idle
      (typed (codes "106485 337 boby")) debug_packet debug_typed refl refl

quit_ends_example :
    ((quit_handler (server_net calendar 1010 entropy) old_try old_quit (some []) console).0
      ≡ return none)
    × IsOver
        (quit_handler (server_net calendar 1010 entropy) old_try old_quit (some []) console).1
        (game [])
        (files_quit calendar 1010 (game []) (store_of (game [])))
quit_ends_example =
    quit_ends calendar calendar-IsCalendar 1010 entropy old_try old_quit (some []) console (game [])
      console-InStep

late_try_ends_example :
    ((try_handler
        (server_net calendar 2000 entropy)
        old_try
        old_quit
        (typed (codes "r g Op"))
        console).0
      ≡ return none)
    × IsOver
        (try_handler
          (server_net calendar 2000 entropy)
          old_try
          old_quit
          (typed (codes "r g Op"))
          console).1
        (game [])
        (timed_out calendar (game []) 2000 (store_of (game [])))
late_try_ends_example =
    late_try_ends calendar calendar-IsCalendar 2000 entropy old_try old_quit
      (typed (codes "r g Op")) rgop console (game []) client-Mirrors game-IsGame game-IsExpired refl
      rgop-typed

requests-Checked_example :
    Checked IsStart IsRefusal (start_request (typed (codes "1234 600"))).0
    × Checked IsDebug IsRefusal (debug_request (typed (codes "1234 600"))).0
requests-Checked_example = requests-Checked (typed (codes "1234 600"))

-- A network on which every request is answered with `OK`.
abbrev agreeing : Network (Unit {0})
agreeing = record {
  sendto = λ d w. (Answer.ready tt, w);
  recvfrom = λ w. (Answer.ready (codes "RSG OK\n"), w);
}

debug_on : (started player (some rgby) (new_state false 0)).debug ≡ true
unfolding started
debug_on = refl

abbrev after_debug : Console (Unit {0})
after_debug = record {
  game = started player (some rgby) (new_state false 0);
  files = [];
  printed = [];
  world = tt;
}

agreed :
    exchange agreeing old_try old_quit (encode_start start_packet) decode_reply_start after_debug
    ≡ (return (record { status = Status.ok }), record after_debug { world = tt })
unfolding exchange decode_reply_start end_packet checked or_error
agreed = refl

start_after_debug_example :
    ((start_new_game_handler agreeing old_try old_quit (typed (codes "1234 600")) after_debug).0
      ≡ throw undefined_behaviour)
    × ((id key : Bytes) (g : GameState) → (started id (some key) g).debug ≡ true)
    × ((id : Bytes) (g : GameState) → (started id none g).debug ≡ g.debug)
start_after_debug_example =
    start_after_debug agreeing old_try old_quit (typed (codes "1234 600")) after_debug tt
      start_packet start_typed agreed debug_on
