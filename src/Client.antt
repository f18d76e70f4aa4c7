-- ===== src/Client.antt =====
-- client/Client.cpp: which command the next line of input runs. `printHelp` only prints.
pub mod State
pub mod Shown
pub mod Input
pub mod UdpSocket
pub mod Sockets
pub mod UdpCommands
pub mod Moves
pub mod Debug
pub mod TcpCommands
use rc.Base.{
  ℕ, ◌+◌, ◌∷◌, [], leb, ◌&&◌, ◌||◌, Bool, true, false, Bytes, bytes_eq, codes, Option, none, some,
  if◌then◌else◌, map,
}
use rc.Client.State.{Console}
use rc.Client.TcpCommands.{Connection, show_trials_handler, show_scoreboard_handler}
use rc.Client.UdpCommands.{start_new_game_handler, try_handler, quit_handler, debug_game_handler}
use rc.Client.UdpSocket.{Network}
use rc.Exceptions.{Exception, Result, return, throw, unexpected_command}
use rc.Store.{Op, done}
use rc.Tcp.Packets.{ReplyShowTrialsPacket, ReplyShowScoreboardPacket}
use rc.Text.Words.{In, read_word}
use rc.Udp.Replies.{ReplyTryPacket, ReplyQuitPacket}

-- `std::tolower` in the C locale.
unfoldable pub to_lower : ℕ → ℕ
to_lower c = if leb b'A' c && leb c b'Z' then c + 32 else c

-- How `getNextCommand` leaves the loop: whether `exit` is set, and what was caught and printed.
pub record Turn : Type 0 where
  pub exit : Bool
  pub caught : Option Exception

-- What the reply objects of the handlers hold before a packet is read into them.
pub record Uninitialised : Type 0 where
  pub reply_try : ReplyTryPacket
  pub reply_quit : ReplyQuitPacket
  pub reply_trials : ReplyShowTrialsPacket
  pub reply_scoreboard : ReplyShowScoreboardPacket

abbrev with_exit : {S : Type 0} → Bool → Result (Option Exception) × S → Result Turn × S
with_exit exit (return e, s) = (return (record { exit = exit; caught = e }), s)
with_exit exit (throw e, s) = (throw e, s)

module _ {W : Type 0} (net : Network W) (conn : Connection W) (saves : Bool)
    (old : Uninitialised) where
  -- The maps from command names to handlers; a name in neither is an exception, caught and printed.
  unfoldable pub handle_command : Bytes → In → Op (Console W) (Option Exception)
  unfolding bytes_eq
  handle_command command_id input =
      if bytes_eq command_id (codes "start")
      then start_new_game_handler net old.reply_try old.reply_quit input
      else if bytes_eq command_id (codes "try")
      then try_handler net old.reply_try old.reply_quit input
      else if bytes_eq command_id (codes "quit")
      then quit_handler net old.reply_try old.reply_quit input
      else if bytes_eq command_id (codes "debug")
      then debug_game_handler net old.reply_try old.reply_quit input
      else if bytes_eq command_id (codes "show_trials") || bytes_eq command_id (codes "st")
      then show_trials_handler conn saves old.reply_trials
      else if bytes_eq command_id (codes "scoreboard") || bytes_eq command_id (codes "sb")
      then show_scoreboard_handler conn saves old.reply_scoreboard
      else done (some unexpected_command)

  -- `exit` quits an active game first.
  unfoldable pub run_command : Bytes → In → Op (Console W) Turn
  unfolding bytes_eq
  run_command command_id input c =
      if bytes_eq command_id (codes "exit")
      then with_exit true (
          if c.game.is_game
          then quit_handler net old.reply_try old.reply_quit input c
          else (return none, c))
      else if bytes_eq command_id (codes "?")
      then (return (record { exit = false; caught = none }), c)
      else with_exit false (handle_command command_id input c)

  -- `line` is what the user has typed, without its newline.
  unfoldable pub get_next_command : Bytes → Op (Console W) Turn
  unfolding run_command to_lower
  get_next_command line =
      let (command_id, input) = read_word [] (some line) in
      run_command (map to_lower command_id) input
