-- ===== src/Client/UdpCommands.antt =====
-- client/commands/udp_commands.cpp: the four handlers. What a handler catches and prints is its
-- result.
use rc.Base.{ltb, ◌==◌, if◌then◌else◌, Option, none, some, Bytes, codes}
use rc.Client.Input.{parse_player_id, parse_play_time, parse_key}
use rc.Client.State.{
  Console, Events, print, print_state, start_game, end_game, get_plid, new_attempt, save_attempt,
}
use rc.Client.UdpSocket.{Network, send_packet, receive_packet}
use rc.Constants.{secret_key_len}
use rc.Exceptions.{
  Exception, Result, return, throw, uncontextualized, bad_command, pending_game, dup_attempt,
  invalid_attempt, undefined_behaviour,
}
use rc.Store.{Op, ◌>>=◌, ◌>>◌, done, fail}
use rc.Text.Words.{In}
use rc.Udp.Parser.{Parser, run}
use rc.Udp.Replies.{
  Status, TryStatus, ReplyTryPacket, ReplyQuitPacket, decode_reply_start, decode_reply_try,
  decode_reply_quit, decode_reply_debug,
}
use rc.Udp.Requests.{
  StartNewGamePacket, TryPacket, QuitPacket, DebugPacket, encode_start, encode_try, encode_quit,
  encode_debug,
}

-- The `catch` clauses print what every exception says.
unfoldable pub reported : {S : Type 0} → Result (Unit {0}) × S → Result (Option Exception) × S
reported (return a, c) = (return none, c)
reported (throw undefined_behaviour, c) = (throw undefined_behaviour, c)
reported (throw e, c) = (return (some e), c)

-- The requests, as the lines before `sendPacket` fill them.
unfoldable pub start_request : Op In StartNewGamePacket
start_request = do
  plid ← parse_player_id
  time ← parse_play_time
  done (record { time = time; player_id = plid })

unfoldable pub debug_request : Op In DebugPacket
debug_request = do
  plid ← parse_player_id
  time ← parse_play_time
  key ← parse_key
  done (record { time = time; player_id = plid; key = key })

module _ {W : Type 0} where
  -- A value or an exception that leaves the console as it is.
  abbrev pub given : {A : Type 0} → Result A → Op (Console W) A
  given r c = (r, c)

  unfoldable pub playing : Op (Console W) (Unit {0})
  playing c = if c.game.is_game then (return tt, c) else (throw uncontextualized, c)

  unfoldable pub try_request : In → Op (Console W) TryPacket
  unfolding playing
  try_request input = do
    playing
    key ← given (parse_key input).0
    plid ← get_plid
    λ c. (return (record { trial = c.game.trial; player_id = plid; key = key }), c)

  unfoldable pub quit_request : Op (Console W) QuitPacket
  unfolding playing
  quit_request = do playing; plid ← get_plid; done (record { player_id = plid })

  -- What each handler does with the reply.
  unfoldable pub start_replied : StartNewGamePacket → Status → Op (Console W) (Unit {0})
  start_replied request Status.ok = do
    print (return started_text)
    start_game request.player_id none
    where
      started_text : Bytes
      started_text = codes "Game started!\n"
  start_replied request Status.nok = fail pending_game
  start_replied request Status.err = fail bad_command

  unfoldable pub try_ok : TryPacket → ReplyTryPacket → Op (Console W) (Unit {0})
  try_ok request reply = if ltb reply.trial request.trial then done tt else (do
    save_attempt request.key reply.blacks reply.whites
    if reply.blacks == secret_key_len
        then end_game request.key Events.won
        else (do _ ← new_attempt; print_state))

  unfoldable pub try_ended : TryPacket → ReplyTryPacket → Events → Op (Console W) (Unit {0})
  try_ended request reply event = do save_attempt request.key 0 0; end_game reply.key event

  unfoldable pub try_replied : TryPacket → TryStatus → ReplyTryPacket → Op (Console W) (Unit {0})
  unfolding try_ok try_ended
  try_replied request TryStatus.ok reply = try_ok request reply
  try_replied request TryStatus.dup reply = fail dup_attempt
  try_replied request TryStatus.inv reply = fail invalid_attempt
  try_replied request TryStatus.nok reply = fail uncontextualized
  try_replied request TryStatus.ent reply = try_ended request reply Events.lost_maxtrials
  try_replied request TryStatus.etm reply = try_ended request reply Events.lost_time
  try_replied request TryStatus.err reply = fail bad_command

  unfoldable pub quit_replied : Status → ReplyQuitPacket → Op (Console W) (Unit {0})
  quit_replied Status.ok reply = end_game reply.key Events.quit
  quit_replied Status.nok reply = fail uncontextualized
  quit_replied Status.err reply = fail bad_command

  unfoldable pub debug_replied : DebugPacket → Status → Op (Console W) (Unit {0})
  debug_replied request Status.ok = start_game request.player_id (some request.key)
  debug_replied request Status.nok = fail pending_game
  debug_replied request Status.err = done tt

-- The reply objects are not initialised before `decode` fills them.
module _ {W : Type 0} (net : Network W) (old_try : ReplyTryPacket)
    (old_quit : ReplyQuitPacket) where
  -- One packet out, and one reply in.
  unfoldable pub exchange : {A : Type 0} → Bytes → Parser A → Op (Console W) A
  unfolding send_packet receive_packet
  exchange packet decode = do
    send_packet net packet
    datagram ← receive_packet net
    given (run decode datagram)

  unfoldable pub start_new_game_handler : In → Op (Console W) (Option Exception)
  unfolding start_replied
  start_new_game_handler input c = reported (
      (do
        request ← given (start_request input).0
        reply ← exchange (encode_start request) decode_reply_start
        start_replied request reply.status)
        c)

  unfoldable pub try_handler : In → Op (Console W) (Option Exception)
  unfolding try_replied
  try_handler input c = reported (
      (do
        request ← try_request input
        reply ← exchange (encode_try request) (decode_reply_try old_try)
        try_replied request reply.status reply)
        c)

  unfoldable pub quit_handler : In → Op (Console W) (Option Exception)
  unfolding quit_replied
  quit_handler input c = reported (
      (do
        request ← quit_request
        reply ← exchange (encode_quit request) (decode_reply_quit old_quit)
        quit_replied reply.status reply)
        c)

  unfoldable pub debug_game_handler : In → Op (Console W) (Option Exception)
  unfolding debug_replied
  debug_game_handler input c = reported (
      (do
        request ← given (debug_request input).0
        reply ← exchange (encode_debug request) decode_reply_debug
        debug_replied request reply.status)
        c)
