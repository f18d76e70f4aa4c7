-- ===== src/Server/UdpCommands.antt =====
-- server/commands/udp_commands.cpp: the four handlers. Each takes the stream behind the packet's
-- identifier and leaves a reply; what it writes to the log is left out.
use rc.Base.{ℕ, [], Bytes, Option, none, some}
use rc.Exceptions.{
  Result, return, throw, ongoing_game, uncontextualized_game, invalid_trial, duplicate_trial,
  exceeded_max_trials, timedout_game, undefined_behaviour,
}
use rc.Store.Files.{Refs, Call}
use rc.Store.Games.{create_game, quit_game, attempt}
use rc.Store.{Store, Calendar, Disk}
use rc.Udp.Parser.{Stream}
use rc.Udp.Replies.{
  Status, TryStatus, ReplyStartGamePacket, ReplyTryPacket, ReplyQuitPacket, ReplyDebugPacket,
  encode_reply_start, encode_reply_try, encode_reply_quit, encode_reply_debug,
}
use rc.Udp.Requests.{
  StartNewGamePacket, TryPacket, QuitPacket, DebugPacket, decode_start, decode_try, decode_quit,
  decode_debug,
}

-- The packets behind a `std::unique_ptr<UdpPacket>` that the server sends.
pub data UdpPacket : Type 0 where
  reply_start : ReplyStartGamePacket → UdpPacket
  reply_try : ReplyTryPacket → UdpPacket
  reply_quit : ReplyQuitPacket → UdpPacket
  reply_debug : ReplyDebugPacket → UdpPacket

-- The virtual `encode`.
unfoldable pub encode : UdpPacket → Bytes
encode (UdpPacket.reply_start p) = encode_reply_start p
encode (UdpPacket.reply_try p) = encode_reply_try p
encode (UdpPacket.reply_quit p) = encode_reply_quit p
encode (UdpPacket.reply_debug p) = encode_reply_debug p

-- The variables of a handler at its start: `std::make_unique` has set the numbers to 0.
abbrev pub fresh_refs : Refs
fresh_refs = record { blacks = 0; whites = 0; real_key = [] }

abbrev pub fresh_call : Store → Call
fresh_call store = record { store = store; refs = fresh_refs }

-- The status of a reply to `SNG` and `DBG`: the `catch` clauses in their order.
unfoldable pub create_status : Result Bytes → Result Status
create_status (return a) = return Status.ok
create_status (throw ongoing_game) = return Status.nok
create_status (throw undefined_behaviour) = throw undefined_behaviour
create_status (throw e) = return Status.err

unfoldable pub start_reply : Result Status → Result UdpPacket
start_reply (return s) = return (UdpPacket.reply_start (record { status = s }))
start_reply (throw e) = throw e

unfoldable pub debug_reply : Result Status → Result UdpPacket
debug_reply (return s) = return (UdpPacket.reply_debug (record { status = s }))
debug_reply (throw e) = throw e

abbrev only : TryStatus → Refs → Bytes → ReplyTryPacket
only s r key = record { status = s; trial = 0; whites = r.whites; blacks = r.blacks; key = key }

-- The reply to `TRY`, with the pegs and the key that the variables of the call hold; `encode` writes
-- those that belong to the status.
unfoldable pub try_reply : Result ℕ → Refs → Result UdpPacket
try_reply (return n) r = return (
    UdpPacket.reply_try
      (record { status = TryStatus.ok; trial = n; whites = r.whites; blacks = r.blacks; key = [] }))
try_reply (throw duplicate_trial) r = return (UdpPacket.reply_try (only TryStatus.dup r []))
try_reply (throw invalid_trial) r = return (UdpPacket.reply_try (only TryStatus.inv r []))
try_reply (throw uncontextualized_game) r = return (UdpPacket.reply_try (only TryStatus.nok r []))
try_reply (throw exceeded_max_trials) r =
    return (UdpPacket.reply_try (only TryStatus.ent r r.real_key))
try_reply (throw timedout_game) r = return (UdpPacket.reply_try (only TryStatus.etm r r.real_key))
try_reply (throw undefined_behaviour) r = throw undefined_behaviour
try_reply (throw e) r = return (UdpPacket.reply_try (only TryStatus.err r []))

unfoldable pub quit_reply : Result Bytes → Result UdpPacket
quit_reply (return key) = return (UdpPacket.reply_quit (record { status = Status.ok; key = key }))
quit_reply (throw uncontextualized_game) =
    return (UdpPacket.reply_quit (record { status = Status.nok; key = [] }))
quit_reply (throw undefined_behaviour) = throw undefined_behaviour
quit_reply (throw e) = return (UdpPacket.reply_quit (record { status = Status.err; key = [] }))

module _ (cal : Calendar) (disk : Disk) (now : ℕ) where
  -- Where `decode` threw, the store is not touched.
  unfoldable pub start_decoded :
      Option Bytes → Result (StartNewGamePacket × Stream) → Store → Result UdpPacket × Store
  start_decoded entropy (return (request, rest)) store =
      let r =
        create_game cal disk request.player_id now request.time none entropy (fresh_call store) in
      (start_reply (create_status r.0), r.1.store)
  start_decoded entropy (throw e) store = (start_reply (create_status (throw e)), store)

  unfoldable pub start_new_game_handler : Option Bytes → Stream → Store → Result UdpPacket × Store
  start_new_game_handler entropy packet store = start_decoded entropy (decode_start packet) store

  unfoldable pub try_decoded : Result (TryPacket × Stream) → Store → Result UdpPacket × Store
  try_decoded (return (request, rest)) store =
      let r = attempt cal disk request.player_id now request.key request.trial (fresh_call store) in
      (try_reply r.0 r.1.refs, r.1.store)
  try_decoded (throw e) store = (try_reply (throw e) fresh_refs, store)

  unfoldable pub try_handler : Stream → Store → Result UdpPacket × Store
  try_handler packet store = try_decoded (decode_try packet) store

  unfoldable pub quit_decoded : Result (QuitPacket × Stream) → Store → Result UdpPacket × Store
  quit_decoded (return (request, rest)) store =
      let r = quit_game cal disk request.player_id now (fresh_call store) in
      (quit_reply r.0, r.1.store)
  quit_decoded (throw e) store = (quit_reply (throw e), store)

  unfoldable pub quit_handler : Stream → Store → Result UdpPacket × Store
  quit_handler packet store = quit_decoded (decode_quit packet) store

  unfoldable pub debug_decoded : Result (DebugPacket × Stream) → Store → Result UdpPacket × Store
  debug_decoded (return (request, rest)) store =
      let r =
        create_game cal disk request.player_id now request.time (some request.key) none
          (fresh_call store) in
      (debug_reply (create_status r.0), r.1.store)
  debug_decoded (throw e) store = (debug_reply (create_status (throw e)), store)

  unfoldable pub debug_game_handler : Stream → Store → Result UdpPacket × Store
  debug_game_handler packet store = debug_decoded (decode_debug packet) store
