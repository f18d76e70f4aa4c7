-- ===== src/Tests/Packets.antt =====
-- Packets of sample requests and replies.
use rc.Base.{◌≡◌, [], arith}
use rc.Exceptions.{return}
use rc.Tests.Samples.{player, player-IsPlayerId, rgby, ybgr}
use rc.Udp.Parser.{run, identified}
use rc.Udp.Replies.{Status, TryStatus, ReplyTryPacket, ReplyQuitPacket}
use rc.Udp.Requests.Accepts.{decode_start_wraps}
use rc.Udp.Requests.{
  StartNewGamePacket, TryPacket, QuitPacket, DebugPacket, decode_start, encode_start, sng,
}

abbrev start_600 : StartNewGamePacket
start_600 = record { time = 600; player_id = player }

abbrev start_long : StartNewGamePacket
start_long = record { time = 65541; player_id = player }

abbrev third_try : TryPacket
third_try = record { trial = 3; player_id = player; key = rgby }

abbrev quit : QuitPacket
quit = record { player_id = player }

abbrev debug : DebugPacket
debug = record { time = 1; player_id = player; key = rgby }

abbrev debug_long : DebugPacket
debug_long = record { time = 65541; player_id = player; key = rgby }

decode_start_wraps_example :
    run (identified decode_start) (encode_start start_long)
    ≡ return (sng, record start_long { time = 5 })
decode_start_wraps_example =
    decode_start_wraps start_long player-IsPlayerId (omega arith) (omega arith, omega arith)

abbrev lost : ReplyTryPacket
lost = record { status = TryStatus.ent; trial = 0; whites = 0; blacks = 0; key = rgby }

abbrev empty_reply : ReplyTryPacket
empty_reply = record { status = TryStatus.ok; trial = 0; whites = 0; blacks = 0; key = [] }

abbrev quit_done : ReplyQuitPacket
quit_done = record { status = Status.ok; key = ybgr }

abbrev empty_quit : ReplyQuitPacket
empty_quit = record { status = Status.err; key = [] }
