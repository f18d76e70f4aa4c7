-- ===== src/Udp/Requests/RoundTrip.antt =====
-- The server reads back what the client encodes: identifier and packet.
use rc.Base.{ℕ, ◌≤◌, ◌<◌, ◌≡◌, false, [], arith}
use rc.Constants.{play_time_max, uint32_max, secret_key_len}
use rc.Exceptions.{return}
use rc.Text.Decimal.{newline-Ends}
use rc.Udp.Parser.Reads.{
  IsPlayerId, IsKey, next-space, end_packet-newline, parse_uint-decimal, parse_player_id-append,
  parse_key-spaced, spaced-Ends,
}
use rc.Udp.Parser.{run, identified, parse_packet_id}
use rc.Udp.Requests.{
  StartNewGamePacket, TryPacket, QuitPacket, DebugPacket, sng, try_id, qut, dbg, to_ushort,
  bad_time, decode_start, encode_start, decode_try, encode_try, decode_quit, encode_quit,
  decode_debug, encode_debug,
}

-- A time that `SNG` and `DBG` may carry.
abbrev pub IsPlayTime : ℕ → Type 0
IsPlayTime t = (0 < t) × (t ≤ play_time_max)

bad_time-IsPlayTime : (t : ℕ) → IsPlayTime t → bad_time t ≡ false
unfolding bad_time
bad_time-IsPlayTime t h = ground arith

to_ushort-IsPlayTime : (t : ℕ) → IsPlayTime t → to_ushort t ≡ t
unfolding to_ushort
to_ushort-IsPlayTime t h = omega arith

-- Whatever `SNG` packet a client encodes, with a player id of six digits and a time from 1 to 600,
-- the server reads back with its identifier.
pub decode_start-encode_start :
    (p : StartNewGamePacket)
    → IsPlayerId p.player_id
    → IsPlayTime p.time
    → run (identified decode_start) (encode_start p) ≡ return (sng, p)
unfolding decode_start encode_start parse_packet_id
decode_start-encode_start p v t = rw (
  next-space,
  parse_player_id-append p.player_id _ _ v,
  next-space,
  parse_uint-decimal p.time _ _ (newline-Ends []) (omega arith),
  to_ushort-IsPlayTime p.time t,
  bad_time-IsPlayTime p.time t,
  end_packet-newline,
)

-- Whatever `TRY` packet a client encodes, with a player id of six digits, a key of four colours and
-- any 32-bit trial number, the server reads back with its identifier.
pub decode_try-encode_try :
    (p : TryPacket)
    → IsPlayerId p.player_id
    → IsKey p.key
    → p.trial ≤ uint32_max
    → run (identified decode_try) (encode_try p) ≡ return (try_id, p)
unfolding decode_try encode_try parse_packet_id
decode_try-encode_try p v k n = rw (
  next-space,
  parse_player_id-append p.player_id _ _ v,
  parse_key-spaced p.key _ _ k,
  next-space,
  parse_uint-decimal p.trial _ _ (newline-Ends []) n,
  end_packet-newline,
)

-- Whatever `QUT` packet a client encodes, with a player id of six digits, the server reads back with
-- its identifier.
pub decode_quit-encode_quit :
    (p : QuitPacket)
    → IsPlayerId p.player_id
    → run (identified decode_quit) (encode_quit p) ≡ return (qut, p)
unfolding decode_quit encode_quit parse_packet_id
decode_quit-encode_quit p v =
    rw (next-space, parse_player_id-append p.player_id _ _ v, end_packet-newline)

-- Whatever `DBG` packet a client encodes, with a player id of six digits, a time from 1 to 600 and a
-- key of four colours, the server reads back with its identifier.
pub decode_debug-encode_debug :
    (p : DebugPacket)
    → IsPlayerId p.player_id
    → IsPlayTime p.time
    → IsKey p.key
    → run (identified decode_debug) (encode_debug p) ≡ return (dbg, p)
unfolding decode_debug encode_debug parse_packet_id
decode_debug-encode_debug p v t k = rw (
  next-space,
  parse_player_id-append p.player_id _ _ v,
  next-space,
  parse_uint-decimal p.time _ _ (spaced-Ends secret_key_len p.key _ (newline-Ends []))
      (omega arith),
  bad_time-IsPlayTime p.time t,
  parse_key-spaced p.key _ _ k,
  end_packet-newline,
)
