-- ===== src/Udp/Requests/Accepts.antt =====
-- What the request decoders accept, whatever bytes arrive.
use rc.Base.{ℕ, ◌%◌, ◌^◌, ◌≤◌, ◌<◌, ◌≡◌, refl, true, false, [], arith}
use rc.Constants.{play_time_max, uint32_max, secret_key_len}
use rc.Exceptions.{return, throw, invalid_packet}
use rc.Text.Decimal.{newline-Ends}
use rc.Udp.Parser.Accepts.{
  Ensures, Ensures-bind, Ensures-if, Ensures-yield, Ensures-refuse, next-Ensures,
  end_packet-Ensures, Any, parse_player_id-Ensures, parse_uint-Ensures, parse_key-Ensures,
}
use rc.Udp.Parser.Reads.{
  IsPlayerId, IsKey, next-space, end_packet-newline, parse_uint-decimal, parse_player_id-append,
  spaced-Ends,
}
use rc.Udp.Parser.{run, identified, parse_packet_id}
use rc.Udp.Requests.RoundTrip.{IsPlayTime}
use rc.Udp.Requests.{
  StartNewGamePacket, TryPacket, QuitPacket, DebugPacket, sng, to_ushort, bad_time, decode_start,
  encode_start, decode_try, decode_quit, decode_debug, encode_debug,
}

abbrev pub IsStart : StartNewGamePacket → Type 0
IsStart p = IsPlayerId p.player_id × IsPlayTime p.time

abbrev pub IsTry : TryPacket → Type 0
IsTry p = IsPlayerId p.player_id × IsKey p.key × (p.trial ≤ uint32_max)

abbrev pub IsDebug : DebugPacket → Type 0
IsDebug p = IsPlayerId p.player_id × IsPlayTime p.time × IsKey p.key

abbrev IsUint : ℕ → Type 0
IsUint n = n ≤ uint32_max

IsPlayTime-of : (t : ℕ) → bad_time t ≡ false → IsPlayTime t
unfolding bad_time
IsPlayTime-of t h = ground arith

-- Whatever bytes arrive, what `decode` makes of a `SNG` packet has a player id of six digits and
-- a time from 1 to 600, and where it refuses them it throws `InvalidPacketException`.
pub decode_start-Ensures : Ensures IsStart decode_start
unfolding decode_start
decode_start-Ensures = Ensures-bind Any {Q = IsStart} next-Ensures λ _ _.
    Ensures-bind IsPlayerId parse_player_id-Ensures λ p v. Ensures-bind Any next-Ensures λ _ _.
      Ensures-bind IsUint parse_uint-Ensures λ n b.
        Ensures-if (bad_time (to_ushort n)) (λ _. Ensures-refuse)
          λ good.
            Ensures-bind Any end_packet-Ensures
              λ _ _. Ensures-yield (v, IsPlayTime-of (to_ushort n) good)

-- Whatever bytes arrive, what `decode` makes of a `TRY` packet has a player id of six digits, a
-- key of four colours and a number of 32 bits, and where it refuses them it throws
-- `InvalidPacketException`.
pub decode_try-Ensures : Ensures IsTry decode_try
unfolding decode_try
decode_try-Ensures = Ensures-bind Any {Q = IsTry} next-Ensures λ _ _.
    Ensures-bind IsPlayerId parse_player_id-Ensures λ p v.
      Ensures-bind IsKey parse_key-Ensures λ k w. Ensures-bind Any next-Ensures λ _ _.
        Ensures-bind IsUint parse_uint-Ensures
          λ n b. Ensures-bind Any end_packet-Ensures λ _ _. Ensures-yield (v, w, b)

-- Whatever bytes arrive, what `decode` makes of a `QUT` packet has a player id of six digits,
-- and where it refuses them it throws `InvalidPacketException`.
pub decode_quit-Ensures : Ensures (λ p. IsPlayerId p.player_id) decode_quit
unfolding decode_quit
decode_quit-Ensures =
    Ensures-bind Any {Q = λ (p : QuitPacket). IsPlayerId p.player_id} next-Ensures λ _ _.
      Ensures-bind IsPlayerId parse_player_id-Ensures
        λ p v. Ensures-bind Any end_packet-Ensures λ _ _. Ensures-yield v

-- Whatever bytes arrive, what `decode` makes of a `DBG` packet has a player id of six digits, a
-- time from 1 to 600 and a key of four colours, and where it refuses them it throws
-- `InvalidPacketException`.
pub decode_debug-Ensures : Ensures IsDebug decode_debug
unfolding decode_debug
decode_debug-Ensures = Ensures-bind Any {Q = IsDebug} next-Ensures λ _ _.
    Ensures-bind IsPlayerId parse_player_id-Ensures λ p v. Ensures-bind Any next-Ensures λ _ _.
      Ensures-bind IsUint parse_uint-Ensures λ n b.
        Ensures-if (bad_time n) (λ _. Ensures-refuse)
          λ good. Ensures-bind IsKey parse_key-Ensures λ k w.
            Ensures-bind Any end_packet-Ensures λ _ _. Ensures-yield (v, IsPlayTime-of n good, w)

to_ushort_lem : (n : ℕ) → to_ushort n ≡ n % 2 ^ 16
unfolding to_ushort
to_ushort_lem n = refl

bad_time_wrapped : (n : ℕ) → IsPlayTime (n % 2 ^ 16) → bad_time (n % 2 ^ 16) ≡ false
unfolding bad_time
bad_time_wrapped n h = ground arith

bad_time_above : (n : ℕ) → play_time_max < n → bad_time n ≡ true
unfolding bad_time
bad_time_above n h = ground arith

-- A `SNG` packet whose time is any 32-bit number is accepted as soon as the number's remainder
-- modulo 2 ^ 16 lies in 1 to 600, and the packet then carries that remainder.
pub decode_start_wraps :
    (p : StartNewGamePacket)
    → IsPlayerId p.player_id
    → p.time ≤ uint32_max
    → IsPlayTime (p.time % 2 ^ 16)
    → run (identified decode_start) (encode_start p)
      ≡ return (sng, record p { time = p.time % 2 ^ 16 })
unfolding decode_start encode_start parse_packet_id
decode_start_wraps p v b t = rw (
  next-space,
  parse_player_id-append p.player_id _ _ v,
  next-space,
  parse_uint-decimal p.time _ _ (newline-Ends []) b,
  to_ushort_lem p.time,
  bad_time_wrapped p.time t,
  end_packet-newline,
)

-- A `DBG` packet with a 32-bit time above 600 is refused as invalid.
pub decode_debug_refuses :
    (p : DebugPacket)
    → IsPlayerId p.player_id
    → play_time_max < p.time
    → p.time ≤ uint32_max
    → run (identified decode_debug) (encode_debug p) ≡ throw invalid_packet
unfolding decode_debug encode_debug parse_packet_id
decode_debug_refuses p v t b = rw (
  next-space,
  parse_player_id-append p.player_id _ _ v,
  next-space,
  parse_uint-decimal p.time _ _ (spaced-Ends secret_key_len p.key _ (newline-Ends [])) b,
  bad_time_above p.time t,
)
