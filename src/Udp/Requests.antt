-- ===== src/Udp/Requests.antt =====
-- common/protocol/UDP/udp.cpp and udp.hpp: the four requests of the client. `decode` reads what
-- stands behind the packet identifier, which the server has read before.
pub mod RoundTrip
pub mod Accepts
pub mod Sizes
use rc.Base.{ℕ, zero, suc, ◌%◌, ◌^◌, ◌==◌, ltb, Bool, ◌||◌, [], ◌∷◌, ◌++◌, if◌then◌else◌, Bytes}
use rc.Constants.{play_time_max, secret_key_len}
use rc.Exceptions.{invalid_packet}
use rc.Text.Decimal.{decimal}
use rc.Udp.Parser.{
  Parser, ◌>>=◌, ◌>>◌, yield, refuse, next, end_packet, parse_player_id, parse_uint, parse_key,
  spaced,
}

pub record StartNewGamePacket : Type 0 where
  pub time : ℕ
  pub player_id : Bytes

pub record TryPacket : Type 0 where
  pub trial : ℕ
  pub player_id : Bytes
  pub key : Bytes

pub record QuitPacket : Type 0 where
  pub player_id : Bytes

pub record DebugPacket : Type 0 where
  pub time : ℕ
  pub player_id : Bytes
  pub key : Bytes

-- The `packetID` of each class.
abbrev pub sng : Bytes
sng = b'S' ∷ b'N' ∷ b'G' ∷ []

abbrev pub try_id : Bytes
try_id = b'T' ∷ b'R' ∷ b'Y' ∷ []

abbrev pub qut : Bytes
qut = b'Q' ∷ b'U' ∷ b'T' ∷ []

abbrev pub dbg : Bytes
dbg = b'D' ∷ b'B' ∷ b'G' ∷ []

-- `time` is an `unsigned short`, and `parseUInt` returns an `unsigned int`.
unfoldable pub to_ushort : ℕ → ℕ
to_ushort n = n % 2 ^ 16

-- `!time || time > PLAY_TIME_MAX`.
unfoldable pub bad_time : ℕ → Bool
bad_time t = t == 0 || ltb play_time_max t

unfoldable pub decode_start : Parser StartNewGamePacket
decode_start = do
  next
  plid ← parse_player_id
  next
  n ← parse_uint
  if bad_time (to_ushort n)
      then refuse invalid_packet
      else (do end_packet; yield (record { time = to_ushort n; player_id = plid }))

unfoldable pub encode_start : StartNewGamePacket → Bytes
encode_start p = sng ++ (b' ' ∷ (p.player_id ++ (b' ' ∷ (decimal p.time ++ b'\n' ∷ []))))

unfoldable pub decode_try : Parser TryPacket
decode_try = do
  next
  plid ← parse_player_id
  key ← parse_key
  next
  n ← parse_uint
  end_packet
  yield (record { trial = n; player_id = plid; key = key })

unfoldable pub encode_try : TryPacket → Bytes
encode_try p =
    try_id
    ++ (b' '
        ∷ (p.player_id
            ++ (spaced secret_key_len p.key ++ (b' ' ∷ (decimal p.trial ++ b'\n' ∷ [])))))

unfoldable pub decode_quit : Parser QuitPacket
decode_quit = do next; plid ← parse_player_id; end_packet; yield (record { player_id = plid })

unfoldable pub encode_quit : QuitPacket → Bytes
encode_quit p = qut ++ (b' ' ∷ (p.player_id ++ b'\n' ∷ []))

unfoldable pub decode_debug : Parser DebugPacket
decode_debug = do
  next
  plid ← parse_player_id
  next
  n ← parse_uint
  if bad_time n then refuse invalid_packet else (do
    key ← parse_key
    end_packet
    yield (record { time = n; player_id = plid; key = key }))

unfoldable pub encode_debug : DebugPacket → Bytes
encode_debug p =
    dbg
    ++ (b' '
        ∷ (p.player_id ++ (b' ' ∷ (decimal p.time ++ (spaced secret_key_len p.key ++ b'\n' ∷ [])))))
