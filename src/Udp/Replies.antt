-- ===== src/Udp/Replies.antt =====
-- common/protocol/UDP/udp.cpp and udp.hpp: the replies of the server. `decode` reads the whole
-- packet, its identifier first.
pub mod RoundTrip
use rc.Base.{ℕ, zero, suc, Bool, [], ◌∷◌, ◌++◌, if◌then◌else◌, Bytes, bytes_eq}
use rc.Constants.{secret_key_len}
use rc.Exceptions.{invalid_packet, err_packet}
use rc.Text.Decimal.{decimal}
use rc.Udp.Parser.{
  Parser, ◌>>=◌, ◌>>◌, yield, refuse, next, end_packet, parse_packet_id, parse_status, parse_uint,
  parse_key, spaced, unget,
}

-- The equal enumerations of `ReplyStartGamePacket`, `ReplyQuitPacket` and `ReplyDebugPacket`.
pub data Status : Type 0 where
  ok nok err : Status

pub data TryStatus : Type 0 where
  ok dup inv nok ent etm err : TryStatus

pub record ReplyStartGamePacket : Type 0 where
  pub status : Status

pub record ReplyTryPacket : Type 0 where
  pub status : TryStatus
  pub trial : ℕ
  pub whites : ℕ
  pub blacks : ℕ
  pub key : Bytes

pub record ReplyQuitPacket : Type 0 where
  pub status : Status
  pub key : Bytes

pub record ReplyDebugPacket : Type 0 where
  pub status : Status

abbrev pub rsg : Bytes
rsg = b'R' ∷ b'S' ∷ b'G' ∷ []

abbrev pub rtr : Bytes
rtr = b'R' ∷ b'T' ∷ b'R' ∷ []

abbrev pub rqt : Bytes
rqt = b'R' ∷ b'Q' ∷ b'T' ∷ []

abbrev pub rdb : Bytes
rdb = b'R' ∷ b'D' ∷ b'B' ∷ []

abbrev pub err_text : Bytes
err_text = b'E' ∷ b'R' ∷ b'R' ∷ []

abbrev nok_text : Bytes
nok_text = b'N' ∷ b'O' ∷ b'K' ∷ []

abbrev ok_newline : Bytes
ok_newline = b'O' ∷ b'K' ∷ b'\n' ∷ []

abbrev ok_space : Bytes
ok_space = b'O' ∷ b'K' ∷ b' ' ∷ []

-- `statusToStr`; its default branch has no enumerator left.
unfoldable pub status_to_str : Status → Bytes
status_to_str Status.ok = b'O' ∷ b'K' ∷ []
status_to_str Status.nok = nok_text
status_to_str Status.err = err_text

unfoldable pub try_status_to_str : TryStatus → Bytes
try_status_to_str TryStatus.ok = b'O' ∷ b'K' ∷ []
try_status_to_str TryStatus.dup = b'D' ∷ b'U' ∷ b'P' ∷ []
try_status_to_str TryStatus.inv = b'I' ∷ b'N' ∷ b'V' ∷ []
try_status_to_str TryStatus.nok = nok_text
try_status_to_str TryStatus.ent = b'E' ∷ b'N' ∷ b'T' ∷ []
try_status_to_str TryStatus.etm = b'E' ∷ b'T' ∷ b'M' ∷ []
try_status_to_str TryStatus.err = err_text

-- `UdpErrorPacket::encode`.
unfoldable pub encode_error : Bytes
encode_error = err_text ++ b'\n' ∷ []

-- The identifier: `ERR` is an exception of its own, and any but the expected one is invalid.
unfoldable pub expect_id : Bytes → Parser (Unit {0})
unfolding bytes_eq parse_packet_id
expect_id expected = do
  parsed ← parse_packet_id
  if bytes_eq parsed err_text
      then refuse err_packet
      else if bytes_eq parsed expected
      then yield tt
      else refuse invalid_packet

-- The status of `RSG` and `RDB`, up to the end of the packet.
unfoldable pub decode_status : Parser Status
unfolding bytes_eq parse_status unget next
decode_status = do
  next
  text ← parse_status
  s ←
      (if bytes_eq text ok_newline
        then (do unget; yield Status.ok)
        else if bytes_eq text nok_text
        then yield Status.nok
        else if bytes_eq text err_text
        then yield Status.err
        else refuse invalid_packet)
  end_packet
  yield s

unfoldable pub decode_reply_start : Parser ReplyStartGamePacket
unfolding expect_id decode_status
decode_reply_start = do expect_id rsg; s ← decode_status; yield (record { status = s })

unfoldable pub encode_reply_start : ReplyStartGamePacket → Bytes
unfolding status_to_str
encode_reply_start p = rsg ++ (b' ' ∷ (status_to_str p.status ++ b'\n' ∷ []))

unfoldable pub decode_reply_debug : Parser ReplyDebugPacket
unfolding expect_id decode_status
decode_reply_debug = do expect_id rdb; s ← decode_status; yield (record { status = s })

unfoldable pub encode_reply_debug : ReplyDebugPacket → Bytes
unfolding status_to_str
encode_reply_debug p = rdb ++ (b' ' ∷ (status_to_str p.status ++ b'\n' ∷ []))

-- A packet with nothing but its status; the fields that `decode` does not set keep what they hold.
abbrev with_status : ReplyTryPacket → TryStatus → ReplyTryPacket
with_status p s = record p { status = s }

-- What stands behind each status of `RTR`.
unfoldable pub decode_try_fields : ReplyTryPacket → Bytes → Parser ReplyTryPacket
unfolding bytes_eq
decode_try_fields p text =
    if bytes_eq text ok_space
    then (do
      trial ← parse_uint
      next
      blacks ← parse_uint
      next
      whites ← parse_uint
      yield (record p { status = TryStatus.ok; trial = trial; blacks = blacks; whites = whites }))
    else if bytes_eq text (try_status_to_str TryStatus.dup)
    then yield (with_status p TryStatus.dup)
    else if bytes_eq text (try_status_to_str TryStatus.inv)
    then yield (with_status p TryStatus.inv)
    else if bytes_eq text nok_text
    then yield (with_status p TryStatus.nok)
    else if bytes_eq text (try_status_to_str TryStatus.ent)
    then (do k ← parse_key; yield (record p { status = TryStatus.ent; key = k }))
    else if bytes_eq text (try_status_to_str TryStatus.etm)
    then (do k ← parse_key; yield (record p { status = TryStatus.etm; key = k }))
    else if bytes_eq text err_text
    then yield (with_status p TryStatus.err)
    else refuse invalid_packet

-- `key.resize(n, '\0')`.
unfoldable pub resized : ℕ → Bytes → Bytes
resized zero key = []
resized (suc n) [] = 0 ∷ resized n []
resized (suc n) (c ∷ key) = c ∷ resized n key

-- `p` is the packet object that `decode` fills.
unfoldable pub decode_reply_try : ReplyTryPacket → Parser ReplyTryPacket
unfolding expect_id parse_status decode_try_fields try_status_to_str resized
decode_reply_try p = do
  expect_id rtr
  next
  text ← parse_status
  q ← decode_try_fields (record p { key = resized secret_key_len p.key }) text
  end_packet
  yield q

-- What `ReplyTryPacket::encode` writes behind the status, in front of `rest`.
unfoldable pub try_fields : TryStatus → ReplyTryPacket → Bytes → Bytes
try_fields TryStatus.ok p rest =
    b' ' ∷ (decimal p.trial ++ (b' ' ∷ (decimal p.blacks ++ (b' ' ∷ (decimal p.whites ++ rest)))))
try_fields TryStatus.ent p rest = spaced secret_key_len p.key ++ rest
try_fields TryStatus.etm p rest = spaced secret_key_len p.key ++ rest
try_fields _ p rest = rest

unfoldable pub encode_reply_try : ReplyTryPacket → Bytes
unfolding try_status_to_str try_fields
encode_reply_try p =
    rtr ++ (b' ' ∷ (try_status_to_str p.status ++ try_fields p.status p (b'\n' ∷ [])))

-- What stands behind each status of `RQT`: at `OK ` the blank is put back, since the key begins
-- with it.
unfoldable pub decode_quit_fields : ReplyQuitPacket → Bytes → Parser ReplyQuitPacket
unfolding bytes_eq unget
decode_quit_fields p text =
    if bytes_eq text ok_space
    then (do unget; k ← parse_key; yield (record { status = Status.ok; key = k }))
    else if bytes_eq text nok_text
    then yield (record p { status = Status.nok })
    else if bytes_eq text err_text
    then yield (record p { status = Status.err })
    else refuse invalid_packet

unfoldable pub decode_reply_quit : ReplyQuitPacket → Parser ReplyQuitPacket
unfolding expect_id parse_status decode_quit_fields resized
decode_reply_quit p = do
  expect_id rqt
  next
  text ← parse_status
  q ← decode_quit_fields (record p { key = resized secret_key_len p.key }) text
  end_packet
  yield q

unfoldable pub quit_fields : Status → ReplyQuitPacket → Bytes
quit_fields Status.ok p = spaced secret_key_len p.key
quit_fields _ p = []

unfoldable pub encode_reply_quit : ReplyQuitPacket → Bytes
unfolding status_to_str quit_fields
encode_reply_quit p =
    rqt ++ (b' ' ∷ (status_to_str p.status ++ (quit_fields p.status p ++ b'\n' ∷ [])))
