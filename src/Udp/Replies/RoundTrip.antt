-- ===== src/Udp/Replies/RoundTrip.antt =====
-- The client reads back what the server replies.
use rc.Base.{◌≤◌, ◌≡◌, refl, [], ◌∷◌, Bytes}
use rc.Constants.{uint32_max, secret_key_len}
use rc.Exceptions.{return, throw, err_packet}
use rc.Text.Decimal.{newline-Ends, space-Ends}
use rc.Udp.Parser.Reads.{IsKey, parse_uint-decimal, parse_key-spaced, spaced_cons}
use rc.Udp.Parser.{run, next, end_packet}
use rc.Udp.Replies.{
  Status, TryStatus, ReplyStartGamePacket, ReplyTryPacket, ReplyQuitPacket, ReplyDebugPacket,
  decode_reply_start, encode_reply_start, decode_reply_try, encode_reply_try, decode_reply_quit,
  encode_reply_quit, decode_reply_debug, encode_reply_debug, encode_error, resized,
}

-- `RSG` and `RDB` replies are read back, whatever their status.
pub status_replies_round_trip :
    (s : ReplyStartGamePacket) (d : ReplyDebugPacket)
    → (run decode_reply_start (encode_reply_start s) ≡ return s)
      × (run decode_reply_debug (encode_reply_debug d) ≡ return d)
unfolding decode_reply_start encode_reply_start decode_reply_debug encode_reply_debug end_packet
status_replies_round_trip s d = (start s.status, debug d.status)
  where
    start :
        (x : Status)
        → run decode_reply_start (encode_reply_start (record { status = x }))
          ≡ return (record { status = x })
    start Status.ok = refl
    start Status.nok = refl
    start Status.err = refl

    debug :
        (x : Status)
        → run decode_reply_debug (encode_reply_debug (record { status = x }))
          ≡ return (record { status = x })
    debug Status.ok = refl
    debug Status.nok = refl
    debug Status.err = refl

-- The fields that a status announces, with values that the encoder can print.
abbrev pub IsReply : TryStatus → ReplyTryPacket → Type 0
IsReply TryStatus.ok p = (p.trial ≤ uint32_max) × (p.blacks ≤ uint32_max) × (p.whites ≤ uint32_max)
IsReply TryStatus.ent p = IsKey p.key
IsReply TryStatus.etm p = IsKey p.key
IsReply _ p = Unit

-- What the packet object `old` holds once reply `p` has been read into it: the status, and the
-- fields that this status announces.
abbrev pub filled : TryStatus → ReplyTryPacket → ReplyTryPacket → ReplyTryPacket
filled TryStatus.ok p old = record {
  status = TryStatus.ok;
  trial = p.trial;
  whites = p.whites;
  blacks = p.blacks;
  key = resized secret_key_len old.key;
}
filled TryStatus.ent p old = record old { status = TryStatus.ent; key = p.key }
filled TryStatus.etm p old = record old { status = TryStatus.etm; key = p.key }
filled s p old = record old { status = s; key = resized secret_key_len old.key }

try_of_status :
    (s : TryStatus) (p old : ReplyTryPacket)
    → IsReply s p
    → run (decode_reply_try old) (encode_reply_try (record p { status = s }))
      ≡ return (filled s p old)
unfolding decode_reply_try encode_reply_try end_packet next
try_of_status TryStatus.ok p old h = rw (
  parse_uint-decimal p.trial _ _ (space-Ends []) h.0,
  parse_uint-decimal p.blacks _ _ (space-Ends []) h.1,
  parse_uint-decimal p.whites _ _ (newline-Ends []) h.2,
)
try_of_status TryStatus.ent p old h = rw (parse_key-spaced p.key _ _ h)
try_of_status TryStatus.etm p old h = rw (parse_key-spaced p.key _ _ h)
try_of_status TryStatus.dup p old h = refl
try_of_status TryStatus.inv p old h = refl
try_of_status TryStatus.nok p old h = refl
try_of_status TryStatus.err p old h = refl

-- A `RTR` reply gives the client its status, the trial and the peg counts if that is `OK`, and the
-- key if it is `ENT` or `ETM`.
pub decode_reply_try-encode_reply_try :
    (p old : ReplyTryPacket)
    → IsReply p.status p
    → run (decode_reply_try old) (encode_reply_try p) ≡ return (filled p.status p old)
decode_reply_try-encode_reply_try p old h = try_of_status p.status p old h

-- What the packet object `old` holds once a quit reply with this status has been read into it.
abbrev pub quit_filled : Status → ReplyQuitPacket → ReplyQuitPacket → ReplyQuitPacket
quit_filled Status.ok p old = record { status = Status.ok; key = p.key }
quit_filled s p old = record { status = s; key = resized secret_key_len old.key }

-- What has been read once the blank behind `OK` is put back, newest first.
abbrev behind : Bytes
behind = b'K' ∷ b'O' ∷ b' ' ∷ b'T' ∷ b'Q' ∷ b'R' ∷ []

quit_of_status :
    (s : Status) (p old : ReplyQuitPacket)
    → (s ≡ Status.ok → IsKey p.key)
    → run (decode_reply_quit old) (encode_reply_quit (record p { status = s }))
      ≡ return (quit_filled s p old)
unfolding decode_reply_quit encode_reply_quit end_packet next
quit_of_status Status.ok p old h =
    let (r, e) = spaced_cons 3 p.key in
    let read = parse_key-spaced p.key (b'\n' ∷ []) behind (h refl) in rw (e, (rw e at read))
quit_of_status Status.nok p old h = refl
quit_of_status Status.err p old h = refl

-- An `RQT` reply gives the client its status, and the key if that is `OK`.
pub decode_reply_quit-encode_reply_quit :
    (p old : ReplyQuitPacket)
    → (p.status ≡ Status.ok → IsKey p.key)
    → run (decode_reply_quit old) (encode_reply_quit p) ≡ return (quit_filled p.status p old)
decode_reply_quit-encode_reply_quit p old h = quit_of_status p.status p old h

-- The error packet is an exception for every reply that the client waits for.
pub replies_to_error :
    (t : ReplyTryPacket) (q : ReplyQuitPacket)
    → (run decode_reply_start encode_error ≡ throw err_packet)
      × (run (decode_reply_try t) encode_error ≡ throw err_packet)
      × (run (decode_reply_quit q) encode_error ≡ throw err_packet)
      × (run decode_reply_debug encode_error ≡ throw err_packet)
unfolding decode_reply_start decode_reply_try decode_reply_quit decode_reply_debug encode_error
replies_to_error t q = (refl, refl, refl, refl)
