-- ===== src/Play/Turns.antt =====
-- What a turn of the server's loop does with a request that the client has encoded.
use rc.Base.{ℕ, [], ◌≡◌, ap, Bytes, none, some, arith}
use rc.Constants.{sock_buffer_size}
use rc.Exceptions.{Result, return, throw}
use rc.Play.Network.{received-whole}
use rc.Server.UdpCommands.{
  try_handler, try_decoded, try_reply, quit_handler, quit_decoded, quit_reply, fresh_call,
  start_new_game_handler, start_decoded, start_reply, debug_game_handler, debug_decoded,
  debug_reply, create_status,
}
use rc.Server.{received, handle_udp_command, dispatched, response, run_udp}
use rc.Store.Games.Active.{working}
use rc.Store.Games.{create_game, attempt, quit_game}
use rc.Store.{Store, Calendar}
use rc.Text.Decimal.{length-decimal}
use rc.Udp.Parser.Reads.{IsPlayerId}
use rc.Udp.Parser.{Parser, ◌>>=◌, and_then, yield, value_of, Stream, stream, parse_packet_id}
use rc.Udp.Requests.Accepts.{IsStart, IsTry, IsDebug}
use rc.Udp.Requests.RoundTrip.{
  decode_start-encode_start, decode_try-encode_try, decode_quit-encode_quit,
  decode_debug-encode_debug,
}
use rc.Udp.Requests.Sizes.{lengths}
use rc.Udp.Requests.{
  StartNewGamePacket, TryPacket, try_id, qut, QuitPacket, DebugPacket, decode_try, encode_try,
  decode_quit, encode_quit, sng, dbg, decode_start, encode_start, decode_debug, encode_debug,
}

-- The server receives each request whole.
start_received :
    (p : StartNewGamePacket)
    → IsStart p
    → received sock_buffer_size (encode_start p) ≡ encode_start p
unfolding encode_start
start_received p h =
    received-whole sock_buffer_size (encode_start p)
      (omega (lengths, h.0.six, length-decimal 2 p.time (omega arith)))

try_received : (p : TryPacket) → IsTry p → received sock_buffer_size (encode_try p) ≡ encode_try p
unfolding encode_try
try_received p h =
    received-whole sock_buffer_size (encode_try p)
      (omega (lengths, h.0.six, length-decimal 9 p.trial (omega arith)))

quit_received :
    (p : QuitPacket)
    → IsPlayerId p.player_id
    → received sock_buffer_size (encode_quit p) ≡ encode_quit p
unfolding encode_quit
quit_received p h = received-whole sock_buffer_size (encode_quit p) (omega (lengths, h.six))

debug_received :
    (p : DebugPacket) → IsDebug p → received sock_buffer_size (encode_debug p) ≡ encode_debug p
unfolding encode_debug
debug_received p h =
    received-whole sock_buffer_size (encode_debug p)
      (omega (lengths, h.0.six, length-decimal 2 p.time (omega arith)))

-- What reading an identifier and a packet gives, one after the other.
module _ {A : Type 0} (packet_id : Bytes) (p : A) where
  packet_read :
      (id : Bytes) (mid : Stream) (r : Result (A × Stream))
      → value_of {A = Bytes × A} (and_then r (λ q. yield (id, q))) ≡ return (packet_id, p)
      → (end : Stream) × (id ≡ packet_id) × (r ≡ return (p, end))
  packet_read id mid (return (q, end)) h = (end, cc, cc)
  packet_read id mid (throw e) h = absurd (cc)

  identified_read :
      (decode : Parser A) (r : Result (Bytes × Stream))
      → value_of {A = Bytes × A} (and_then r (λ id. decode >>= λ q. yield (id, q)))
        ≡ return (packet_id, p)
      → (mid end : Stream) × (r ≡ return (packet_id, mid)) × (decode mid ≡ return (p, end))
  identified_read decode (return (id, mid)) h =
      let (end, e, d) = packet_read id mid (decode mid) h in
      (mid, end, ap (λ i. return (i, mid)) e, d)
  identified_read decode (throw e) h = absurd (cc)

module _ (cal : Calendar) (now : ℕ) (bytes : Bytes) (s : Store) where
  pub run_udp-encode_try :
      (p : TryPacket)
      → IsTry p
      → (let r = attempt cal working p.player_id now p.key p.trial (fresh_call s) in
          run_udp cal working now (some bytes) (encode_try p) s
          ≡ (response (try_reply r.0 r.1.refs), r.1.store))
  unfolding run_udp dispatched handle_udp_command try_handler try_decoded
  run_udp-encode_try p h =
      let (mid, end, e, d) =
        identified_read try_id p decode_try (parse_packet_id (stream [] (encode_try p)))
          (decode_try-encode_try p h.0 h.1 h.2) in
      rw (try_received p h, e, d)

  pub run_udp-encode_quit :
      (p : QuitPacket)
      → IsPlayerId p.player_id
      → (let r = quit_game cal working p.player_id now (fresh_call s) in
          run_udp cal working now (some bytes) (encode_quit p) s
          ≡ (response (quit_reply r.0), r.1.store))
  unfolding run_udp dispatched handle_udp_command quit_handler quit_decoded
  run_udp-encode_quit p h =
      let (mid, end, e, d) =
        identified_read qut p decode_quit (parse_packet_id (stream [] (encode_quit p)))
          (decode_quit-encode_quit p h) in
      rw (quit_received p h, e, d)

  pub run_udp-encode_start :
      (p : StartNewGamePacket)
      → IsStart p
      → (let r = create_game cal working p.player_id now p.time none (some bytes) (fresh_call s) in
          run_udp cal working now (some bytes) (encode_start p) s
          ≡ (response (start_reply (create_status r.0)), r.1.store))
  unfolding run_udp dispatched handle_udp_command start_new_game_handler start_decoded
  run_udp-encode_start p h =
      let (mid, end, e, d) =
        identified_read sng p decode_start (parse_packet_id (stream [] (encode_start p)))
          (decode_start-encode_start p h.0 h.1) in
      rw (start_received p h, e, d)

  pub run_udp-encode_debug :
      (p : DebugPacket)
      → IsDebug p
      → (let r = create_game cal working p.player_id now p.time (some p.key) none (fresh_call s) in
          run_udp cal working now (some bytes) (encode_debug p) s
          ≡ (response (debug_reply (create_status r.0)), r.1.store))
  unfolding run_udp dispatched handle_udp_command debug_game_handler debug_decoded
  run_udp-encode_debug p h =
      let (mid, end, e, d) =
        identified_read dbg p decode_debug (parse_packet_id (stream [] (encode_debug p)))
          (decode_debug-encode_debug p h.0 h.1 h.2) in
      rw (debug_received p h, e, d)
