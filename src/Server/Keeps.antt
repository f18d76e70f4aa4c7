-- ===== src/Server/Keeps.antt =====
-- The server answers every datagram, and keeps the games in order.
use rc.Base.{
  ℕ, ◌≤◌, ◌≡◌, refl, subst, sym, true, false, [], Bytes, bytes_eq, none, some, length, Bool,
  if◌then◌else◌,
}
use rc.Constants.{secret_key_len, sock_buffer_size}
use rc.Exceptions.{Exception, Result, return, throw, is_defined, invalid_packet}
use rc.Server.UdpCommands.{
  UdpPacket, encode, create_status, start_reply, debug_reply, try_reply, quit_reply, start_decoded,
  try_decoded, quit_decoded, debug_decoded, start_new_game_handler, try_handler, quit_handler,
  debug_game_handler, fresh_call, fresh_refs,
}
use rc.Server.{handle_udp_command, dispatched, response, run_udp, received}
use rc.Store.Files.{Refs}
use rc.Store.Games.Active.{working}
use rc.Store.Games.Attempts.{Fresh}
use rc.Store.Games.Keys.{choose_key_random}
use rc.Store.Games.Preserved.{attempt_keeps, quit_keeps, create_keeps}
use rc.Store.Games.Sound.{IsSound}
use rc.Store.Games.{choose_key, colors_of}
use rc.Store.Records.Sessions.{IsCalendar}
use rc.Store.Records.{GameMode}
use rc.Store.{Store, Calendar}
use rc.Udp.Parser.Accepts.{Post, Any, parse_packet_id-Ensures}
use rc.Udp.Parser.Reads.{IsPlayerId}
use rc.Udp.Parser.{Stream, stream, parse_packet_id}
use rc.Udp.Replies.{encode_error}
use rc.Udp.Requests.Accepts.{
  IsStart, IsTry, IsDebug, decode_start-Ensures, decode_try-Ensures, decode_quit-Ensures,
  decode_debug-Ensures,
}
use rc.Udp.Requests.{
  StartNewGamePacket, TryPacket, QuitPacket, DebugPacket, decode_start, decode_try, decode_quit,
  decode_debug, sng, try_id, qut, dbg,
}

start_reply-defined :
    (r : Result Bytes) → is_defined r ≡ true → is_defined (start_reply (create_status r)) ≡ true
unfolding start_reply create_status
start_reply-defined (return k) d = refl
start_reply-defined (throw Exception.ongoing_game) d = refl
start_reply-defined (throw Exception.undefined_behaviour) d = d
start_reply-defined (throw _) d = refl

debug_reply-defined :
    (r : Result Bytes) → is_defined r ≡ true → is_defined (debug_reply (create_status r)) ≡ true
unfolding debug_reply create_status
debug_reply-defined (return k) d = refl
debug_reply-defined (throw Exception.ongoing_game) d = refl
debug_reply-defined (throw Exception.undefined_behaviour) d = d
debug_reply-defined (throw _) d = refl

try_reply-defined :
    (r : Result ℕ) (refs : Refs) → is_defined r ≡ true → is_defined (try_reply r refs) ≡ true
unfolding try_reply
try_reply-defined (return n) refs d = refl
try_reply-defined (throw Exception.undefined_behaviour) refs d = d
try_reply-defined (throw _) refs d = refl

quit_reply-defined : (r : Result Bytes) → is_defined r ≡ true → is_defined (quit_reply r) ≡ true
unfolding quit_reply
quit_reply-defined (return k) d = refl
quit_reply-defined (throw Exception.undefined_behaviour) d = d
quit_reply-defined (throw _) d = refl

response-answers :
    (r : Result UdpPacket) → is_defined r ≡ true → (reply : Bytes) × (response r ≡ return reply)
unfolding response
response-answers (return p) d = (encode p, refl)
response-answers (throw Exception.undefined_behaviour) d = absurd (cc)
response-answers (throw _) d = (encode_error, refl)

-- A reply without undefined behaviour, and games in order.
abbrev Kept : {A : Type 0} → Calendar → ℕ → Result A × Store → Type 0
Kept cal now r = IsSound cal now r.1.games × (is_defined r.0 ≡ true)

invalid-defined :
    (A : Type 0) (e : Exception) → e ≡ invalid_packet → is_defined {A = A} (throw e) ≡ true
invalid-defined A e h = subst (λ x. is_defined {A = A} (throw x) ≡ true) (sym h) refl

Kept-if :
    {A : Type 0} (cal : Calendar) (now : ℕ) (b : Bool) (x y : Result A × Store)
    → Kept cal now x
    → Kept cal now y
    → Kept cal now (if b then x else y)
Kept-if cal now true x y h k = h
Kept-if cal now false x y h k = k

fresh : Fresh fresh_refs
fresh = record { blacks_zero = refl; whites_zero = refl }

module _ (cal : Calendar) (ok_cal : IsCalendar cal) (now : ℕ) (int_now : now ≤ 2147483647)
    (bytes : Bytes) (four : length bytes ≡ secret_key_len) (store : Store)
    (sound : IsSound cal now store.games) where
  start_keeps :
      (r : Result (StartNewGamePacket × Stream))
      → Post IsStart r
      → Kept cal now (start_decoded cal working now (some bytes) r store)
  unfolding start_decoded
  start_keeps (throw e) h = (sound, start_reply-defined (throw e) (invalid-defined Bytes e h))
  start_keeps (return (p, t)) h =
      let kept =
        create_keeps cal ok_cal now (fresh_call store) sound p.time none (some bytes)
          (colors_of bytes) GameMode.play (λ d. (choose_key_random bytes d four).0)
          (choose_key_random bytes (fresh_call store) four).1 h.1 int_now p.player_id h.0 in
      (kept.0, start_reply-defined _ kept.1)

  try_keeps :
      (r : Result (TryPacket × Stream))
      → Post IsTry r
      → Kept cal now (try_decoded cal working now r store)
  unfolding try_decoded
  try_keeps (throw e) h = (sound, try_reply-defined (throw e) fresh_refs (invalid-defined ℕ e h))
  try_keeps (return (p, t)) h =
      let kept =
        attempt_keeps cal ok_cal now (fresh_call store) sound p.player_id p.key p.trial h.0 h.1
          fresh int_now in
      (kept.0, try_reply-defined _ _ kept.1)

  quit_keeps_store :
      (r : Result (QuitPacket × Stream))
      → Post (λ p. IsPlayerId p.player_id) r
      → Kept cal now (quit_decoded cal working now r store)
  unfolding quit_decoded
  quit_keeps_store (throw e) h = (sound, quit_reply-defined (throw e) (invalid-defined Bytes e h))
  quit_keeps_store (return (p, t)) h =
      let kept = (quit_keeps cal ok_cal now (fresh_call store) sound p.player_id h int_now).0 in
      (kept.0, quit_reply-defined _ kept.1)

  debug_keeps :
      (r : Result (DebugPacket × Stream))
      → Post IsDebug r
      → Kept cal now (debug_decoded cal working now r store)
  unfolding debug_decoded choose_key
  debug_keeps (throw e) h = (sound, debug_reply-defined (throw e) (invalid-defined Bytes e h))
  debug_keeps (return (p, t)) h =
      let kept =
        create_keeps cal ok_cal now (fresh_call store) sound p.time (some p.key) none p.key
          GameMode.debug (λ d. refl) h.2 h.1 int_now p.player_id h.0 in
      (kept.0, debug_reply-defined _ kept.1)

  handlers_keep :
      (packet_id : Bytes) (packet : Stream)
      → Kept cal now (handle_udp_command cal working now (some bytes) packet_id packet store)
  unfolding handle_udp_command start_new_game_handler try_handler quit_handler debug_game_handler
  handlers_keep packet_id packet =
      Kept-if cal now (bytes_eq packet_id sng) _ _
        (start_keeps (decode_start packet) (decode_start-Ensures.holds packet))
        (Kept-if cal now (bytes_eq packet_id try_id) _ _
          (try_keeps (decode_try packet) (decode_try-Ensures.holds packet))
          (Kept-if cal now (bytes_eq packet_id qut) _ _
            (quit_keeps_store (decode_quit packet) (decode_quit-Ensures.holds packet))
            (Kept-if cal now (bytes_eq packet_id dbg) _ _
              (debug_keeps (decode_debug packet) (decode_debug-Ensures.holds packet))
              (sound, refl))))

  dispatched_keeps :
      (r : Result (Bytes × Stream))
      → Post Any r
      → Kept cal now (dispatched cal working now (some bytes) r store)
  unfolding dispatched
  dispatched_keeps (return (packet_id, packet)) h = handlers_keep packet_id packet
  dispatched_keeps (throw e) h = (sound, invalid-defined UdpPacket e h)

  -- Whatever bytes arrive while all players' games are in order, the server sends a reply, and all
  -- games are in order afterwards, provided that the disk works, that `/dev/urandom` yields four bytes,
  -- and that the clock is below 2 ^ 31 and not behind any game's start.
  pub run_udp_keeps :
      (datagram : Bytes)
      → IsSound cal now (run_udp cal working now (some bytes) datagram store).1.games
        × (reply : Bytes) × ((run_udp cal working now (some bytes) datagram store).0 ≡ return reply)
  unfolding run_udp
  run_udp_keeps datagram =
      let packet = stream [] (received sock_buffer_size datagram) in
      let kept = dispatched_keeps (parse_packet_id packet) (parse_packet_id-Ensures.holds packet) in
      let (reply, sent) = response-answers _ kept.1 in (kept.0, reply, sent)
