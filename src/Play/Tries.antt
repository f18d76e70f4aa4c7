-- ===== src/Play/Tries.antt =====
-- `try` against the server: client and server go on in step, or both end the game.
use rc.Base.{ℕ, ◌+◌, ◌≤◌, [], ◌≡◌, refl, ap, ◌∙◌, Bytes, length}
use rc.Client.Moves.{playing-active, get_plid-active}
use rc.Client.Input.{parse_key}
use rc.Client.State.{Console}
use rc.Client.UdpCommands.{reported, try_request, try_replied, try_handler}
use rc.Constants.{sock_buffer_size}
use rc.Exceptions.{Result, return}
use rc.Play.InStep.{Mirrors}
use rc.Play.Network.{World, server_net, exchange_lem}
use rc.Play.Texts.{encode_try-NotNul}
use rc.Play.Turns.{run_udp-encode_try}
use rc.Server.UdpCommands.{UdpPacket, try_reply, fresh_call, encode}
use rc.Server.{response}
use rc.Store.Files.{Call}
use rc.Store.Games.Active.{working}
use rc.Store.Games.{attempt}
use rc.Store.Records.Sessions.{Session}
use rc.Store.{Calendar}
use rc.Text.Words.{In}
use rc.Udp.Parser.{run}
use rc.Udp.Replies.{ReplyTryPacket, ReplyQuitPacket, encode_reply_try, decode_reply_try}
use rc.Udp.Requests.Accepts.{IsTry}
use rc.Udp.Requests.{TryPacket, encode_try}

-- The request of a client that mirrors a game.
abbrev pub request_of : Session → Bytes → TryPacket
request_of g att = record { trial = length g.trials + 1; player_id = g.plid; key = att }

try_request-Mirrors :
    (c : Console World) (g : Session) (input : In) (att : Bytes)
    → Mirrors c.game g
    → (parse_key input).0 ≡ return att
    → try_request input c ≡ (return (request_of g att), c)
unfolding try_request
try_request-Mirrors c g input att v typed =
    rw (playing-active c v.playing, typed, get_plid-active c v.playing)
      (ap (λ n. (return (record { trial = n; player_id = c.game.plid; key = att }), c)) v.counted
        ∙ ap (λ p. (return (record { trial = length g.trials + 1; player_id = p; key = att }), c))
            v.player)

module _ (cal : Calendar) (now : ℕ) (bytes : Bytes) (old_try : ReplyTryPacket)
    (old_quit : ReplyQuitPacket) where
  -- From the command to what the client does with the reply, with the files that the server
  -- leaves.
  pub try_handler-turn :
      (c : Console World) (g : Session) (input : In) (att : Bytes) (r : Result ℕ) (call : Call)
      (reply reading : ReplyTryPacket)
      → Mirrors c.game g
      → c.world.inbox ≡ []
      → (parse_key input).0 ≡ return att
      → IsTry (request_of g att)
      → attempt cal working g.plid now att (length g.trials + 1) (fresh_call c.world.store)
        ≡ (r, call)
      → try_reply r call.refs ≡ return (UdpPacket.reply_try reply)
      → length (encode_reply_try reply) ≤ sock_buffer_size
      → run (decode_reply_try old_try) (encode_reply_try reply) ≡ return reading
      → try_handler (server_net cal now bytes) old_try old_quit input c
        ≡ reported (
            try_replied
              (request_of g att)
              reading.status
              reading
              (record c { world = record { store = call.store; inbox = [] } }))
  unfolding try_handler response encode
  try_handler-turn c g input att r call reply reading v empty typed fine judged replied fits read =
      let p = request_of g att in
      let turn = rw (judged, replied) at (run_udp-encode_try cal now bytes c.world.store p fine) in
      let answered =
        exchange_lem cal now bytes old_try old_quit (encode_try p) (encode_reply_try reply)
          call.store (decode_reply_try old_try) c empty (encode_try-NotNul p fine.0 fine.1) turn
          fits in
      rw (try_request-Mirrors c g input att v typed, answered, read) refl
