-- ===== src/Play/Quits.antt =====
-- `quit` against the server, and `try` after the playing time.
use rc.Base.{ℕ, ◌+◌, ◌-◌, [], ◌≡◌, refl, ap, ◌∙◌, sym, subst, arith, Bytes, length, none}
use rc.Base.Int.{pos}
use rc.Client.Input.Accepts.{Checked, IsThrown, parse_key-Checked}
use rc.Client.Input.{parse_key}
use rc.Exceptions.{invalid_key}
use rc.Play.InStep.{last-IsShown}
use rc.Play.Tries.{request_of, try_handler-turn}
use rc.Play.Texts.{encode_reply_try-short}
use rc.Client.Moves.{try_ended-Becomes}
use rc.Client.UdpCommands.{try_replied, try_handler}
use rc.Server.UdpCommands.{try_reply}
use rc.Store.Games.Ended.{IsExpired, timed_out, too_late}
use rc.Store.Games.Invariant.{IsGame}
use rc.Udp.Parser.Reads.{IsKey}
use rc.Udp.Replies.RoundTrip.{decode_reply_try-encode_reply_try, filled}
use rc.Udp.Replies.{TryStatus}
use rc.Client.Moves.{playing-active, get_plid-active, end_game-Becomes, over_state}
use rc.Client.State.{Console, Events}
use rc.Client.UdpCommands.{quit_request, quit_replied, quit_handler, reported}
use rc.Exceptions.{return}
use rc.Play.InStep.{Mirrors, InStep, IsOver, quit-IsShown}
use rc.Play.Network.{World, server_net, exchange_lem}
use rc.Play.Texts.{encode_quit-NotNul, encode_reply_quit-short}
use rc.Play.Turns.{run_udp-encode_quit}
use rc.Server.UdpCommands.{quit_reply, encode, fresh_call}
use rc.Server.{response}
use rc.Store.Games.Active.{ended, update_self}
use rc.Store.Games.Ended.{quit_active}
use rc.Store.Records.Sessions.{IsCalendar, Session, session_text}
use rc.Store.Records.{Endings}
use rc.Store.{Store, Calendar, game_fname}
use rc.Text.Words.{In}
use rc.Udp.Replies.RoundTrip.{decode_reply_quit-encode_reply_quit}
use rc.Udp.Replies.{Status, ReplyTryPacket, ReplyQuitPacket, encode_reply_quit, decode_reply_quit}
use rc.Udp.Requests.{QuitPacket, encode_quit}

quit_request-Mirrors :
    (c : Console World) (g : Session)
    → Mirrors c.game g
    → quit_request c ≡ (return (record { player_id = g.plid }), c)
unfolding quit_request
quit_request-Mirrors c g v =
    rw (playing-active c v.playing, get_plid-active c v.playing)
      (ap (λ p. (return (record { player_id = p }), c)) v.player)

-- The server's files once a game has been quit.
abbrev pub files_quit : Calendar → ℕ → Session → Store → Store
files_quit cal now g s =
    ended cal g.plid Endings.quit now (pos (now - g.start)) (session_text cal g) s

-- A client in step that quits ends the game on both sides, and learns the key, over a network that
-- loses nothing and on a server whose disk works.
pub quit_ends :
    (cal : Calendar)
    → IsCalendar cal
    → (now : ℕ) (bytes : Bytes) (old_try : ReplyTryPacket) (old_quit : ReplyQuitPacket) (input : In)
      (c : Console World) (g : Session)
    → InStep cal now c g
    → (let r = quit_handler (server_net cal now bytes) old_try old_quit input c in
        (r.0 ≡ return none) × IsOver r.1 g (files_quit cal now g c.world.store))
unfolding quit_handler quit_replied reported response encode quit_reply
quit_ends cal ok_cal now bytes old_try old_quit input c g v =
    let request : QuitPacket = record { player_id = g.plid } in
    let reply : ReplyQuitPacket = record { status = Status.ok; key = g.key } in
    let files = files_quit cal now g c.world.store in
    let turn =
      rw (quit_active cal ok_cal g now (fresh_call c.world.store) v.active) at
        (run_udp-encode_quit cal now bytes c.world.store request v.game.player) in
    let answered =
      exchange_lem cal now bytes old_try old_quit (encode_quit request) (encode_reply_quit reply)
        files (decode_reply_quit old_quit) c v.empty (encode_quit-NotNul request v.game.player) turn
        (encode_reply_quit-short Status.ok reply) in
    let left : Console World = record c { world = record { store = files; inbox = [] } } in
    let (text, e) =
      end_game-Becomes g.key Events.quit left (quit-IsShown c.game g v.mirror v.game)
        v.game.secret.four in
    let run : quit_handler (server_net cal now bytes) old_try old_quit input c
        ≡ reported (return tt, record left { game = over_state c.game g.key; printed = text }) =
      rw
        (
          quit_request-Mirrors c g v.mirror,
          answered,
          decode_reply_quit-encode_reply_quit reply old_quit (λ _. v.game.secret),
          e,
        )
        refl in
    subst (λ r. (r.0 ≡ return none) × IsOver r.1 g files) (sym run)
      (
        refl,
        record {
          idle = refl;
          finished = refl;
          revealed = refl;
          left = refl;
          gone = update_self c.world.store.games (game_fname g.plid) none;
          empty = refl;
        },
      )

-- A client whose memory mirrors a game in order, and that tries a key when the playing time has
-- passed, is told so: the game is over on both sides, and the client learns the key, over a network
-- that loses nothing and on a server whose disk works.
pub late_try_ends :
    (cal : Calendar)
    → IsCalendar cal
    → (now : ℕ) (bytes : Bytes) (old_try : ReplyTryPacket) (old_quit : ReplyQuitPacket) (input : In)
      (att : Bytes) (c : Console World) (g : Session)
    → Mirrors c.game g
    → IsGame g
    → IsExpired cal g now c.world.store
    → c.world.inbox ≡ []
    → (parse_key input).0 ≡ return att
    → (let r = try_handler (server_net cal now bytes) old_try old_quit input c in
        (r.0 ≡ return none) × IsOver r.1 g (timed_out cal g now c.world.store))
unfolding try_replied reported try_reply
late_try_ends cal ok_cal now bytes old_try old_quit input att c g v game late empty typed =
    let k = subst (Checked IsKey (IsThrown invalid_key)) typed (parse_key-Checked input) in
    let reply : ReplyTryPacket = record {
      status = TryStatus.etm;
      trial = 0;
      whites = 0;
      blacks = 0;
      key = g.key;
    } in
    let files = timed_out cal g now c.world.store in
    let left : Console World = record c { world = record { store = files; inbox = [] } } in
    let (text, e) =
      try_ended-Becomes (request_of g att) (filled TryStatus.etm reply old_try) Events.lost_time
        left (last-IsShown c.game g att g.key 0 0 v game k game.secret) game.secret.four in
    let turn =
      try_handler-turn cal now bytes old_try old_quit c g input att _ _ reply
        (filled TryStatus.etm reply old_try) v empty typed
        (game.player, k, (let room = game.room in omega (arith, room)))
        (too_late cal ok_cal g now (fresh_call c.world.store) late att (length g.trials + 1)).0 refl
        (encode_reply_try-short TryStatus.etm reply (omega arith, omega arith, omega arith))
        (decode_reply_try-encode_reply_try reply old_try game.secret) in
    subst (λ r. (r.0 ≡ return none) × IsOver r.1 g files) (sym (turn ∙ ap reported e))
      (
        refl,
        record {
          idle = refl;
          finished = refl;
          revealed = refl;
          left = refl;
          gone = update_self c.world.store.games (game_fname g.plid) none;
          empty = refl;
        },
      )
