-- ===== src/Play/Starts.antt =====
-- `start` and `debug` against the server: a new game begins on both sides, in step.
use rc.Base.{
  ℕ, ◌≤◌, false, [], ◌++◌, ◌≡◌, refl, ap, All, sym, subst, arith, Bytes, length, none, some, inl,
  inr, codes,
}
use rc.Client.Input.Accepts.{Checked, IsRefusal, requests-Checked}
use rc.Client.Moves.{start_game-Becomes}
use rc.Client.Shown.{IsShown, IsFour}
use rc.Client.State.{GameState, Console, started, print}
use rc.Client.UdpCommands.{
  start_request, start_replied, start_new_game_handler, debug_request, debug_replied,
  debug_game_handler, reported,
}
use rc.Constants.{secret_key_len, sock_buffer_size}
use rc.Exceptions.{return}
use rc.Play.InStep.{InStep, Mirrors, Knows}
use rc.Play.Network.{World, server_net, exchange_lem}
use rc.Play.Texts.{encode_start-NotNul, encode_debug-NotNul}
use rc.Play.Turns.{run_udp-encode_start, run_udp-encode_debug}
use rc.Server.UdpCommands.{start_reply, debug_reply, create_status, encode, fresh_call}
use rc.Server.{response}
use rc.Store.Games.Accepted.{saved}
use rc.Store.Games.Active.{update_self}
use rc.Store.Games.Created.{new_session, create_first}
use rc.Store.Games.Invariant.{new-IsGame, game-IsSession}
use rc.Store.Games.Keys.{choose_key_random}
use rc.Store.Games.{choose_key, colors_of}
use rc.Store.Records.Sessions.{session_text}
use rc.Store.Records.{GameMode}
use rc.Store.{Calendar, game_fname}
use rc.Text.Words.{In}
use rc.Udp.Parser.Reads.{IsKey, IsPlayerId}
use rc.Udp.Replies.RoundTrip.{status_replies_round_trip}
use rc.Udp.Replies.{
  Status, ReplyTryPacket, ReplyQuitPacket, ReplyStartGamePacket, ReplyDebugPacket,
  decode_reply_start, encode_reply_start, decode_reply_debug, encode_reply_debug,
}
use rc.Udp.Requests.Accepts.{IsStart, IsDebug}
use rc.Udp.Requests.RoundTrip.{IsPlayTime}
use rc.Udp.Requests.{StartNewGamePacket, DebugPacket, encode_start, encode_debug}

abbrev started_ok : ReplyStartGamePacket
started_ok = record { status = Status.ok }

abbrev debug_ok : ReplyDebugPacket
debug_ok = record { status = Status.ok }

reply_start-short : length (encode_reply_start started_ok) ≤ sock_buffer_size
unfolding encode_reply_start
reply_start-short = omega arith

reply_debug-short : length (encode_reply_debug debug_ok) ≤ sock_buffer_size
unfolding encode_reply_debug
reply_debug-short = omega arith

module _ (cal : Calendar) (now : ℕ) (int_now : now ≤ 2147483647) where
  -- A console on which a new game has begun, where the server has saved it.
  begun :
      (c : Console World) (m : GameState) (plid key : Bytes) (time : ℕ) (mode : GameMode)
      (text : Bytes)
      → IsPlayerId plid
      → IsKey key
      → IsPlayTime time
      → Mirrors m (new_session plid now time key mode)
      → InStep cal now
          (record c {
            game = m;
            printed = text;
            world = record {
              store = saved cal (new_session plid now time key mode) c.world.store;
              inbox = [];
            };
          })
          (new_session plid now time key mode)
  begun c m plid key time mode text v k t mirror =
      let g = new_session plid now time key mode in
      let game = new-IsGame plid key now time mode v k t int_now in
      record {
        mirror = mirror;
        game = game;
        active = record {
          session = game-IsSession g game;
          file = update_self c.world.store.games (game_fname plid) (some (session_text cal g));
          begun = omega arith;
          in_time = omega arith;
          short = t.1;
          int_time = int_now;
        };
        empty = refl;
      }

  -- The memory of a new game: a key to print is there in debug mode only.
  started-Mirrors :
      (m : GameState) (plid key : Bytes) (time : ℕ) (mode : GameMode)
      → m.debug ≡ false
      → Mirrors (started plid none m) (new_session plid now time key mode)
  unfolding started
  started-Mirrors m plid key time mode plain = record {
    playing = refl;
    unfinished = refl;
    player = refl;
    counted = refl;
    guessed = refl;
    marked = refl;
    keyed = inl plain;
  }

  debug-Mirrors :
      (m : GameState) (plid key : Bytes) (time : ℕ) (mode : GameMode)
      → IsKey key
      → Mirrors (started plid (some key) m) (new_session plid now time key mode)
  unfolding started
  debug-Mirrors m plid key time mode k = record {
    playing = refl;
    unfinished = refl;
    player = refl;
    counted = refl;
    guessed = refl;
    marked = refl;
    keyed = inr k.four;
  }

  -- The key is there in debug mode only.
  started-Knows :
      (m : GameState) (plid key : Bytes)
      → m.debug ≡ false
      → Knows GameMode.play key (started plid none m)
  unfolding started
  started-Knows m plid key plain = (plain, refl)

  debug-Knows :
      (m : GameState) (plid key : Bytes) → Knows GameMode.debug key (started plid (some key) m)
  unfolding started
  debug-Knows m plid key = (refl, refl)

  Mirrors-IsShown :
      (m : GameState) (plid key : Bytes) (time : ℕ) (mode : GameMode)
      → Mirrors m (new_session plid now time key mode)
      → IsShown m
  Mirrors-IsShown m plid key time mode v = record {
    four = subst (All IsFour) (sym v.guessed) tt;
    marked = let none_guessed = ap length v.guessed in omega (arith, none_guessed);
    keyed = elim v.keyed [ inl plain ↦ inl (rw (v.unfinished, plain) refl) | inr four ↦ inr four ];
  }

  module _ (bytes : Bytes) (random : length bytes ≡ secret_key_len) (old_try : ReplyTryPacket)
      (old_quit : ReplyQuitPacket) (c : Console World) (input : In) where
    -- A player without a game on the server who starts one is in step with it, over a network that
    -- loses nothing and holds no reply yet, with a clock of at most 2 ^ 31 - 1, on a server whose disk
    -- works and whose `/dev/urandom` yields four bytes, if
    -- the client has not been in debug mode before: both sides hold a new game of the id and the
    -- time that the user has typed, without attempts, and the client keeps no key, neither that of
    -- this game nor one of an earlier game.
    pub start-InStep :
        (request : StartNewGamePacket)
        → (start_request input).0 ≡ return request
        → c.game.debug ≡ false
        → c.world.inbox ≡ []
        → c.world.store.games (game_fname request.player_id) ≡ none
        → (let r = start_new_game_handler (server_net cal now bytes) old_try old_quit input c in
            (r.0 ≡ return none)
            × InStep cal now r.1
                (new_session request.player_id now request.time (colors_of bytes) GameMode.play)
            × Knows GameMode.play (colors_of bytes) r.1.game)
    unfolding start_new_game_handler start_replied print start_reply create_status response encode
        reported
    start-InStep request typed plain empty no_game =
        let fine = subst (Checked IsStart IsRefusal) typed (requests-Checked input).0 in
        let (chosen, k) = choose_key_random bytes (fresh_call c.world.store) random in
        let plid = request.player_id in
        let g = new_session plid now request.time (colors_of bytes) GameMode.play in
        let created =
          create_first cal plid now request.time none (some bytes) (colors_of bytes) GameMode.play
            (fresh_call c.world.store) (λ d. (choose_key_random bytes d random).0) no_game in
        let turn = rw created at (run_udp-encode_start cal now bytes c.world.store request fine) in
        let answered =
          exchange_lem cal now bytes old_try old_quit (encode_start request)
            (encode_reply_start started_ok) (saved cal g c.world.store) decode_reply_start c empty
            (encode_start-NotNul request fine.0) turn reply_start-short in
        let mirror =
          started-Mirrors c.game plid (colors_of bytes) request.time GameMode.play plain in
        let now_on : Console World = record c {
          printed = c.printed ++ codes "Game started!\n";
          world = record { store = saved cal g c.world.store; inbox = [] };
        } in
        let (text, e) = start_game-Becomes plid none now_on (
          Mirrors-IsShown (started plid none c.game) plid (colors_of bytes) request.time
            GameMode.play mirror) in
        let run : start_new_game_handler (server_net cal now bytes) old_try old_quit input c
            ≡ reported
                (return tt, record now_on { game = started plid none c.game; printed = text }) =
          rw (typed, answered, (status_replies_round_trip started_ok debug_ok).0, e) refl in
        subst (λ r. (r.0 ≡ return none) × InStep cal now r.1 g × Knows g.mode g.key r.1.game)
          (sym run)
          (
            refl,
            begun c (started plid none c.game) plid (colors_of bytes) request.time GameMode.play
                text fine.0 k fine.1 mirror,
            started-Knows c.game plid (colors_of bytes) plain,
          )

    -- A player without a game on the server who starts one with `debug` is in step with it as well,
    -- over a network that loses nothing and holds no reply yet, with a clock of at most 2 ^ 31 - 1 and
    -- on a server whose disk works, whether or not the client has been in debug mode before: both sides hold a new game of the id, the time and the key that
    -- the user has typed, without attempts.
    pub debug-InStep :
        (request : DebugPacket)
        → (debug_request input).0 ≡ return request
        → c.world.inbox ≡ []
        → c.world.store.games (game_fname request.player_id) ≡ none
        → (let r = debug_game_handler (server_net cal now bytes) old_try old_quit input c in
            (r.0 ≡ return none)
            × InStep cal now r.1
                (new_session request.player_id now request.time request.key GameMode.debug)
            × Knows GameMode.debug request.key r.1.game)
    unfolding debug_game_handler debug_replied debug_reply create_status response encode reported
        choose_key
    debug-InStep request typed empty no_game =
        let fine = subst (Checked IsDebug IsRefusal) typed (requests-Checked input).1 in
        let plid = request.player_id in
        let g = new_session plid now request.time request.key GameMode.debug in
        let created =
          create_first cal plid now request.time (some request.key) none request.key GameMode.debug
            (fresh_call c.world.store) (λ d. refl) no_game in
        let turn = rw created at (run_udp-encode_debug cal now bytes c.world.store request fine) in
        let answered =
          exchange_lem cal now bytes old_try old_quit (encode_debug request)
            (encode_reply_debug debug_ok) (saved cal g c.world.store) decode_reply_debug c empty
            (encode_debug-NotNul request fine.0 fine.2) turn reply_debug-short in
        let mirror = debug-Mirrors c.game plid request.key request.time GameMode.debug fine.2 in
        let now_on : Console World = record c {
          world = record { store = saved cal g c.world.store; inbox = [] };
        } in
        let (text, e) = start_game-Becomes plid (some request.key) now_on (
          Mirrors-IsShown (started plid (some request.key) c.game) plid request.key request.time
            GameMode.debug mirror) in
        let run : debug_game_handler (server_net cal now bytes) old_try old_quit input c
            ≡ reported (
              return tt,
              record now_on { game = started plid (some request.key) c.game; printed = text },
            ) =
          rw (typed, answered, (status_replies_round_trip started_ok debug_ok).1, e) refl in
        subst (λ r. (r.0 ≡ return none) × InStep cal now r.1 g × Knows g.mode g.key r.1.game)
          (sym run)
          (
            refl,
            begun c (started plid (some request.key) c.game) plid request.key request.time
                GameMode.debug text fine.0 fine.2 fine.1 mirror,
            debug-Knows c.game plid request.key,
          )
