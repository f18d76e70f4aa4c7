-- ===== src/Play/Decided.antt =====
-- An attempt that ends the game.
use rc.Base.{
  ℕ, ◌+◌, ◌-◌, ◌==◌, true, false, [], ◌≡◌, refl, sym, subst, ap, ◌∙◌, arith, Bytes, length, none,
}
use rc.Base.Int.{pos}
use rc.Client.Input.{parse_key}
use rc.Client.Moves.{saved_state, over_state, try_ok-won, try_ended-Becomes}
use rc.Client.State.{GameState, Console, Events}
use rc.Client.UdpCommands.{reported, try_replied, try_handler}
use rc.Constants.{guesses_max, secret_key_len}
use rc.Exceptions.{return}
use rc.Mastermind.Bounds.{pegs_of, matches_all}
use rc.Mastermind.Pegs.{matches, common}
use rc.Play.InStep.{InStep, IsOver, last-IsShown}
use rc.Play.Network.{World, server_net}
use rc.Play.Texts.{encode_reply_try-short}
use rc.Play.Tries.{request_of, try_handler-turn}
use rc.Server.UdpCommands.{fresh_call, try_reply}
use rc.Store.Games.Accepted.{scored, attempt_won, attempt_exhausted}
use rc.Store.Games.Active.{tried, ended, update_self}
use rc.Store.Records.Sessions.{IsCalendar, Session, session_text}
use rc.Store.Records.{Endings}
use rc.Store.{Store, Calendar, game_fname}
use rc.Text.Words.{In}
use rc.Udp.Parser.Reads.{IsKey}
use rc.Udp.Replies.RoundTrip.{decode_reply_try-encode_reply_try, filled}
use rc.Udp.Replies.{TryStatus, ReplyTryPacket, ReplyQuitPacket}
use rc.Play.Answers.{fits_uint, fresh, fine, left, accepted, accepted-IsSmall, not_late}
use rc.Play.Rules.{Verdict, after_try, files_ended, Follows}

-- A client in step whose user has typed a key.
module _ (cal : Calendar) (ok_cal : IsCalendar cal) (now : ℕ) (bytes : Bytes)
    (old_try : ReplyTryPacket) (old_quit : ReplyQuitPacket) (c : Console World) (g : Session)
    (v : InStep cal now c g) (input : In) (att : Bytes) (typed : (parse_key input).0 ≡ return att)
    (k : IsKey att) where
  -- A game that has ended with the attempt leaves no active game of the player.
  over :
      (reason : Endings) (m : GameState) (text : Bytes) (files : Store)
      → m.is_game ≡ false
      → m.finished ≡ true
      → m.key ≡ g.key
      → files.games
        ≡ (ended cal g.plid reason now
            (pos (now - g.start))
            (session_text cal (after_try cal now c.world.store g att))
            c.world.store).games
      → IsOver
          (record c { game = m; printed = text; world = record { store = files; inbox = [] } })
          g
          files
  over reason m text files idle finished key games = record {
    idle = idle;
    finished = finished;
    revealed = key;
    left = refl;
    gone =
        ap (λ f. f (game_fname g.plid)) games
        ∙ update_self c.world.store.games (game_fname g.plid) none;
    empty = refl;
  }

  pub won-Follows :
      tried att g.trials ≡ false
      → (matches g.key att == secret_key_len) ≡ true
      → Follows cal now c.world.store g att Verdict.won
          (try_handler (server_net cal now bytes) old_try old_quit input c)
  unfolding try_replied reported try_reply left accepted
  won-Follows new right =
      let w = common g.key att - matches g.key att in
      let b = matches g.key att in
      let pegs = (pegs_of g.key att v.game.secret k).1 in
      let files =
        scored cal g now (length g.trials + 1)
          (files_ended cal now c.world.store g att Endings.win) in
      let same =
        matches_all g.key att (k.four ∙ sym v.game.secret.four)
          (ground (arith, right, v.game.secret.four)) in
      let (text, e) =
        try_ok-won (request_of g att) (filled TryStatus.ok (accepted cal now c g v att k) old_try)
          (left cal now c g v att k files) (not_late cal now c g v att k) right
          (last-IsShown c.game g att att b w v.mirror v.game k k) k.four in
      subst (Follows cal now c.world.store g att Verdict.won)
        (sym (
          try_handler-turn cal now bytes old_try old_quit c g input att _ _
            (accepted cal now c g v att k)
            (filled TryStatus.ok (accepted cal now c g v att k) old_try) v.mirror v.empty typed
            (fine cal now c g v att k)
            (attempt_won cal ok_cal g now att (fresh_call c.world.store) v.active fresh new w b pegs
              (ground (arith, right)))
            refl
            (encode_reply_try-short TryStatus.ok (accepted cal now c g v att k)
              (accepted-IsSmall cal now c g v att k))
            (decode_reply_try-encode_reply_try (accepted cal now c g v att k) old_try
              (fits_uint (accepted cal now c g v att k) (accepted-IsSmall cal now c g v att k)))
          ∙ ap reported e))
        (
          refl,
          over Endings.win (over_state (saved_state c.game att b w) att) text files refl refl same
              refl,
        )

  pub lost-Follows :
      tried att g.trials ≡ false
      → (matches g.key att == secret_key_len) ≡ false
      → length g.trials + 1 ≡ guesses_max
      → Follows cal now c.world.store g att Verdict.lost
          (try_handler (server_net cal now bytes) old_try old_quit input c)
  unfolding try_replied reported try_reply left
  lost-Follows new wrong last =
      let w = common g.key att - matches g.key att in
      let b = matches g.key att in
      let (four, pegs) = pegs_of g.key att v.game.secret k in
      let reply : ReplyTryPacket = record {
        status = TryStatus.ent;
        trial = 0;
        whites = w;
        blacks = b;
        key = g.key;
      } in
      let files = files_ended cal now c.world.store g att Endings.lost in
      let (text, e) =
        try_ended-Becomes (request_of g att) (filled TryStatus.ent reply old_try)
          Events.lost_maxtrials (left cal now c g v att k files)
          (last-IsShown c.game g att g.key 0 0 v.mirror v.game k v.game.secret)
          v.game.secret.four in
      subst (Follows cal now c.world.store g att Verdict.lost)
        (sym (
          try_handler-turn cal now bytes old_try old_quit c g input att _ _ reply
            (filled TryStatus.ent reply old_try) v.mirror v.empty typed (fine cal now c g v att k)
            (attempt_exhausted cal ok_cal g now att (fresh_call c.world.store) v.active fresh new w
              b pegs (ground (arith, wrong)) last)
            refl
            (encode_reply_try-short TryStatus.ent reply
              (omega arith, omega (arith, four), omega (arith, four)))
            (decode_reply_try-encode_reply_try reply old_try v.game.secret)
          ∙ ap reported e))
        (
          refl,
          over Endings.lost (over_state (saved_state c.game att 0 0) g.key) text files refl refl
              refl refl,
        )
