-- ===== src/Play/Tried.antt =====
-- An attempt that is refused as a duplicate, or with which the game goes on.
use rc.Base.{
  ℕ, ◌+◌, ◌-◌, ◌<◌, ◌==◌, true, false, [], ◌≡◌, refl, sym, subst, ap, ◌∙◌, arith, Bytes, length,
}
use rc.Client.Input.{parse_key}
use rc.Client.Moves.{try_ok-goes_on}
use rc.Client.State.{Console}
use rc.Client.UdpCommands.{reported, try_replied, try_handler}
use rc.Constants.{guesses_max, secret_key_len}
use rc.Exceptions.{return}
use rc.Mastermind.Bounds.{pegs_of}
use rc.Mastermind.Pegs.{matches, common}
use rc.Play.InStep.{InStep, Mirrors-next, next-IsShown}
use rc.Play.Network.{World, server_net}
use rc.Play.Texts.{encode_reply_try-short}
use rc.Play.Tries.{request_of, try_handler-turn}
use rc.Server.UdpCommands.{fresh_call, try_reply}
use rc.Store.Games.Accepted.{trial_of, saved, attempt_accepted}
use rc.Store.Games.Active.{tried, update_self}
use rc.Store.Games.Attempts.{attempt_duplicate}
use rc.Store.Games.Invariant.{next-IsGame, game-IsSession}
use rc.Store.Records.Sessions.{IsCalendar, Session}
use rc.Store.{Calendar, game_fname}
use rc.Text.Words.{In}
use rc.Udp.Parser.Reads.{IsKey}
use rc.Udp.Replies.RoundTrip.{decode_reply_try-encode_reply_try, filled}
use rc.Udp.Replies.{TryStatus, ReplyTryPacket, ReplyQuitPacket}
use rc.Play.Answers.{fits_uint, fresh, fine, left, accepted, accepted-IsSmall, not_late}
use rc.Play.Rules.{Verdict, after_try, Follows}

-- A client in step whose user has typed a key.
module _ (cal : Calendar) (ok_cal : IsCalendar cal) (now : ℕ) (bytes : Bytes)
    (old_try : ReplyTryPacket) (old_quit : ReplyQuitPacket) (c : Console World) (g : Session)
    (v : InStep cal now c g) (input : In) (att : Bytes) (typed : (parse_key input).0 ≡ return att)
    (k : IsKey att) where
  pub duplicate-Follows :
      tried att g.trials ≡ true
      → Follows cal now c.world.store g att Verdict.duplicate
          (try_handler (server_net cal now bytes) old_try old_quit input c)
  unfolding try_replied reported try_reply left
  duplicate-Follows again =
      let reply : ReplyTryPacket = record {
        status = TryStatus.dup;
        trial = 0;
        whites = 0;
        blacks = 0;
        key = [];
      } in
      subst (Follows cal now c.world.store g att Verdict.duplicate)
        (sym (
          try_handler-turn cal now bytes old_try old_quit c g input att _ _ reply
            (filled TryStatus.dup reply old_try) v.mirror v.empty typed (fine cal now c g v att k)
            (attempt_duplicate cal ok_cal g now att (fresh_call c.world.store) v.active
              (length g.trials + 1) refl again)
            refl
            (encode_reply_try-short TryStatus.dup reply (omega arith, omega arith, omega arith))
            (decode_reply_try-encode_reply_try reply old_try tt)))
        (refl, record { mirror = v.mirror; game = v.game; active = v.active; empty = refl })

  pub goes_on-Follows :
      tried att g.trials ≡ false
      → (matches g.key att == secret_key_len) ≡ false
      → length g.trials + 1 < guesses_max
      → Follows cal now c.world.store g att Verdict.goes_on
          (try_handler (server_net cal now bytes) old_try old_quit input c)
  unfolding try_replied reported try_reply left accepted
  goes_on-Follows new wrong room =
      let w = common g.key att - matches g.key att in
      let b = matches g.key att in
      let pegs = (pegs_of g.key att v.game.secret k).1 in
      let kept =
        left cal now c g v att k
          (saved cal (after_try cal now c.world.store g att) c.world.store) in
      let game = next-IsGame g now att w b v.game k new pegs (ground (arith, wrong)) room in
      let (text, e) =
        try_ok-goes_on (request_of g att)
          (filled TryStatus.ok (accepted cal now c g v att k) old_try) kept
          (not_late cal now c g v att k) wrong v.mirror.playing
          (next-IsShown c.game g att b w v.mirror v.game k) in
      subst (Follows cal now c.world.store g att Verdict.goes_on)
        (sym (
          try_handler-turn cal now bytes old_try old_quit c g input att _ _
            (accepted cal now c g v att k)
            (filled TryStatus.ok (accepted cal now c g v att k) old_try) v.mirror v.empty typed
            (fine cal now c g v att k)
            (attempt_accepted cal ok_cal g now att (fresh_call c.world.store) v.active fresh new w b
              pegs (ground (arith, wrong)) room)
            refl
            (encode_reply_try-short TryStatus.ok (accepted cal now c g v att k)
              (accepted-IsSmall cal now c g v att k))
            (decode_reply_try-encode_reply_try (accepted cal now c g v att k) old_try
              (fits_uint (accepted cal now c g v att k) (accepted-IsSmall cal now c g v att k)))
          ∙ ap reported e))
        (
          refl,
          record {
            mirror = Mirrors-next c.game g (trial_of g now att w b) v.mirror (omega (arith, room));
            game = game;
            active = record {
              session = game-IsSession (after_try cal now c.world.store g att) game;
              file = update_self c.world.store.games (game_fname g.plid) _;
              begun = v.active.begun;
              in_time = v.active.in_time;
              short = v.active.short;
              int_time = v.active.int_time;
            };
            empty = refl;
          },
        )
