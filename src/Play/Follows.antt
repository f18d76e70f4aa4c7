-- ===== src/Play/Follows.antt =====
-- What `try` comes to, in all cases.
use rc.Base.{ℕ, ◌+◌, ◌==◌, ◌≡◌, sym, subst, arith, Bytes, length, Bool-cases, inl, inr}
use rc.Client.Input.Accepts.{Checked, IsThrown, parse_key-Checked}
use rc.Client.Input.{parse_key}
use rc.Client.State.{Console}
use rc.Client.UdpCommands.{try_handler}
use rc.Constants.{guesses_max, secret_key_len}
use rc.Exceptions.{return, invalid_key}
use rc.Mastermind.Pegs.{matches}
use rc.Play.InStep.{InStep}
use rc.Play.Network.{World, server_net}
use rc.Store.Games.Active.{tried}
use rc.Store.Records.Sessions.{IsCalendar, Session}
use rc.Store.{Calendar}
use rc.Text.Words.{In}
use rc.Udp.Parser.Reads.{IsKey}
use rc.Udp.Replies.{ReplyTryPacket, ReplyQuitPacket}
use rc.Play.Rules.{Verdict, rules, rules-duplicate, rules-won, rules-lost, rules-goes_on, Follows}
use rc.Play.Tried.{duplicate-Follows, goes_on-Follows}
use rc.Play.Decided.{won-Follows, lost-Follows}

-- The client implements the rules together with the server. While its memory mirrors the server's
-- game, which is in order and in time, `try` with a key that `parseKey` accepts comes to what the
-- rules say, over a network that loses nothing and on a server whose disk works: a key tried before
-- is refused and changes nothing; any other is noted on both sides with its pegs, and client and
-- server stay in step; the secret key, or the eighth attempt, ends the game on both sides, with the
-- key known to the client and the game's file moved to the finished games.
pub try_handler-Follows :
    (cal : Calendar)
    → IsCalendar cal
    → (now : ℕ) (bytes : Bytes) (old_try : ReplyTryPacket) (old_quit : ReplyQuitPacket)
      (c : Console World) (g : Session)
    → InStep cal now c g
    → (input : In) (att : Bytes) → (parse_key input).0 ≡ return att
    → Follows cal now c.world.store g att
        (rules g att)
        (try_handler (server_net cal now bytes) old_try old_quit input c)
try_handler-Follows cal ok_cal now bytes old_try old_quit c g v input att typed =
    let k = subst (Checked IsKey (IsThrown invalid_key)) typed (parse_key-Checked input) in
    let P : Verdict → Type 0 = λ verdict.
      Follows cal now c.world.store g att verdict
        (try_handler (server_net cal now bytes) old_try old_quit input c) in
    elim (Bool-cases (tried att g.trials)) [
      | inl again ↦
          subst P (sym (rules-duplicate g att again))
            (duplicate-Follows cal ok_cal now bytes old_try old_quit c g v input att typed k again)
      | inr new ↦ elim (Bool-cases (matches g.key att == secret_key_len)) [
        | inl right ↦
            subst P (sym (rules-won g att new right))
              (won-Follows cal ok_cal now bytes old_try old_quit c g v input att typed k new right)
        | inr wrong ↦ elim (Bool-cases (length g.trials + 1 == guesses_max)) [
          | inl last ↦ subst P (sym (rules-lost g att new wrong last)) (
              lost-Follows cal ok_cal now bytes old_try old_quit c g v input att typed k new wrong
                (ground (arith, last)))
          | inr room ↦
              let some_room = v.game.room in
              subst P (sym (rules-goes_on g att new wrong room)) (
                goes_on-Follows cal ok_cal now bytes old_try old_quit c g v input att typed k new
                  wrong (ground (arith, some_room)))
        ]
      ]
    ]
