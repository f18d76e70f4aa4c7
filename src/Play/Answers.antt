-- ===== src/Play/Answers.antt =====
-- The request and the replies of an attempt by a client in step.
use rc.Base.{ℕ, ltb, ◌+◌, ◌-◌, false, [], ◌≡◌, refl, arith, Bytes, length}
use rc.Client.State.{Console}
use rc.Mastermind.Bounds.{pegs_of}
use rc.Mastermind.Pegs.{matches, common}
use rc.Play.InStep.{InStep}
use rc.Play.Network.{World}
use rc.Play.Texts.{IsSmall}
use rc.Play.Tries.{request_of}
use rc.Server.UdpCommands.{fresh_refs}
use rc.Store.Games.Attempts.{Fresh}
use rc.Store.Records.Sessions.{Session}
use rc.Store.{Store, Calendar}
use rc.Udp.Parser.Reads.{IsKey}
use rc.Udp.Replies.RoundTrip.{IsReply}
use rc.Udp.Replies.{TryStatus, ReplyTryPacket}
use rc.Udp.Requests.Accepts.{IsTry}

pub fits_uint : (p : ReplyTryPacket) → IsSmall p → IsReply TryStatus.ok p
fits_uint p h = (omega (arith, h.0), omega (arith, h.1), omega (arith, h.2))

pub fresh : Fresh fresh_refs
fresh = record { blacks_zero = refl; whites_zero = refl }

-- A client in step whose user has typed a key.
module _ (cal : Calendar) (now : ℕ) (c : Console World) (g : Session) (v : InStep cal now c g)
    (att : Bytes) (k : IsKey att) where
  pub fine : IsTry (request_of g att)
  fine = (v.game.player, k, omega (arith, v.game.room))

  unfoldable pub left : Store → Console World
  left s = record c { world = record { store = s; inbox = [] } }

  -- The reply to an accepted attempt, and the pegs in it.
  unfoldable pub accepted : ReplyTryPacket
  accepted = record {
    status = TryStatus.ok;
    trial = length g.trials + 1;
    whites = common g.key att - matches g.key att;
    blacks = matches g.key att;
    key = [];
  }

  pub accepted-IsSmall : IsSmall accepted
  unfolding accepted
  accepted-IsSmall =
      let four = (pegs_of g.key att v.game.secret k).0 in
      let room = v.game.room in (omega (arith, room), omega (arith, four), omega (arith, four))

  pub not_late : ltb (length g.trials + 1) (length g.trials + 1) ≡ false
  not_late = ground arith
