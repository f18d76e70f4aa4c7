-- ===== src/Tests/Tcp.antt =====
-- TCP packets of a sample player.
use rc.Base.{zero, suc, [], ◌∷◌, ◌++◌, ◌≡◌, refl, Bytes, codes, arith, length, All, ℕ}
use rc.Exceptions.{throw, invalid_packet, connection_timeout}
use rc.Tcp.Packets.{
  ShowTrialsPacket, TrialsStatus, ReplyShowTrialsPacket, read_reply_show_trials,
  send_reply_show_trials,
}
use rc.Tcp.Reports.{trials_packet, read_reply_show_trials_long}
use rc.Tests.Samples.{player}
use rc.Text.Words.Reads.{NotSpace}
use rc.Text.Words.{is_space}

abbrev request : ShowTrialsPacket
request = record { player_id = player }

abbrev old_reply : ReplyShowTrialsPacket
old_reply = record { status = TrialsStatus.nok; fname = []; fdata = []; fsize = 0 }

abbrev name : Bytes
name = codes "S.txt"

name_solid : All NotSpace name
unfolding is_space
name_solid = (refl, (refl, (refl, (refl, (refl, tt)))))

dots : ℕ → Bytes
dots zero = []
dots (suc n) = b'.' ∷ dots n

length-dots : (n : ℕ) → length (dots n) ≡ n
unfolding dots
length-dots zero = refl
length-dots (suc n) = omega (arith, length-dots n)

read_reply_show_trials_long_example :
    (read_reply_show_trials connection_timeout old_reply
      (send_reply_show_trials (trials_packet TrialsStatus.fin name (dots 1200)) ++ [])).0
    ≡ throw invalid_packet
read_reply_show_trials_long_example =
    read_reply_show_trials_long connection_timeout name (dots 1200) name_solid (omega arith)
      old_reply TrialsStatus.fin [] (λ e. cc) (omega (arith, length-dots 1200))
      (omega (arith, length-dots 1200))
