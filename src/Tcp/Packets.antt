-- ===== src/Tcp/Packets.antt =====
-- common/protocol/TCP/tcp.cpp and tcp.hpp. `read` takes a packet from a connection, and `send` is the
-- text that it writes to one, whole.
use rc.Base.{ℕ, [], ◌∷◌, ◌++◌, Bytes, bytes_eq, codes, if◌then◌else◌}
use rc.Exceptions.{Exception, invalid_packet, err_packet}
use rc.Store.{◌>>=◌, ◌>>◌, done, fail, require}
use rc.Tcp.Parser.{
  Reader, next, end_packet, check_next_char, parse_packet_id, parse_status, parse_player_id,
  parse_file_name, parse_file_size, parse_file,
}
use rc.Text.Decimal.{decimal}

pub record ShowTrialsPacket : Type 0 where
  pub player_id : Bytes

pub data TrialsStatus : Type 0 where
  act fin nok : TrialsStatus

pub record ReplyShowTrialsPacket : Type 0 where
  pub status : TrialsStatus
  pub fname : Bytes
  pub fdata : Bytes
  pub fsize : ℕ

pub data ScoreboardStatus : Type 0 where
  empty ok : ScoreboardStatus

pub record ReplyShowScoreboardPacket : Type 0 where
  pub status : ScoreboardStatus
  pub fname : Bytes
  pub fdata : Bytes
  pub fsize : ℕ

-- The name, the size and the data of a file, behind a status.
abbrev pub file_text : Bytes → ℕ → Bytes → Bytes
file_text fname fsize fdata =
    b' ' ∷ (fname ++ (b' ' ∷ (decimal fsize ++ (b' ' ∷ (fdata ++ b'\n' ∷ [])))))

unfoldable pub send_show_trials : ShowTrialsPacket → Bytes
send_show_trials p = codes "STR " ++ (p.player_id ++ b'\n' ∷ [])

unfoldable pub send_show_scoreboard : Bytes
send_show_scoreboard = codes "SSB\n"

-- `TcpErrorPacket::send`.
unfoldable pub send_error : Bytes
send_error = codes "ERR\n"

unfoldable pub send_reply_show_trials : ReplyShowTrialsPacket → Bytes
send_reply_show_trials p = codes "RST " ++ fields p.status
  where
    fields : TrialsStatus → Bytes
    fields TrialsStatus.nok = codes "NOK\n"
    fields TrialsStatus.act = codes "ACT" ++ file_text p.fname p.fsize p.fdata
    fields TrialsStatus.fin = codes "FIN" ++ file_text p.fname p.fsize p.fdata

unfoldable pub send_reply_show_scoreboard : ReplyShowScoreboardPacket → Bytes
send_reply_show_scoreboard p = codes "RSS " ++ fields p.status
  where
    fields : ScoreboardStatus → Bytes
    fields ScoreboardStatus.empty = codes "EMPTY\n"
    fields ScoreboardStatus.ok = codes "OK" ++ file_text p.fname p.fsize p.fdata

module _ (closing : Exception) where
  -- Behind the identifier, which the server has read.
  unfoldable pub read_show_trials : Reader ShowTrialsPacket
  read_show_trials = do
    next closing
    plid ← parse_player_id closing
    end_packet closing
    done (record { player_id = plid })

  unfoldable pub read_show_scoreboard : Reader (Unit {0})
  read_show_scoreboard = end_packet closing

  unfoldable pub expect_id : Bytes → Reader (Unit {0})
  unfolding bytes_eq
  expect_id expected = do
    parsed ← parse_packet_id closing
    if bytes_eq parsed (codes "ERR")
        then fail err_packet
        else require (bytes_eq parsed expected) invalid_packet

  -- `p` is the packet object that `read` fills.
  unfoldable pub read_trials_file :
      ReplyShowTrialsPacket → TrialsStatus → Reader ReplyShowTrialsPacket
  read_trials_file p s = do
    next closing
    fname ← parse_file_name closing
    fsize ← parse_file_size closing
    fdata ← parse_file closing fsize
    done (record { status = s; fname = fname; fdata = fdata; fsize = fsize })

  unfoldable pub read_reply_show_trials : ReplyShowTrialsPacket → Reader ReplyShowTrialsPacket
  unfolding bytes_eq
  read_reply_show_trials p = do
    expect_id (codes "RST")
    next closing
    text ← parse_status closing
    q ←
        (if bytes_eq text (codes "NOK")
          then done (record p { status = TrialsStatus.nok })
          else if bytes_eq text (codes "ACT")
          then read_trials_file p TrialsStatus.act
          else if bytes_eq text (codes "FIN")
          then read_trials_file p TrialsStatus.fin
          else fail invalid_packet)
    end_packet closing
    done q

  unfoldable pub read_scoreboard_fields :
      ReplyShowScoreboardPacket → Bytes → Reader ReplyShowScoreboardPacket
  unfolding bytes_eq
  read_scoreboard_fields p text =
      if bytes_eq text (codes "EMP")
      then (do
        check_next_char closing b'T'
        check_next_char closing b'Y'
        done (record p { status = ScoreboardStatus.empty }))
      else if bytes_eq text (codes "OK ")
      then (do
        fname ← parse_file_name closing
        fsize ← parse_file_size closing
        fdata ← parse_file closing fsize
        done (record { status = ScoreboardStatus.ok; fname = fname; fdata = fdata; fsize = fsize }))
      else fail invalid_packet

  unfoldable pub read_reply_show_scoreboard :
      ReplyShowScoreboardPacket → Reader ReplyShowScoreboardPacket
  read_reply_show_scoreboard p = do
    expect_id (codes "RSS")
    next closing
    text ← parse_status closing
    q ← read_scoreboard_fields p text
    end_packet closing
    done q
