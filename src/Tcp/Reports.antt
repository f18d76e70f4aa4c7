-- ===== src/Tcp/Reports.antt =====
-- Reports over TCP: what the client reads of a file that the server sends.
use rc.Base.{
  ℕ, ◌-◌, ◌≤◌, ◌<◌, [], ◌∷◌, ◌++◌, ◌≡◌, ◌≢◌, refl, ap, ◌∙◌, Bytes, length, arith, All, append_assoc,
}
use rc.Constants.{fname_max, fsize_max}
use rc.Exceptions.{Exception, Result, return, throw, invalid_packet}
use rc.Store.{Op, resume, ◌>>=◌, ◌>>◌, done}
use rc.Tcp.Packets.{
  TrialsStatus, ReplyShowTrialsPacket, file_text, send_reply_show_trials, read_reply_show_trials,
  read_trials_file, expect_id,
}
use rc.Tcp.Parser.{Reader, zeros, end_packet, parse_file_name, parse_file_size, parse_file}
use rc.Tcp.RoundTrip.{
  read_bytes-append, variable_word, size_short, size_long, id_lem, status_lem, next_lem, end_lem,
}
use rc.Text.Decimal.{decimal}
use rc.Text.Words.Reads.{NotSpace}
use rc.Text.Words.{is_space}

text_lem :
    (name file rest : Bytes) (n : ℕ)
    → file_text name n file ++ rest
      ≡ b' ' ∷ (name ++ (b' ' ∷ (decimal n ++ (b' ' ∷ (file ++ b'\n' ∷ rest)))))
text_lem name file rest n = simp append_assoc

-- An exception ends what would go on.
resume-throw :
    {S A B : Type 0} (e : Exception) (r : Result A × S) (f : A → Op S B)
    → r.0 ≡ throw e
    → (resume r f).0 ≡ throw e
resume-throw e (return a, s) f h = absurd (cc)
resume-throw e (throw x, s) f h = ground arith

-- The packet that `showTrialsHandler` sends for a report.
abbrev pub trials_packet : TrialsStatus → Bytes → Bytes → ReplyShowTrialsPacket
trials_packet s name file = record {
  status = s;
  fname = name;
  fdata = file ++ b'\n' ∷ [];
  fsize = length file;
}

module _ (closing : Exception) (name file : Bytes) (solid : All NotSpace name)
    (fits : length name < fname_max) where
  name_lem :
      (r : Bytes)
      → parse_file_name closing (name ++ b' ' ∷ r)
        ≡ (return (name ++ zeros (fname_max - length name)), r)
  unfolding parse_file_name is_space
  name_lem r = variable_word closing fname_max b' ' name r solid fits refl

  file_short :
      (old : ReplyShowTrialsPacket) (s : TrialsStatus) (r : Bytes)
      → 0 < length file
      → length file ≤ 999
      → read_trials_file closing old s
          (b' ' ∷ (name ++ (b' ' ∷ (decimal (length file) ++ (b' ' ∷ (file ++ r))))))
        ≡ (
          return (record {
            status = s;
            fname = name ++ zeros (fname_max - length name);
            fdata = file;
            fsize = length file;
          }),
          r,
        )
  unfolding read_trials_file parse_file
  file_short old s r some_bytes few = rw (
    next_lem closing,
    name_lem,
    size_short closing (length file) (file ++ r) some_bytes few,
    read_bytes-append closing file r,
  )

  file_long :
      (old : ReplyShowTrialsPacket) (s : TrialsStatus) (r : Bytes)
      → 999 < length file
      → length file ≤ fsize_max
      → (read_trials_file closing old s
          (b' ' ∷ (name ++ (b' ' ∷ (decimal (length file) ++ (b' ' ∷ (file ++ r))))))).0
        ≡ throw invalid_packet
  unfolding read_trials_file
  file_long old s r many fits =
      rw (next_lem closing, name_lem)
        (resume-throw invalid_packet
          (parse_file_size closing (decimal (length file) ++ b' ' ∷ (file ++ r))) _
          (size_long closing (length file) (file ++ r) many fits))

  -- What the client does with a packet behind the status.
  abbrev taken : ReplyShowTrialsPacket → TrialsStatus → Reader ReplyShowTrialsPacket
  taken old s = do q ← read_trials_file closing old s; end_packet closing; done q

  sent_lem :
      (rest : Bytes)
      → file_text name (length file) (file ++ b'\n' ∷ []) ++ rest
        ≡ b' '
          ∷ (name ++ (b' ' ∷ (decimal (length file) ++ (b' ' ∷ (file ++ b'\n' ∷ b'\n' ∷ rest)))))
  sent_lem rest = text_lem name (file ++ b'\n' ∷ []) rest (length file) ∙ rw append_assoc refl

  taken_short :
      (old : ReplyShowTrialsPacket) (s : TrialsStatus) (rest : Bytes)
      → 0 < length file
      → length file ≤ 999
      → taken old s (file_text name (length file) (file ++ b'\n' ∷ []) ++ rest) ≡ (
        return (record {
          status = s;
          fname = name ++ zeros (fname_max - length name);
          fdata = file;
          fsize = length file;
        }),
        b'\n' ∷ rest,
      )
  taken_short old s rest some_bytes few =
      ap (taken old s) (sent_lem rest)
      ∙ rw (file_short old s (b'\n' ∷ b'\n' ∷ rest) some_bytes few, end_lem closing) refl

  taken_long :
      (old : ReplyShowTrialsPacket) (s : TrialsStatus) (rest : Bytes)
      → 999 < length file
      → length file ≤ fsize_max
      → (taken old s (file_text name (length file) (file ++ b'\n' ∷ []) ++ rest)).0
        ≡ throw invalid_packet
  taken_long old s rest many small =
      ap (λ t. (taken old s t).0) (sent_lem rest)
      ∙ resume-throw invalid_packet
          (read_trials_file closing old s (
            b' '
            ∷ (name
                ++ (b' ' ∷ (decimal (length file) ++ (b' ' ∷ (file ++ b'\n' ∷ b'\n' ∷ rest)))))))
          _ (file_long old s (b'\n' ∷ b'\n' ∷ rest) many small)

  -- A report of at most 999 bytes arrives: of what `showTrialsHandler` sends the client reads the
  -- status, the size and the file, and the name filled up with NUL bytes; one newline is left.
  pub read_reply_show_trials_short :
      (old : ReplyShowTrialsPacket) (s : TrialsStatus) (rest : Bytes)
      → s ≢ TrialsStatus.nok
      → 0 < length file
      → length file ≤ 999
      → read_reply_show_trials closing old
          (send_reply_show_trials (trials_packet s name file) ++ rest)
        ≡ (
          return (record {
            status = s;
            fname = name ++ zeros (fname_max - length name);
            fdata = file;
            fsize = length file;
          }),
          b'\n' ∷ rest,
        )
  unfolding read_reply_show_trials send_reply_show_trials expect_id
  read_reply_show_trials_short old TrialsStatus.nok rest h some_bytes few = absurd (h refl)
  read_reply_show_trials_short old TrialsStatus.act rest h some_bytes few =
      rw (id_lem closing b'R' b'S' b'T', next_lem closing, status_lem closing b'A' b'C' b'T')
        (taken_short old TrialsStatus.act rest some_bytes few)
  read_reply_show_trials_short old TrialsStatus.fin rest h some_bytes few =
      rw (id_lem closing b'R' b'S' b'T', next_lem closing, status_lem closing b'F' b'I' b'N')
        (taken_short old TrialsStatus.fin rest some_bytes few)

  -- A report of 1000 to 2048 bytes, which the size field allows, does not arrive: the client refuses
  -- what `showTrialsHandler` sends as invalid.
  pub read_reply_show_trials_long :
      (old : ReplyShowTrialsPacket) (s : TrialsStatus) (rest : Bytes)
      → s ≢ TrialsStatus.nok
      → 999 < length file
      → length file ≤ fsize_max
      → (read_reply_show_trials closing old
          (send_reply_show_trials (trials_packet s name file) ++ rest)).0
        ≡ throw invalid_packet
  unfolding read_reply_show_trials send_reply_show_trials expect_id
  read_reply_show_trials_long old TrialsStatus.nok rest h many small = absurd (h refl)
  read_reply_show_trials_long old TrialsStatus.act rest h many small =
      rw (id_lem closing b'R' b'S' b'T', next_lem closing, status_lem closing b'A' b'C' b'T')
        (taken_long old TrialsStatus.act rest many small)
  read_reply_show_trials_long old TrialsStatus.fin rest h many small =
      rw (id_lem closing b'R' b'S' b'T', next_lem closing, status_lem closing b'F' b'I' b'N')
        (taken_long old TrialsStatus.fin rest many small)
