-- ===== src/Store/Reports/Finished.antt =====
-- The file of a finished game read back, and its report.
use rc.Base.{
  ℕ, ◌≤◌, [], ◌∷◌, ◌++◌, ◌≡◌, refl, false, List, Bytes, All, some, none, ap, ◌∙◌, append_assoc,
  append-nil,
}
use rc.Base.Int.{pos}
use rc.Constants.{uint32_max}
use rc.Exceptions.{return}
use rc.Store.Files.{Call, ending_text}
use rc.Store.Games.Active.{working}
use rc.Store.Games.{check_timedout_game, check_file}
use rc.Store.Records.Sessions.{
  Session, Trial, trials_text, session_text, IsCalendar, IsSession, header,
  parse_header-game_create, attempt_text-NotNewline, lines-nil, glue-NotNewline,
}
use rc.Store.Records.{Endings, attempt_create, is_attempt, char_to_ending, ending_to_repr, initial}
use rc.Store.Reports.Parsed.{
  IsRecorded, attempt_of_trial, attempts_of, game_of, parse_line-attempt_text,
}
use rc.Store.Reports.{
  Finish, Game, GameStatus, no_finish, parse_line, parse_lines, parse_game, report, report_end,
  find_last_finished_game, last_file, get_last_game,
}
use rc.Store.{Calendar, game_fname}
use rc.Text.Decimal.{decimal, space-Ends}
use rc.Text.Words.Reads.{
  IsWord, NotNewline, decimal-IsWord, read_word-append, read_word_blank, read_uint_blank,
  read_uint-decimal, lines-append,
}
use rc.Text.Words.{read_char, show_int, lines}

-- How a game has ended.
pub record Outcome : Type 0 where
  pub reason : Endings
  pub tstamp : ℕ
  pub used_time : ℕ

-- The file that `endGame` leaves.
unfoldable pub finished_text : Calendar → Session → Outcome → Bytes
finished_text cal g o =
    session_text cal g ++ ending_text cal working o.tstamp (pos o.used_time) o.reason

abbrev pub finish_of : Calendar → Outcome → Finish
finish_of cal o = record {
  date_end = cal.date o.tstamp;
  time_end = cal.clock o.tstamp;
  used_time = o.used_time;
  ending = some o.reason;
}

abbrev pub finished_game : Calendar → Session → Outcome → Game
finished_game cal g o = record (game_of cal g) { finish = finish_of cal o }

-- No date begins like an attempt.
abbrev pub IsDated : Calendar → Type 0
IsDated cal = (t : ℕ) → is_attempt (cal.date t) ≡ false

is_attempt-append : (w r : Bytes) → IsWord w → is_attempt w ≡ false → is_attempt (w ++ r) ≡ false
unfolding is_attempt
is_attempt-append [] r v h = absurd (v.nonempty refl)
is_attempt-append (c ∷ w) r v h = h

reason_char : Endings → ℕ
reason_char Endings.lost = b'L'
reason_char Endings.win = b'W'
reason_char Endings.quit = b'Q'
reason_char Endings.timeout = b'T'

read_reason_char :
    (e : Endings) → (read_char 0 (some (b' ' ∷ initial (ending_to_repr e)))).0 ≡ reason_char e
unfolding read_char ending_to_repr reason_char
read_reason_char Endings.lost = refl
read_reason_char Endings.win = refl
read_reason_char Endings.quit = refl
read_reason_char Endings.timeout = refl

char_to_reason_char : (e : Endings) → char_to_ending (reason_char e) ≡ return e
unfolding char_to_ending reason_char
char_to_reason_char Endings.lost = refl
char_to_reason_char Endings.win = refl
char_to_reason_char Endings.quit = refl
char_to_reason_char Endings.timeout = refl

reason-NotNewline : (e : Endings) → All NotNewline (initial (ending_to_repr e))
unfolding ending_to_repr
reason-NotNewline Endings.lost = (refl, tt)
reason-NotNewline Endings.win = (refl, tt)
reason-NotNewline Endings.quit = (refl, tt)
reason-NotNewline Endings.timeout = (refl, tt)

-- The last line, without its newline.
ending_line : Calendar → Outcome → Bytes
ending_line cal o =
    cal.date o.tstamp
    ++ (b' '
        ∷ (cal.clock o.tstamp
            ++ (b' ' ∷ (decimal o.used_time ++ (b' ' ∷ initial (ending_to_repr o.reason))))))

ending_text-line :
    (cal : Calendar) (o : Outcome)
    → ending_text cal working o.tstamp (pos o.used_time) o.reason ≡ ending_line cal o ++ b'\n' ∷ []
unfolding ending_text ending_line show_int
ending_text-line cal o = rw (append_assoc, append_assoc, append_assoc) refl

module _ (cal : Calendar) (ok_cal : IsCalendar cal) (dated : IsDated cal) where
  ending_line-NotNewline : (o : Outcome) → All NotNewline (ending_line cal o)
  unfolding ending_line
  ending_line-NotNewline o =
      glue-NotNewline (cal.date o.tstamp) _ (ok_cal.date_word o.tstamp).solid (
        glue-NotNewline (cal.clock o.tstamp) _ (ok_cal.clock_word o.tstamp).solid (
          glue-NotNewline (decimal o.used_time) _ (decimal-IsWord o.used_time).solid
            (reason-NotNewline o.reason)))

  parse_line-ending_line :
      (g : Game) (o : Outcome)
      → o.used_time ≤ uint32_max
      → parse_line g (ending_line cal o) ≡ return (record g { finish = finish_of cal o })
  unfolding parse_line ending_line
  parse_line-ending_line g o h =
      rw
        (
          is_attempt-append (cal.date o.tstamp) _ (ok_cal.date_word o.tstamp) (dated o.tstamp),
          read_word-append g.finish.date_end (cal.date o.tstamp) _ (ok_cal.date_word o.tstamp),
          read_word_blank,
          read_word-append g.finish.time_end (cal.clock o.tstamp) _ (ok_cal.clock_word o.tstamp),
          read_uint_blank,
          read_uint-decimal g.finish.used_time o.used_time _ (space-Ends []) h,
          read_reason_char o.reason,
          char_to_reason_char o.reason,
        )
        refl

  parse_lines-finished :
      (g : Game) (ts : List Trial) (o : Outcome)
      → All IsRecorded ts
      → o.used_time ≤ uint32_max
      → parse_lines g
          (lines (trials_text ts ++ ending_text cal working o.tstamp (pos o.used_time) o.reason))
        ≡ return (record g { attempts = g.attempts ++ attempts_of ts; finish = finish_of cal o })
  unfolding parse_lines trials_text attempt_create
  parse_lines-finished g [] o h b =
      rw
        (
          ending_text-line cal o,
          lines-append _ _ (ending_line-NotNewline o),
          lines-nil,
          parse_line-ending_line g o b,
          append-nil,
        )
        refl
  parse_lines-finished g (t ∷ ts) o h b =
      rw
        (
          append_assoc,
          append_assoc,
          lines-append _ _ (attempt_text-NotNewline t h.0.word),
          parse_line-attempt_text g t h.0,
        )
        (parse_lines-finished (record g { attempts = g.attempts ++ attempt_of_trial t ∷ [] }) ts o
            h.1 b
          ∙ ap (λ a. return (record g { attempts = a; finish = finish_of cal o }))
              (append_assoc g.attempts (attempt_of_trial t ∷ []) (attempts_of ts)))

  -- The file of a finished game is read back whole: its header, each attempt, and how and when it
  -- ended. Its numbers have 32 bits, and the calendar prints words, no date with a T in front.
  pub parse_game-finished_text :
      (g : Session) (o : Outcome)
      → IsSession g
      → All IsRecorded g.trials
      → o.used_time ≤ uint32_max
      → parse_game (finished_text cal g o) ≡ return (finished_game cal g o)
  unfolding parse_game finished_text session_text
  parse_game-finished_text g o v h b =
      rw (append_assoc, parse_header-game_create cal ok_cal g v)
        (parse_lines-finished (record { header = header cal g; attempts = []; finish = no_finish })
          g.trials o h b)

  -- On a disk that works, `getLastGame` of a player without an active game returns the report of
  -- the finished game whose file is the last of the player's directory, with the secret key and
  -- how it ended, and nothing changes. The numbers in the file have 32 bits, and the calendar prints
  -- words, no date with a T in front.
  pub get_last_game_finished :
      (g : Session) (o : Outcome) (name : Bytes) (now : ℕ) (c : Call)
      → c.store.games (game_fname g.plid) ≡ none
      → find_last_finished_game (c.store.finished g.plid) ≡ return (name, finished_text cal g o)
      → IsSession g
      → All IsRecorded g.trials
      → o.used_time ≤ uint32_max
      → (text : Bytes) × (report g.plid now GameStatus.fin (finished_game cal g o) ≡ return text)
        × (get_last_game cal working g.plid now c ≡ (return (GameStatus.fin, text), c))
  unfolding get_last_game last_file report report_end check_timedout_game check_file
  get_last_game_finished g o name now c gone found v h b =
      (_, refl, rw (gone, found, parse_game-finished_text g o v h b) refl)
