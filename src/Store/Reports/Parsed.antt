-- ===== src/Store/Reports/Parsed.antt =====
-- A game's whole file read back, and the report of an active game.
use rc.Base.{
  ℕ, ◌-◌, ◌≤◌, [], ◌∷◌, ◌++◌, ◌≡◌, refl, false, List, Bytes, All, some, ap, sym, subst, ◌∙◌,
  append_assoc, append-nil, codes,
}
use rc.Base.Int.{ℤ, pos, negsuc}
use rc.Constants.{uint32_max}
use rc.Exceptions.{return}
use rc.Store.Files.{Call}
use rc.Store.Games.Active.{working, IsActive, check_active}
use rc.Store.Games.Ended.{not_negative}
use rc.Store.Records.Sessions.{
  Trial, Session, trials_text, session_text, IsCalendar, IsSession, header,
  parse_header-session_text, attempt_text-NotNewline, lines-nil, prefix_solid,
}
use rc.Store.Records.{GameMode, Attempt, attempt_of, attempt_text, attempt_create, is_attempt}
use rc.Store.Reports.{
  Game, GameStatus, no_finish, parse_line, parse_lines, then_lines, parse_game, report, report_head,
  report_end, last_file, get_last_game,
}
use rc.Store.{Calendar}
use rc.Text.Decimal.{decimal, space-Ends}
use rc.Text.Words.Reads.{
  IsWord, read_word-append, read_word_blank, read_uint_blank, read_uint-decimal, lines-append,
}
use rc.Text.Words.{read_uint, show_int, lines}

abbrev pub seconds : ℤ → ℕ
seconds (pos n) = n
seconds (negsuc n) = 0

-- What the file can hold of an attempt: numbers of 32 bits.
pub record IsRecorded (t : Trial) : Type 0 where
  pub word : IsWord t.att
  pub few_blacks : t.blacks ≤ uint32_max
  pub few_whites : t.whites ≤ uint32_max
  pub elapsed : t.time ≡ pos (seconds t.time)
  pub short : seconds t.time ≤ uint32_max

abbrev pub attempt_of_trial : Trial → Attempt
attempt_of_trial t = record {
  att_key = t.att;
  blacks = t.blacks;
  whites = t.whites;
  time = seconds t.time;
}

abbrev pub attempts_of : List Trial → List Attempt
attempts_of [] = []
attempts_of (t ∷ ts) = attempt_of_trial t ∷ attempts_of ts

read_uint-last : (old n : ℕ) → n ≤ uint32_max → (read_uint old (some (decimal n))).0 ≡ n
read_uint-last old n h =
    ap (λ x. x.0)
      (subst (λ s. read_uint old (some s) ≡ (n, some [])) (append-nil (decimal n))
        (read_uint-decimal old n [] tt h))

attempt_of-attempt_text :
    (t : Trial)
    → IsRecorded t
    → attempt_of (attempt_text t.att t.blacks t.whites t.time) ≡ attempt_of_trial t
unfolding attempt_of attempt_text show_int
attempt_of-attempt_text t r =
    rw
      (
        r.elapsed,
        read_word-append [] (codes "T:") _ (record { nonempty = λ e. cc; solid = prefix_solid }),
        read_word_blank,
        read_word-append [] t.att _ r.word,
        read_uint_blank,
        read_uint-decimal 0 t.blacks _ (space-Ends []) r.few_blacks,
        read_uint_blank,
        read_uint-decimal 0 t.whites _ (space-Ends []) r.few_whites,
        read_uint_blank,
        read_uint-last 0 (seconds t.time) r.short,
      )
      refl

pub parse_line-attempt_text :
    (g : Game) (t : Trial)
    → IsRecorded t
    → parse_line g (attempt_text t.att t.blacks t.whites t.time)
      ≡ return (record g { attempts = g.attempts ++ attempt_of_trial t ∷ [] })
unfolding parse_line is_attempt attempt_text
parse_line-attempt_text g t r =
    ap (λ a. return (record g { attempts = g.attempts ++ a ∷ [] })) (attempt_of-attempt_text t r)

parse_lines-trials_text :
    (g : Game) (ts : List Trial)
    → All IsRecorded ts
    → parse_lines g (lines (trials_text ts))
      ≡ return (record g { attempts = g.attempts ++ attempts_of ts })
unfolding parse_lines trials_text attempt_create
parse_lines-trials_text g [] h =
    rw lines-nil (ap (λ a. return (record g { attempts = a })) (sym (append-nil g.attempts)))
parse_lines-trials_text g (t ∷ ts) h =
    rw (append_assoc, lines-append _ _ (attempt_text-NotNewline t h.0.word))
      (ap (λ r. then_lines r (λ k. parse_lines k (lines (trials_text ts))))
          (parse_line-attempt_text g t h.0)
        ∙ parse_lines-trials_text (record g { attempts = g.attempts ++ attempt_of_trial t ∷ [] }) ts
            h.1
        ∙ ap (λ a. return (record g { attempts = a }))
            (append_assoc g.attempts (attempt_of_trial t ∷ []) (attempts_of ts)))

abbrev pub game_of : Calendar → Session → Game
game_of cal g = record {
  header = header cal g;
  attempts = attempts_of g.trials;
  finish = no_finish;
}

module _ (cal : Calendar) (ok_cal : IsCalendar cal) where
  -- The file of a game in progress is read back whole: the header field by field, and each attempt
  -- with its key, its pegs and its time. Its numbers have 32 bits.
  pub parse_game-session_text :
      (g : Session)
      → IsSession g
      → All IsRecorded g.trials
      → parse_game (session_text cal g) ≡ return (game_of cal g)
  unfolding parse_game
  parse_game-session_text g v h = rw (parse_header-session_text cal ok_cal g v) (
      parse_lines-trials_text (record { header = header cal g; attempts = []; finish = no_finish })
        g.trials h)

  -- On a disk that works, `getLastGame` on an active game whose numbers have 32 bits returns its
  -- report, of the header and all attempts so far, and nothing changes.
  pub get_last_game_active :
      (g : Session) (now : ℕ) (c : Call)
      → IsActive cal g now c.store
      → All IsRecorded g.trials
      → (text : Bytes) × (report g.plid now GameStatus.act (game_of cal g) ≡ return text)
        × (get_last_game cal working g.plid now c ≡ (return (GameStatus.act, text), c))
  unfolding get_last_game last_file report report_end
  get_last_game_active g now c a h = (
    _,
    refl,
    rw (
      check_active cal ok_cal g now false c a,
      not_negative (now - g.start),
      a.file,
      parse_game-session_text g a.session h,
    ),
  )

-- While a game for play goes on, its report is the same whatever the secret key is.
pub report_hides_key :
    (plid key : Bytes) (now : ℕ) (g : Game)
    → g.header.mode ≡ GameMode.play
    → report plid now GameStatus.act g
      ≡ report plid now GameStatus.act (record g { header = record (g.header) { key = key } })
unfolding report report_head report_end
report_hides_key plid key now g m = rw m
