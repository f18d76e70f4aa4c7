-- ===== src/Store/Records/Sessions.antt =====
-- An active game as the program means it, and its file: reading the file gives the game back.
use rc.Base.{
  ℕ, suc, ◌+◌, ◌≤◌, false, List, [], ◌∷◌, ◌++◌, ◌||◌, ◌≡◌, refl, ap, subst, ◌∙◌, Bytes, bytes_eq,
  All, All-append, some, append_assoc, append-nil, codes,
}
use rc.Base.Int.{ℤ, pos, negsuc}
use rc.Exceptions.{return}
use rc.Store.Records.{
  GameMode, Header, Seen, attempt_of, attempt_text, attempt_create, header_text, game_create,
  parse_header, header_of, parse_attempts, see_lines, see_line, char_to_game_mode, initial,
  game_mode_to_repr,
}
use rc.Store.{Calendar}
use rc.Text.Decimal.{decimal, space-Ends}
use rc.Text.Words.Reads.{
  NotSpace, NotNewline, IsWord, All-mono, NotNewline-of_solid, decimal-IsWord, read_word_blank,
  read_uint_blank, read_int_blank, read_word-append, read_uint-decimal, read_int-decimal,
  take_line-append, lines-append,
}
use rc.Text.Words.{is_space, read_char, read_int, show_int, lines}

pub record Trial : Type 0 where
  pub att : Bytes
  pub blacks : ℕ
  pub whites : ℕ
  pub time : ℤ

pub record Session : Type 0 where
  pub plid : Bytes
  pub mode : GameMode
  pub key : Bytes
  pub play_time : ℕ
  pub start : ℕ
  pub trials : List Trial

unfoldable pub trials_text : List Trial → Bytes
trials_text [] = []
trials_text (t ∷ ts) = attempt_create t.att t.blacks t.whites t.time ++ trials_text ts

-- The file of an active game.
unfoldable pub session_text : Calendar → Session → Bytes
session_text cal g = game_create cal g.plid g.play_time g.mode g.start g.key ++ trials_text g.trials

-- The calendar prints words.
pub record IsCalendar (cal : Calendar) : Type 0 where
  pub date_word : (t : ℕ) → IsWord (cal.date t)
  pub clock_word : (t : ℕ) → IsWord (cal.clock t)

pub record IsSession (g : Session) : Type 0 where
  pub plid_word : IsWord g.plid
  pub key_word : IsWord g.key
  pub time_fits : g.play_time ≤ 4294967295
  pub start_fits : g.start ≤ 2147483647
  pub att_words : All (λ t. IsWord t.att) g.trials

read_int-last : (old : ℤ) (n : ℕ) → n ≤ 2147483647 → (read_int old (some (decimal n))).0 ≡ pos n
read_int-last old n h =
    let read = read_int-decimal old n [] tt h in
    ap (λ x. x.0)
      (subst (λ s. read_int old (some s) ≡ (pos n, some [])) (append-nil (decimal n)) read)

abbrev pub header : Calendar → Session → Header
header cal g = record {
  plid = g.plid;
  mode = g.mode;
  key = g.key;
  play_time = g.play_time;
  date_start = cal.date g.start;
  time_start = cal.clock g.start;
  tstamp_start = pos g.start;
}

pub mode_char : GameMode → ℕ
mode_char GameMode.play = b'P'
mode_char GameMode.debug = b'D'

pub read_mode_char :
    (m : GameMode) (s : Bytes)
    → read_char 0 (some (b' ' ∷ (initial (game_mode_to_repr m) ++ s))) ≡ (mode_char m, some s)
unfolding read_char game_mode_to_repr mode_char
read_mode_char GameMode.play s = refl
read_mode_char GameMode.debug s = refl

pub char_to_game_mode_char : (m : GameMode) → char_to_game_mode (mode_char m) ≡ return m
unfolding char_to_game_mode mode_char
char_to_game_mode_char GameMode.play = refl
char_to_game_mode_char GameMode.debug = refl

module _ (cal : Calendar) (c : IsCalendar cal) (g : Session) (v : IsSession g) where
  header_of-header_text :
      header_of (header_text cal g.plid g.play_time g.mode g.start g.key) ≡ return (header cal g)
  unfolding header_of header_text
  header_of-header_text = rw (
    read_word-append [] g.plid _ v.plid_word,
    read_mode_char g.mode _,
    read_word_blank,
    read_word-append [] g.key _ v.key_word,
    read_uint_blank,
    read_uint-decimal 0 g.play_time _ (space-Ends []) v.time_fits,
    read_word_blank,
    read_word-append [] (cal.date g.start) _ (c.date_word g.start),
    read_word_blank,
    read_word-append [] (cal.clock g.start) _ (c.clock_word g.start),
    read_int_blank,
    read_int-last (pos 0) g.start v.start_fits,
    char_to_game_mode_char g.mode,
  )

pub glue-NotNewline :
    (w r : Bytes) → All NotSpace w → All NotNewline r → All NotNewline (w ++ b' ' ∷ r)
glue-NotNewline w r h k =
    All-append NotNewline w (b' ' ∷ r) (All-mono NotNewline-of_solid w h) (refl, k)

show_int-solid : (z : ℤ) → All NotSpace (show_int z)
unfolding show_int is_space
show_int-solid (pos n) = (decimal-IsWord n).solid
show_int-solid (negsuc n) = (refl, (decimal-IsWord (suc n)).solid)

mode_line :
    (m : GameMode) (r : Bytes)
    → All NotNewline r
    → All NotNewline (initial (game_mode_to_repr m) ++ b' ' ∷ r)
unfolding game_mode_to_repr
mode_line GameMode.play r h = (refl, (refl, h))
mode_line GameMode.debug r h = (refl, (refl, h))

module _ (cal : Calendar) (c : IsCalendar cal) (g : Session) (v : IsSession g) where
  header_text-NotNewline : All NotNewline (header_text cal g.plid g.play_time g.mode g.start g.key)
  unfolding header_text
  header_text-NotNewline = glue-NotNewline g.plid _ v.plid_word.solid (
      mode_line g.mode _ (
        glue-NotNewline g.key _ v.key_word.solid (
          glue-NotNewline (decimal g.play_time) _ (decimal-IsWord g.play_time).solid (
            glue-NotNewline (cal.date g.start) _ (c.date_word g.start).solid (
              glue-NotNewline (cal.clock g.start) _ (c.clock_word g.start).solid
                (All-mono NotNewline-of_solid _ (decimal-IsWord g.start).solid))))))

  pub parse_header-game_create :
      (rest : Bytes)
      → parse_header (game_create cal g.plid g.play_time g.mode g.start g.key ++ rest)
        ≡ (return (header cal g), rest)
  unfolding parse_header game_create
  parse_header-game_create rest =
      rw (append_assoc, take_line-append _ _ header_text-NotNewline)
        (ap (λ r. (r, rest)) (header_of-header_text cal c g v))

  -- The header of a game's file is read back field by field, and the attempts are left, where the
  -- player id, the key and the calendar's texts are words and the numbers fit their types.
  pub parse_header-session_text :
      parse_header (session_text cal g) ≡ (return (header cal g), trials_text g.trials)
  unfolding session_text
  parse_header-session_text = parse_header-game_create (trials_text g.trials)

pub prefix_solid : All NotSpace (codes "T:")
unfolding is_space
prefix_solid = (refl, (refl, tt))

pub lines-nil : lines [] ≡ []
unfolding lines
lines-nil = refl

attempt_of-attempt_text :
    (t : Trial)
    → IsWord t.att
    → (attempt_of (attempt_text t.att t.blacks t.whites t.time)).att_key ≡ t.att
unfolding attempt_of attempt_text
attempt_of-attempt_text t w = rw (
  read_word-append [] (codes "T:") _ (record { nonempty = λ e. cc; solid = prefix_solid }),
  read_word_blank,
  read_word-append [] t.att _ w,
)

-- The loop of `parseAttempts` over the attempts themselves.
abbrev pub see_trial : Bytes → Seen → Trial → Seen
see_trial key v t = record {
  atts = v.atts + 1;
  last_att = t.att;
  dup = bytes_eq key t.att || v.dup;
}

abbrev pub see_trials : Bytes → List Trial → Seen → Seen
see_trials key [] v = v
see_trials key (t ∷ ts) v = see_trials key ts (see_trial key v t)

pub attempt_text-NotNewline :
    (t : Trial) → IsWord t.att → All NotNewline (attempt_text t.att t.blacks t.whites t.time)
unfolding attempt_text
attempt_text-NotNewline t w = (
  refl,
  (
    refl,
    (
      refl,
      glue-NotNewline t.att _ w.solid (
          glue-NotNewline (decimal t.blacks) _ (decimal-IsWord t.blacks).solid (
            glue-NotNewline (decimal t.whites) _ (decimal-IsWord t.whites).solid
              (All-mono NotNewline-of_solid _ (show_int-solid t.time)))),
    ),
  ),
)

see_line-attempt_text :
    (key : Bytes) (v : Seen) (t : Trial)
    → IsWord t.att
    → see_line key v (attempt_text t.att t.blacks t.whites t.time) ≡ see_trial key v t
unfolding see_line attempt_text
see_line-attempt_text key v t w = rw (attempt_of-attempt_text t w)

see_lines-trials_text :
    (key : Bytes) (ts : List Trial) (v : Seen)
    → All (λ t. IsWord t.att) ts
    → see_lines key (lines (trials_text ts)) v ≡ see_trials key ts v
unfolding see_lines trials_text attempt_create
see_lines-trials_text key [] v h = rw lines-nil
see_lines-trials_text key (t ∷ ts) v h =
    rw (append_assoc, lines-append _ _ (attempt_text-NotNewline t h.0))
      (ap (see_lines key (lines (trials_text ts))) (see_line-attempt_text key v t h.0)
        ∙ see_lines-trials_text key ts (see_trial key v t) h.1)

abbrev pub nothing_seen : Seen
nothing_seen = record { atts = 0; last_att = []; dup = false }

-- Of the attempts in a game's file, whose keys are words, `parseAttempts` finds the number and
-- the last one's key, and notices whether the new key is among them.
pub parse_attempts-trials_text :
    (key : Bytes) (ts : List Trial)
    → All (λ t. IsWord t.att) ts
    → parse_attempts (trials_text ts) key ≡ see_trials key ts nothing_seen
unfolding parse_attempts
parse_attempts-trials_text key ts h = see_lines-trials_text key ts nothing_seen h
