-- ===== src/Client/Shown.antt =====
-- Where `printState` is defined: the strings that it indexes are long enough.
use rc.Base.{
  ℕ, zero, suc, ◌+◌, ◌≤◌, ◌<◌, Bool, false, ◌||◌, List, [], ◌∷◌, ◌++◌, ◌≡◌, refl, ap, ◌∙◌, arith,
  Bytes, length, All, Bool-cases, inl, inr, ◌⊎◌, codes,
}
use rc.Client.State.{
  GameState, char_at, color_map, colors_text, row_text, rows_text, repeated, key_text, table_head,
  table_text, state_text, reveal_text, Events, then_text,
}
use rc.Constants.{secret_key_len}
use rc.Exceptions.{Result, return, after}

-- A call that prints some text.
abbrev pub Prints : Result Bytes → Type 0
Prints r = (text : Bytes) × (r ≡ return text)

after-Prints : (text : Bytes) (r : Result Bytes) → Prints r → Prints (after text r)
after-Prints text r p = let (rest, e) = p in (text ++ rest, ap (after text) e)

then-Prints :
    (r : Result Bytes) (f : Bytes → Result Bytes)
    → Prints r
    → ((text : Bytes) → Prints (f text))
    → Prints (then_text r f)
then-Prints r f p k =
    let (text, e) = p in let (rest, d) = k text in (rest, ap (λ x. then_text x f) e ∙ d)

char_at-lt : (i : ℕ) (key : Bytes) → i < length key → (c : ℕ) × (char_at i key ≡ return c)
unfolding char_at
char_at-lt i [] h = absurd (omega arith)
char_at-lt zero (c ∷ key) h = (c, refl)
char_at-lt (suc i) (c ∷ key) h = char_at-lt i key (omega arith)

colors_text-Prints :
    (unicode : Bool) (end key : Bytes) (i n : ℕ)
    → i + n ≤ length key
    → Prints (colors_text unicode end key i n)
unfolding colors_text
colors_text-Prints unicode end key i zero h = ([], refl)
colors_text-Prints unicode end key i (suc n) h =
    let (c, e) = char_at-lt i key (omega arith) in
    let (rest, d) = colors_text-Prints unicode end key (suc i) n (omega arith) in
    ((color_map unicode c ++ end) ++ rest, rw (e, d) refl)

abbrev pub IsFour : Bytes → Type 0
IsFour k = length k ≡ secret_key_len

four_colors :
    (unicode : Bool) (end key : Bytes)
    → IsFour key
    → Prints (colors_text unicode end key 0 secret_key_len)
four_colors unicode end key h =
    colors_text-Prints unicode end key 0 secret_key_len (omega (arith, h))

row_text-Prints :
    (unicode : Bool) (i : ℕ) (guess : Bytes) (fb : ℕ × ℕ)
    → IsFour guess
    → Prints (row_text unicode i guess fb)
unfolding row_text
row_text-Prints unicode i guess (blacks, whites) h =
    after-Prints _ _ (then-Prints _ _ (four_colors unicode (codes "\t") guess h) λ text. (_, refl))

rows_text-Prints :
    (unicode : Bool) (i : ℕ) (guesses : List Bytes) (feedback : List (ℕ × ℕ))
    → All IsFour guesses
    → length guesses ≤ length feedback
    → Prints (rows_text unicode i guesses feedback)
unfolding rows_text
rows_text-Prints unicode i [] feedback h same = ([], refl)
rows_text-Prints unicode i (guess ∷ guesses) [] h same = absurd (omega arith)
rows_text-Prints unicode i (guess ∷ guesses) (fb ∷ feedback) h same =
    then-Prints _ _ (row_text-Prints unicode i guess fb h.0) λ text.
      after-Prints text _ (rows_text-Prints unicode (suc i) guesses feedback h.1 (omega arith))

-- What `printState` needs: attempts of four colours, each with its pegs, and a key of four colours
-- where it shows one.
pub record IsShown (g : GameState) : Type 0 where
  pub four : All IsFour g.guesses
  pub marked : length g.guesses ≤ length g.feedback
  pub keyed : (g.finished || g.debug ≡ false) ⊎ IsFour g.key

key_text-Prints : (g : GameState) → IsShown g → Prints (key_text g)
unfolding key_text
key_text-Prints g v = elim v.keyed [
  | inl hidden ↦ (repeated secret_key_len (codes "?\t"), rw hidden refl)
  | inr four ↦ elim (Bool-cases (g.finished || g.debug)) [
    | inl shown ↦
        let (text, e) = four_colors g.unicode (codes "\t") g.key four in (text, rw (shown, e) refl)
    | inr hidden ↦ (repeated secret_key_len (codes "?\t"), rw hidden refl)
  ]
]

table_text-Prints : (g : GameState) → IsShown g → (keys : Bytes) → Prints (table_text g keys)
unfolding table_text
table_text-Prints g v keys = after-Prints (table_head keys) _ (
    then-Prints _ _ (rows_text-Prints g.unicode 0 g.guesses g.feedback v.four v.marked)
      λ rows. (_, refl))

pub state_text-Prints : (g : GameState) → IsShown g → Prints (state_text g)
unfolding state_text
state_text-Prints g v = elim (Bool-cases g.is_game) [
  | inl active ↦
      let (text, e) =
        then-Prints (key_text g) (table_text g) (key_text-Prints g v) (table_text-Prints g v) in
      (text, rw active e)
  | inr idle ↦ ([], rw idle refl)
]

revealed :
    (g : GameState)
    → IsFour g.key
    → Prints (
        after (codes "The correct key was: ") (
          then_text
            (colors_text g.unicode [] g.key 0 secret_key_len)
            λ text. return (text ++ codes "\n")))
revealed g h =
    after-Prints (codes "The correct key was: ") _
      (then-Prints _ _ (four_colors g.unicode [] g.key h) λ text. (text ++ codes "\n", refl))

pub reveal_text-Prints :
    (g : GameState) (event : Events) → IsFour g.key → Prints (reveal_text g event)
unfolding reveal_text
reveal_text-Prints g Events.won h = ([], refl)
reveal_text-Prints g Events.lost_time h = revealed g h
reveal_text-Prints g Events.lost_maxtrials h = revealed g h
reveal_text-Prints g Events.quit h = revealed g h
