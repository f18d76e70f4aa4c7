-- ===== src/Client/State.antt =====
-- client/GameState.cpp and GameState.hpp: what the client keeps of its game, and how it prints it.
use Prim.Native.String.{String}
use rc.Base.{
  ℕ, zero, suc, ◌+◌, ◌%◌, ◌^◌, not, Option, none, some, Bool, true, false, ◌&&◌, ◌||◌, ltb, ◌==◌,
  List, [], ◌∷◌, ◌++◌, if◌then◌else◌, Bytes, codes,
}
use rc.Constants.{secret_key_len}
use rc.Exceptions.{
  Result, return, throw, after, save_file_error, uncontextualized, undefined_behaviour,
}
use rc.Store.{Op, put, ◌>>◌}
use rc.Text.Decimal.{decimal}
use rc.Udp.Parser.{until_nul}

pub record GameState : Type 0 where
  pub is_game : Bool
  pub finished : Bool
  pub debug : Bool
  pub unicode : Bool
  pub trial : ℕ
  pub plid : Bytes
  pub guesses : List Bytes
  pub feedback : List (ℕ × ℕ)
  pub key : Bytes

-- The client's memory, its directory, what it has printed, and the world behind its sockets.
pub record Console (W : Type 0) : Type 0 where
  pub game : GameState
  pub files : List (Bytes × Bytes)
  pub printed : Bytes
  pub world : W

-- `enum Events`.
pub data Events : Type 0 where
  lost_time lost_maxtrials won quit : Events

-- The constructor; `trial` is not initialised and holds any number.
unfoldable pub new_state : Bool → ℕ → GameState
new_state unicode trial = record {
  is_game = false;
  finished = false;
  debug = false;
  unicode = unicode;
  trial = trial;
  plid = [];
  guesses = [];
  feedback = [];
  key = 0 ∷ 0 ∷ 0 ∷ 0 ∷ [];
}

-- The letter in the colour of this number.
abbrev painted : String → ℕ → Bytes
painted number letter =
    27 ∷ (codes "[38;5;" ++ (codes number ++ (b'm' ∷ letter ∷ 27 ∷ codes "[0m")))

-- `colorMap[c]`: the map's entries, and the empty string for any other character.
unfoldable pub color_map : Bool → ℕ → Bytes
color_map true c =
    if c == b'R'
    then 0xf0 ∷ 0x9f ∷ 0x94 ∷ 0xb4 ∷ []
    else if c == b'G'
    then 0xf0 ∷ 0x9f ∷ 0x9f ∷ 0xa2 ∷ []
    else if c == b'B'
    then 0xf0 ∷ 0x9f ∷ 0x94 ∷ 0xb5 ∷ []
    else if c == b'Y'
    then 0xf0 ∷ 0x9f ∷ 0x9f ∷ 0xa1 ∷ []
    else if c == b'O'
    then 0xf0 ∷ 0x9f ∷ 0x9f ∷ 0xa0 ∷ []
    else if c == b'P'
    then 0xf0 ∷ 0x9f ∷ 0x9f ∷ 0xa3 ∷ []
    else if c == b'b'
    then 0xe2 ∷ 0x9a ∷ 0xab ∷ []
    else if c == b'W'
    then 0xe2 ∷ 0x9a ∷ 0xaa ∷ []
    else []
color_map false c =
    if c == b'R'
    then painted "196" c
    else if c == b'G'
    then painted "46" c
    else if c == b'B'
    then painted "51" c
    else if c == b'Y'
    then painted "226" c
    else if c == b'O'
    then painted "208" c
    else if c == b'P'
    then painted "57" c
    else if c == b'W' || c == b'b'
    then b'X' ∷ []
    else []

-- `key[i]` of a `std::string`: its length is the last index allowed, where a NUL stands.
unfoldable pub char_at : ℕ → Bytes → Result ℕ
char_at zero [] = return 0
char_at (suc i) [] = throw undefined_behaviour
char_at zero (c ∷ key) = return c
char_at (suc i) (c ∷ key) = char_at i key

abbrev pub then_text : {A : Type 0} → Result A → (A → Result Bytes) → Result Bytes
then_text (return c) f = f c
then_text (throw e) f = throw e

-- `for (i = from; i < from + n; ++i) std::cout << colorMap[key[i]] << end`.
unfoldable pub colors_text : Bool → Bytes → Bytes → ℕ → ℕ → Result Bytes
unfolding color_map char_at
colors_text unicode end key i zero = return []
colors_text unicode end key i (suc n) =
    let rest = colors_text unicode end key (suc i) n in
    then_text (char_at i key) λ c. after (color_map unicode c ++ end) rest

-- `for (a = 0; a < n; ++a) std::cout << text`.
unfoldable pub repeated : ℕ → Bytes → Bytes
repeated zero text = []
repeated (suc n) text = text ++ repeated n text

-- One row of the table: the attempt's number, its pegs and its colours.
unfoldable pub row_text : Bool → ℕ → Bytes → ℕ × ℕ → Result Bytes
unfolding repeated colors_text color_map
row_text unicode i guess (blacks, whites) =
    after
      (decimal (i + 1)
        ++ (codes "\t\t"
            ++ (repeated blacks (color_map unicode b'b')
                ++ (codes "\t\t"
                    ++ (repeated whites (color_map unicode b'W')
                        ++ (codes "\t\t            \t"
                            ++ (if ltb blacks secret_key_len && ltb whites secret_key_len
                                then codes "\t"
                                else [])))))))
      (then_text (colors_text unicode (codes "\t") guess 0 secret_key_len)
        λ text. return (text ++ codes "\n\n"))

-- The rows; an attempt without pegs would be read past the end of `feedback`.
unfoldable pub rows_text : Bool → ℕ → List Bytes → List (ℕ × ℕ) → Result Bytes
unfolding row_text
rows_text unicode i [] feedback = return []
rows_text unicode i (guess ∷ guesses) [] = throw undefined_behaviour
rows_text unicode i (guess ∷ guesses) (fb ∷ feedback) =
    let rest = rows_text unicode (suc i) guesses feedback in
    then_text (row_text unicode i guess fb) λ text. after text rest

-- The key's colours once the game is finished, or in debug mode; else question marks.
unfoldable pub key_text : GameState → Result Bytes
unfolding colors_text repeated
key_text g =
    if g.finished || g.debug
    then colors_text g.unicode (codes "\t") g.key 0 secret_key_len
    else return (repeated secret_key_len (codes "?\t"))

-- The screen is cleared first.
abbrev pub table_head : Bytes → Bytes
table_head keys =
    27
    ∷ (codes "[2J"
        ++ (27
            ∷ (codes "[H"
                ++ (codes "Trial\t\tBlacks\t\tWhites\t\tSecret Key:\t\t"
                    ++ (keys ++ codes "\n\n")))))

unfoldable pub table_text : GameState → Bytes → Result Bytes
unfolding rows_text
table_text g keys =
    after (table_head keys)
      (then_text (rows_text g.unicode 0 g.guesses g.feedback) λ rows. return (rows ++ codes "\n"))

-- What `printState` prints.
unfoldable pub state_text : GameState → Result Bytes
unfolding key_text table_text
state_text g = if g.is_game then then_text (key_text g) (table_text g) else return []

-- What `endGame` prints of its event.
unfoldable pub event_text : Events → Bytes
event_text Events.lost_maxtrials = codes "GAME LOST! :( You've used all of your attempts!\n"
event_text Events.lost_time = codes "GAME LOST! :( You've ran out of time!\n"
event_text Events.won = codes "GAME WON! :) Congratulations!!!\n"
event_text Events.quit = codes "GAME QUIT! :/\n"

-- The key that an end without a win reveals.
unfoldable pub reveal_text : GameState → Events → Result Bytes
unfolding colors_text
reveal_text g Events.won = return []
reveal_text g _ = after (codes "The correct key was: ") (
    then_text (colors_text g.unicode [] g.key 0 secret_key_len) λ text. return (text ++ codes "\n"))

-- `plid = id; trial = 1; ...`: the key and the debug mode are set only where a key is given.
unfoldable pub started : Bytes → Option Bytes → GameState → GameState
started id none g = record g {
  plid = id;
  trial = 1;
  is_game = true;
  finished = false;
  key = [];
  guesses = [];
  feedback = [];
}
started id (some key) g = record g {
  plid = id;
  trial = 1;
  is_game = true;
  finished = false;
  key = key;
  debug = true;
  guesses = [];
  feedback = [];
}

module _ {W : Type 0} where
  abbrev pub set_game : GameState → Op (Console W) (Unit {0})
  set_game g c = (return tt, record c { game = g })

  -- What is printed goes behind the text on the console.
  unfoldable pub print : Result Bytes → Op (Console W) (Unit {0})
  print (return text) c = (return tt, record c { printed = c.printed ++ text })
  print (throw e) c = (throw e, c)

  unfoldable pub print_state : Op (Console W) (Unit {0})
  unfolding print state_text
  print_state c = print (state_text c.game) c

  unfoldable pub start_game : Bytes → Option Bytes → Op (Console W) (Unit {0})
  unfolding started print_state
  start_game id key c = print_state (record c { game = started id key c.game })

  -- The game is finished before it is printed, and no longer a game after that.
  unfoldable pub end_game : Bytes → Events → Op (Console W) (Unit {0})
  unfolding print_state print event_text reveal_text
  end_game key event = do
    λ c. set_game (record (c.game) { key = key; finished = true }) c
    print_state
    print (return (event_text event))
    λ c. set_game (record (c.game) { is_game = false }) c
    λ c. print (reveal_text c.game event) c

  unfoldable pub get_plid : Op (Console W) Bytes
  get_plid c =
      if not c.game.is_game && not c.game.finished
      then (throw uncontextualized, c)
      else (return c.game.plid, c)

  -- `_isGame ? trial++ : trial`, on an `unsigned int`.
  unfoldable pub new_attempt : Op (Console W) ℕ
  new_attempt c =
      if c.game.is_game
      then (
        return c.game.trial,
        record c { game = record (c.game) { trial = (c.game.trial + 1) % 2 ^ 32 } },
      )
      else (return c.game.trial, c)

  unfoldable pub save_attempt : Bytes → ℕ → ℕ → Op (Console W) (Unit {0})
  save_attempt att b w c =
      set_game
        (record (c.game) {
          guesses = c.game.guesses ++ att ∷ [];
          feedback = c.game.feedback ++ (b, w) ∷ [];
        })
        c

  -- The name is passed on as a C string; `writes` says whether the disk takes the file.
  unfoldable pub save_file : Bool → Bytes → Bytes → Op (Console W) (Unit {0})
  unfolding put until_nul
  save_file writes fname fdata c =
      if writes
      then (
        return tt,
        record c { files = put (until_nul fname) fdata c.files; printed = c.printed ++ fdata },
      )
      else (throw save_file_error, c)
