-- ===== src/Store.antt =====
-- server/GameStore.cpp: the files under the data directory and the operations on them.
pub mod Records
pub mod Files
pub mod Games
pub mod Reports
use rc.Base.{
  ℕ, Bool, true, false, [], ◌∷◌, ◌++◌, List, Option, none, some, if◌then◌else◌, Bytes, bytes_eq,
  codes,
}
use rc.Exceptions.{Exception, Result, return, throw}

-- The files: `GAMES/<name>` for the active games, `GAMES/<plid>/<name>` for the finished ones, and
-- `SCORES/<name>`. A directory that was never created is one without files.
pub record Store : Type 0 where
  pub games : Bytes → Option Bytes
  pub finished : Bytes → List (Bytes × Bytes)
  pub scores : List (Bytes × Bytes)

-- What `std::localtime` and `std::put_time` print of a timestamp, one function for each part of
-- the formats that the program uses: `%Y-%m-%d`, `%H:%M:%S` and `%Y%m%d_%H%M%S`.
pub record Calendar : Type 0 where
  pub date : ℕ → Bytes
  pub clock : ℕ → Bytes
  pub compact : ℕ → Bytes

-- Which accesses to the disk succeed while a command runs.
pub record Disk : Type 0 where
  pub reads : Bool
  pub writes : Bool
  pub renames : Bool
  pub saves_score : Bool

-- An operation on a state of type `S`; the state stays as it is where an exception is thrown.
abbrev pub Op : Type 0 → Type 0 → Type 0
Op S A = S → Result A × S

abbrev pub resume : {S A B : Type 0} → Result A × S → (A → Op S B) → Result B × S
resume (return a, s) f = f a s
resume (throw e, s) f = (throw e, s)

infixl 5 ◌>>=◌ ◌>>◌
abbrev pub ◌>>=◌ : {S A B : Type 0} → Op S A → (A → Op S B) → Op S B
◌>>=◌ m f s = resume (m s) f

abbrev pub ◌>>◌ : {S B : Type 0} → Op S (Unit {0}) → Op S B → Op S B
m >> k = m >>= λ _. k

abbrev pub done : {S A : Type 0} → A → Op S A
done a s = (return a, s)

abbrev pub fail : {S A : Type 0} → Exception → Op S A
fail e s = (throw e, s)

abbrev pub require : {S : Type 0} → Bool → Exception → Op S (Unit {0})
require true e s = (return tt, s)
require false e s = (throw e, s)

-- A file map with one entry replaced.
abbrev pub update : {A : Type 0} → (Bytes → A) → Bytes → A → Bytes → A
update f k v j = if bytes_eq k j then v else f j

-- A directory listing with one file written, or written over.
unfoldable pub put : Bytes → Bytes → List (Bytes × Bytes) → List (Bytes × Bytes)
unfolding bytes_eq
put name content [] = (name, content) ∷ []
put name content ((k, v) ∷ files) =
    if bytes_eq name k then (name, content) ∷ files else (k, v) ∷ put name content files

-- "GAME_" + plid + ".txt".
unfoldable pub game_fname : Bytes → Bytes
game_fname plid = codes "GAME_" ++ (plid ++ codes ".txt")
