-- ===== src/Store/Games/Sound.antt =====
-- The games of all players together, and how writing or removing one file leaves them.
use rc.Base.{
  ℕ, ◌≤◌, true, false, [], ◌∷◌, ◌++◌, ◌≡◌, refl, sym, ◌∙◌, arith, Bytes, bytes_eq, Option, none,
  some, length, ◌⊎◌, inl, inr, Bool-cases, codes,
}
use rc.Store.Games.Invariant.{IsGame}
use rc.Store.Records.Sessions.{Session, session_text}
use rc.Store.{Calendar, update, game_fname}
use rc.Udp.Parser.Reads.{IsPlayerId}

-- The player has a game in order, started at `now` or before, and its file is that of the game.
pub record InPlay (cal : Calendar) (now : ℕ) (plid : Bytes) (games : Bytes → Option Bytes)
    : Type 0 where
  pub session : Session
  pub same : session.plid ≡ plid
  pub game : IsGame session
  pub begun : session.start ≤ now
  pub file : games (game_fname plid) ≡ some (session_text cal session)

-- Every player has no game or one in order.
abbrev pub IsSound : Calendar → ℕ → (Bytes → Option Bytes) → Type 0
IsSound cal now games =
    (plid : Bytes) → IsPlayerId plid → (games (game_fname plid) ≡ none) ⊎ InPlay cal now plid games

prefix_lem : (p q r : Bytes) → length p ≡ length q → bytes_eq (p ++ r) (q ++ r) ≡ true → p ≡ q
unfolding bytes_eq
prefix_lem [] [] r e h = refl
prefix_lem [] (y ∷ q) r e h = absurd (omega arith)
prefix_lem (x ∷ p) [] r e h = absurd (omega arith)
prefix_lem (x ∷ p) (y ∷ q) r e h = ground (arith, prefix_lem p q r)

-- Two players have two files.
pub game_fname_injective :
    (p q : Bytes)
    → IsPlayerId p
    → IsPlayerId q
    → bytes_eq (game_fname p) (game_fname q) ≡ true
    → p ≡ q
unfolding game_fname bytes_eq
game_fname_injective p q v w h = prefix_lem p q (codes ".txt") (v.six ∙ sym w.six) h

module _ (cal : Calendar) (now : ℕ) (games : Bytes → Option Bytes)
    (sound : IsSound cal now games) where
  elsewhere :
      (plid : Bytes) (file : Option Bytes) (j : Bytes)
      → bytes_eq (game_fname plid) (game_fname j) ≡ false
      → (games (game_fname j) ≡ none) ⊎ InPlay cal now j games
      → (update games (game_fname plid) file (game_fname j) ≡ none)
        ⊎ InPlay cal now j (update games (game_fname plid) file)
  elsewhere plid file j other (inl e) = inl (rw other e)
  elsewhere plid file j other (inr i) = inr (record {
    session = i.session;
    same = i.same;
    game = i.game;
    begun = i.begun;
    file = rw other i.file;
  })

  pub IsSound-none :
      (plid : Bytes) → IsPlayerId plid → IsSound cal now (update games (game_fname plid) none)
  IsSound-none plid v j w = elim (Bool-cases (bytes_eq (game_fname plid) (game_fname j))) [
    | inl here ↦ inl (rw here refl)
    | inr other ↦ elsewhere plid none j other (sound j w)
  ]

  pub IsSound-some :
      (g : Session)
      → IsGame g
      → g.start ≤ now
      → IsSound cal now (update games (game_fname g.plid) (some (session_text cal g)))
  IsSound-some g v begun j w = elim (Bool-cases (bytes_eq (game_fname g.plid) (game_fname j))) [
    | inl here ↦ inr (record {
      session = g;
      same = game_fname_injective g.plid j v.player w here;
      game = v;
      begun = begun;
      file = rw here refl;
    })
    | inr other ↦ elsewhere g.plid (some (session_text cal g)) j other (sound j w)
  ]
