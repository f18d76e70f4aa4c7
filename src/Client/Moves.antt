-- ===== src/Client/Moves.antt =====
-- How the client's memory changes: what is printed is defined, and no exception is thrown.
use rc.Base.{
  ◌∙◌, ℕ, ◌+◌, ◌%◌, ◌^◌, ltb, if◌then◌else◌, not, ◌==◌, ◌&&◌, true, false, [], ◌∷◌, ◌++◌, ◌≡◌, refl,
  ap, Bytes, Option,
}
use rc.Client.Shown.{IsFour, IsShown, state_text-Prints, reveal_text-Prints}
use rc.Client.State.{
  GameState, Console, Events, print, print_state, event_text, end_game, start_game, started,
  get_plid, save_attempt, new_attempt,
}
use rc.Client.UdpCommands.{try_ok, try_ended, playing}
use rc.Constants.{secret_key_len}
use rc.Exceptions.{Result, return, throw, uncontextualized}
use rc.Udp.Replies.{ReplyTryPacket}
use rc.Udp.Requests.{TryPacket}

-- The call returns, and leaves the console with this memory; it may have printed.
abbrev pub Becomes : {W : Type 0} → Console W → GameState → Result (Unit {0}) × Console W → Type 0
Becomes c g r = (text : Bytes) × (r ≡ (return tt, record c { game = g; printed = text }))

abbrev pub over_state : GameState → Bytes → GameState
over_state g key = record g { key = key; finished = true; is_game = false }

abbrev pub saved_state : GameState → Bytes → ℕ → ℕ → GameState
saved_state g att b w = record g {
  guesses = g.guesses ++ att ∷ [];
  feedback = g.feedback ++ (b, w) ∷ [];
}

abbrev pub next_state : GameState → Bytes → ℕ → ℕ → GameState
next_state g att b w = record (saved_state g att b w) { trial = (g.trial + 1) % 2 ^ 32 }

module _ {W : Type 0} where
  print_state-Becomes : (c : Console W) → IsShown c.game → Becomes c c.game (print_state c)
  unfolding print_state print
  print_state-Becomes c v =
      let (text, e) = state_text-Prints c.game v in (c.printed ++ text, ap (λ r. print r c) e)

  pub start_game-Becomes :
      (id : Bytes) (key : Option Bytes) (c : Console W)
      → IsShown (started id key c.game)
      → Becomes c (started id key c.game) (start_game id key c)
  unfolding start_game
  start_game-Becomes id key c v = print_state-Becomes (record c { game = started id key c.game }) v

  -- The end of a game is printed while it is still a game.
  pub end_game-Becomes :
      (key : Bytes) (event : Events) (c : Console W)
      → IsShown (record (c.game) { key = key; finished = true })
      → IsFour key
      → Becomes c (over_state c.game key) (end_game key event c)
  unfolding end_game print
  end_game-Becomes key event c v four =
      let (text, e) =
        print_state-Becomes (record c { game = record (c.game) { key = key; finished = true } })
          v in
      let (last, d) = reveal_text-Prints (over_state c.game key) event four in
      ((text ++ event_text event) ++ last, rw (e, d) refl)

  pub playing-active : (c : Console W) → c.game.is_game ≡ true → playing c ≡ (return tt, c)
  unfolding playing
  playing-active c active =
      ap (λ b. if b then (return tt, c) else (throw uncontextualized, c)) active

  pub playing-idle :
      (c : Console W) → c.game.is_game ≡ false → playing c ≡ (throw uncontextualized, c)
  unfolding playing
  playing-idle c idle = ap (λ b. if b then (return tt, c) else (throw uncontextualized, c)) idle

  pub get_plid-active :
      (c : Console W) → c.game.is_game ≡ true → get_plid c ≡ (return c.game.plid, c)
  unfolding get_plid
  get_plid-active c active =
      ap
        (λ b.
          if not b && not c.game.finished
          then (throw uncontextualized, c)
          else (return c.game.plid, c))
        active

  pub get_plid-finished :
      (c : Console W)
      → c.game.is_game ≡ false
      → c.game.finished ≡ true
      → get_plid c ≡ (return c.game.plid, c)
  unfolding get_plid
  get_plid-finished c idle finished =
      ap
        (λ b.
          if not b && not c.game.finished
          then (throw uncontextualized, c)
          else (return c.game.plid, c))
        idle
      ∙ ap (λ b. if not b then (throw uncontextualized, c) else (return c.game.plid, c)) finished

  new_attempt-counted :
      (c : Console W)
      → c.game.is_game ≡ true
      → new_attempt c ≡ (
        return c.game.trial,
        record c { game = record (c.game) { trial = (c.game.trial + 1) % 2 ^ 32 } },
      )
  unfolding new_attempt
  new_attempt-counted c active =
      let next : GameState = record (c.game) { trial = (c.game.trial + 1) % 2 ^ 32 } in
      ap
        (λ b.
          if b then (return c.game.trial, record c { game = next }) else (return c.game.trial, c))
        active

  -- An attempt that the server has accepted, and that is not the key.
  pub try_ok-goes_on :
      (request : TryPacket) (reply : ReplyTryPacket) (c : Console W)
      → ltb reply.trial request.trial ≡ false
      → (reply.blacks == secret_key_len) ≡ false
      → c.game.is_game ≡ true
      → IsShown (next_state c.game request.key reply.blacks reply.whites)
      → Becomes c (next_state c.game request.key reply.blacks reply.whites) (try_ok request reply c)
  unfolding try_ok save_attempt
  try_ok-goes_on request reply c late wrong active v =
      let (text, e) =
        print_state-Becomes
          (record c { game = next_state c.game request.key reply.blacks reply.whites }) v in
      let counted =
        new_attempt-counted
          (record c { game = saved_state c.game request.key reply.blacks reply.whites }) active in
      (text, rw (late, wrong, counted, e) refl)

  -- The attempt that wins: the request's key is the key.
  pub try_ok-won :
      (request : TryPacket) (reply : ReplyTryPacket) (c : Console W)
      → ltb reply.trial request.trial ≡ false
      → (reply.blacks == secret_key_len) ≡ true
      → (let g = saved_state c.game request.key reply.blacks reply.whites in
          IsShown (record g { key = request.key; finished = true })
          → IsFour request.key
          → Becomes c (over_state g request.key) (try_ok request reply c))
  unfolding try_ok save_attempt
  try_ok-won request reply c late right v four =
      let (text, e) =
        end_game-Becomes request.key Events.won
          (record c { game = saved_state c.game request.key reply.blacks reply.whites }) v four in
      (text, rw (late, right, e) refl)

  -- The end of a game that the server announces: the attempt is noted without pegs.
  pub try_ended-Becomes :
      (request : TryPacket) (reply : ReplyTryPacket) (event : Events) (c : Console W)
      → (let g = saved_state c.game request.key 0 0 in
          IsShown (record g { key = reply.key; finished = true })
          → IsFour reply.key
          → Becomes c (over_state g reply.key) (try_ended request reply event c))
  unfolding try_ended save_attempt
  try_ended-Becomes request reply event c v four =
      end_game-Becomes reply.key event (record c { game = saved_state c.game request.key 0 0 }) v
        four
