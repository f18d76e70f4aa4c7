-- ===== src/Client/Debug.antt =====
-- A new game after one in debug mode.
use rc.Base.{true, ◌++◌, codes, ◌≡◌, refl, ap, Bytes, none, some}
use rc.Client.State.{
  GameState, Console, char_at, colors_text, key_text, table_text, state_text, started, print,
  print_state, start_game, then_text,
}
use rc.Client.UdpCommands.{start_request, start_replied, start_new_game_handler, exchange, reported}
use rc.Client.UdpSocket.{Network}
use rc.Exceptions.{Exception, Result, return, throw, undefined_behaviour}
use rc.Text.Words.{In}
use rc.Udp.Replies.{Status, ReplyTryPacket, ReplyQuitPacket, decode_reply_start}
use rc.Udp.Requests.{StartNewGamePacket, encode_start}

-- The key is empty, and its second character is read.
stale_key :
    (id : Bytes) (g : GameState)
    → g.debug ≡ true
    → key_text (started id none g) ≡ throw undefined_behaviour
unfolding key_text started colors_text char_at
stale_key id g d = rw d refl

throw_injective : {a b : Exception} → ◌≡◌ {A = Result (Unit {0})} (throw a) (throw b) → a ≡ b
throw_injective h = cc

stale_state :
    (id : Bytes) (g : GameState)
    → g.debug ≡ true
    → state_text (started id none g) ≡ throw undefined_behaviour
unfolding state_text started
stale_state id g d = ap (λ r. then_text r (table_text (started id none g))) (stale_key id g d)

reported_undefined :
    {S : Type 0} (r : Result (Unit {0}) × S)
    → r.0 ≡ throw undefined_behaviour
    → (reported r).0 ≡ throw undefined_behaviour
unfolding reported
reported_undefined (return a, s) h = absurd (cc)
reported_undefined {S} (throw e, s) h =
    ap (λ x. (reported {S = S} (throw x, s)).0) (throw_injective h)

module _ {W : Type 0} (net : Network W) (old_try : ReplyTryPacket)
    (old_quit : ReplyQuitPacket) where
  stale_start :
      (id : Bytes) (c : Console W)
      → c.game.debug ≡ true
      → (start_game id none c).0 ≡ throw undefined_behaviour
  unfolding start_game print_state print
  stale_start id c d = rw (stale_state id c.game d) refl

  -- Debug mode outlives its game, but the key does not: where the client has been in debug mode and
  -- the server answers a later `start` with `OK`, whatever network and server these are, the table of
  -- the new game shows the key, which is empty by now, and the read past its end is undefined
  -- behaviour. Debug mode is what the start of a debug game sets and the start of another game does
  -- not reset.
  pub start_after_debug :
      (input : In) (c : Console W) (w : W) (request : StartNewGamePacket)
      → (start_request input).0 ≡ return request
      → exchange net old_try old_quit (encode_start request) decode_reply_start c
        ≡ (return (record { status = Status.ok }), record c { world = w })
      → c.game.debug ≡ true
      → ((start_new_game_handler net old_try old_quit input c).0 ≡ throw undefined_behaviour)
        × ((id : Bytes) (key : Bytes) (g : GameState) → (started id (some key) g).debug ≡ true)
        × ((id : Bytes) (g : GameState) → (started id none g).debug ≡ g.debug)
  unfolding start_new_game_handler start_replied print reported started
  start_after_debug input c w request typed answered d =
      let stale =
        stale_start request.player_id
          (record c { printed = c.printed ++ codes "Game started!\n"; world = w }) d in
      (rw (typed, answered) (reported_undefined _ stale), λ id key g. refl, λ id g. refl)
