-- ===== src/Server/Connections/Answers.antt =====
-- The answer to a request for the trials of a game.
use rc.Base.{[], ◌∷◌, ◌++◌, ◌≡◌, ap, sym, ◌∙◌, ℕ, Bytes, All}
use rc.Exceptions.{Exception, return}
use rc.Server.Connections.{handle_tcp_connection, handle_tcp_command, connection_response}
use rc.Server.TcpCommands.{
  status_of, state_fname, show_trials_handler, trials_read, trials_reply, sent_text,
}
use rc.Server.UdpCommands.{fresh_call}
use rc.Store.Games.Active.{IsActive, working}
use rc.Store.Records.Sessions.{IsCalendar, Session}
use rc.Store.Reports.Parsed.{IsRecorded, game_of, get_last_game_active}
use rc.Store.Reports.{GameStatus, report, get_last_game}
use rc.Store.{Store, Calendar}
use rc.Tcp.Packets.{send_show_trials, send_reply_show_trials}
use rc.Tcp.Reports.{trials_packet}
use rc.Tcp.RoundTrip.{id_lem, read_show_trials-player}
use rc.Udp.Parser.Reads.{IsPlayerId}

return_injective : {a b : Bytes} → return a ≡ return b → a ≡ b
return_injective h = cc

module _ (cal : Calendar) (ok_cal : IsCalendar cal) (closing : Exception) (now : ℕ) where
  -- What the handler makes of the report that it finds.
  trials_read-found :
      (plid text : Bytes) (status : GameStatus) (s : Store)
      → get_last_game cal working plid now (fresh_call s) ≡ (return (status, text), fresh_call s)
      → trials_read cal working closing now (return (record { player_id = plid })) s
        ≡ (trials_reply plid (return (status, text)), s)
  unfolding trials_read
  trials_read-found plid text status s found = ap (λ r. (trials_reply plid r.0, r.1.store)) found

  -- A `STR` request of a player whose last game is found, in progress or finished.
  pub found_answered :
      (plid text : Bytes) (status : GameStatus) (s : Store)
      → IsPlayerId plid
      → get_last_game cal working plid now (fresh_call s) ≡ (return (status, text), fresh_call s)
      → handle_tcp_connection cal working closing now
          (send_show_trials (record { player_id = plid }))
          s
        ≡ (
          return
              (send_reply_show_trials (trials_packet (status_of status) (state_fname plid) text)),
          s,
        )
  unfolding handle_tcp_connection handle_tcp_command show_trials_handler trials_reply sent_text
      send_show_trials
  found_answered plid text status s v found =
      rw
        (
          id_lem closing b'S' b'T' b'R' (b' ' ∷ (plid ++ b'\n' ∷ [])),
          read_show_trials-player closing plid [] v,
        )
        (ap (λ r. (connection_response r.0, r.1)) (trials_read-found plid text status s found))

  -- The last game of a player whose game is active is that game, on a disk that works and for
  -- numbers of 32 bits.
  pub active_found :
      (g : Session) (s : Store) (text : Bytes)
      → IsActive cal g now s
      → All IsRecorded g.trials
      → report g.plid now GameStatus.act (game_of cal g) ≡ return text
      → get_last_game cal working g.plid now (fresh_call s)
        ≡ (return (GameStatus.act, text), fresh_call s)
  active_found g s text a h shown =
      let (found, same, read) = get_last_game_active cal ok_cal g now (fresh_call s) a h in
      let equal : found ≡ text = return_injective (sym same ∙ shown) in
      read ∙ ap (λ t. (return (GameStatus.act, t), fresh_call s)) equal
