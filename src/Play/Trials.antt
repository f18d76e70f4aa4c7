-- ===== src/Play/Trials.antt =====
-- `show_trials` against the server: the report of the active game arrives in the client's directory.
use rc.Base.{ℕ, List, [], ◌∷◌, ◌++◌, Bytes}
use rc.Client.State.{Console}
use rc.Client.TcpCommands.{Connection}
use rc.Exceptions.{Exception, Result, return, throw}
use rc.Play.Network.{World}
use rc.Server.Connections.{handle_tcp_connection}
use rc.Server.TcpCommands.{state_fname}
use rc.Store.Games.Active.{working}
use rc.Store.Reports.{GameStatus, Game, report_head, report_count, report_attempts}
use rc.Store.{Store, Calendar, put}

-- A TCP connection to the server: what the client writes is answered, and then the server closes.
abbrev answered_tcp : World → Result Bytes × Store → Result (Unit {0}) × World
answered_tcp w (return reply, store) = (return tt, record { store = store; inbox = reply ∷ [] })
answered_tcp w (throw e, store) = (throw e, w)

abbrev arrived : World → List Bytes → Result Bytes × World
arrived w [] = (return [], w)
arrived w (reply ∷ replies) = (return reply, record w { inbox = replies })

abbrev pub server_connection : Calendar → Exception → ℕ → Connection World
server_connection cal closing now = record {
  connect = λ w. (return tt, record w { inbox = [] });
  write = λ d w. answered_tcp w (handle_tcp_connection cal working closing now d w.store);
  incoming = λ w. arrived w w.inbox;
  closing = closing;
}

abbrev report_front : Bytes → GameStatus → Game → Bytes
report_front plid status g =
    report_head plid status g.header ++ (report_count g.attempts ++ report_attempts g.attempts)

-- The console once a report has been saved and printed.
abbrev pub fetched : Bytes → Bytes → Console World → Console World
fetched plid text c = record c {
  files = put (state_fname plid) text c.files;
  printed = c.printed ++ text;
  world = record { store = c.world.store; inbox = [] };
}
