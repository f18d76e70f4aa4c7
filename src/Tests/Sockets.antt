-- ===== src/Tests/Sockets.antt =====
-- A socket whose second limit cannot be set, and one whose connection is refused.
use rc.Base.{◌≡◌, true, false, none, some}
use rc.Client.Sockets.Closed.{
  Opens, client_socket, opens, and_then, setup_limits, tcp_command_closes,
}
use rc.Client.Sockets.{Calls, setup_udp, setup_tcp, trials_command, scoreboard_command}
use rc.Exceptions.{return, throw, socket_already_created}
use rc.Sockets.{Socket, no_socket}
use rc.Client.UdpCommands.{reported}
use rc.Tests.Samples.{player}
use rc.Store.{Op, done}

abbrev refused : Calls
refused = record {
  resolves = true;
  opened = some 4;
  reuses = true;
  limits = true;
  limits_again = true;
  connects = false;
}

setup_limits_example :
    Opens (setup_udp refused (record { fd = none; recv_timeout = none; send_timeout = some 1 }))
    × Opens (setup_tcp refused (record { fd = none; recv_timeout = none; send_timeout = some 1 }))
setup_limits_example = setup_limits refused none (some 1)

abbrev saved : Op Socket (Unit {0})
saved = done tt

tcp_command_closes_example :
    (trials_command refused (return player) (λ p. saved) no_socket
      ≡ reported (
        and_then (return player) (λ p. and_then (opens refused) (λ n. (saved (client_socket n)).0)),
        no_socket,
      ))
    × (scoreboard_command refused saved no_socket
        ≡ reported (and_then (opens refused) (λ n. (saved (client_socket n)).0), no_socket))
    × ¬ (opens refused ≡ throw socket_already_created)
tcp_command_closes_example = tcp_command_closes refused (return player) (λ p. saved) saved
