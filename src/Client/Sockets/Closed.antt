-- ===== src/Client/Sockets/Closed.antt =====
-- The TCP socket between commands, and the limits of a socket that is set up.
use rc.Base.{
  ℕ, Bool, true, false, ◌≡◌, ◌⊎◌, inl, inr, refl, ap, ◌∙◌, not, ◌&&◌, if◌then◌else◌, Bytes, Option,
  none, some,
}
use rc.Client.Sockets.{
  Calls, create_socket, setup_udp, setup_tcp, trials_command, scoreboard_command,
}
use rc.Constants.{client_send_timeout}
use rc.Exceptions.{
  Exception, Result, return, throw, socket_already_created, socket_address_resolve, socket_open,
  socket_set_opt, connect_tcp,
}
use rc.Sockets.{Socket, no_socket, unused, open_fd, limit_recv, end}
use rc.Store.{Op, resume}
use rc.Client.UdpCommands.{reported}

-- What the client's sockets are like when they are set up: the limit on receptions is the one meant
-- for sending, and sending has none.
abbrev pub client_socket : ℕ → Socket
client_socket n = record {
  fd = some n;
  recv_timeout = some client_send_timeout;
  send_timeout = none;
}

-- A set-up either opens such a socket or throws, but for a socket that was open already.
abbrev pub Opens : Result (Unit {0}) × Socket → Type 0
Opens r =
    ((n : ℕ) × (r ≡ (return tt, client_socket n)))
    ⊎ ((e : Exception) × (r.0 ≡ throw e) × ¬ (e ≡ socket_already_created))

udp_cases :
    (a : Bool) (o : Option ℕ) (b c d e : Bool) (x y : Option ℕ)
    → Opens (
        setup_udp
          (record {
            resolves = a;
            opened = o;
            reuses = b;
            limits = c;
            limits_again = d;
            connects = e;
          })
          (record { fd = none; recv_timeout = x; send_timeout = y }))
unfolding setup_udp create_socket unused open_fd limit_recv
udp_cases false o b c d e x y = inr (_, refl, λ h. cc)
udp_cases true none b c d e x y = inr (_, refl, λ h. cc)
udp_cases true (some n) false c d e x y = inr (_, refl, λ h. cc)
udp_cases true (some n) true false d e x y = inr (_, refl, λ h. cc)
udp_cases true (some n) true true false e x y = inr (_, refl, λ h. cc)
udp_cases true (some n) true true true e x y = inl (n, refl)

tcp_cases :
    (a : Bool) (o : Option ℕ) (b c d e : Bool) (x y : Option ℕ)
    → Opens (
        setup_tcp
          (record {
            resolves = a;
            opened = o;
            reuses = b;
            limits = c;
            limits_again = d;
            connects = e;
          })
          (record { fd = none; recv_timeout = x; send_timeout = y }))
unfolding setup_tcp create_socket unused open_fd limit_recv
tcp_cases false o b c d e x y = inr (_, refl, λ h. cc)
tcp_cases true none b c d e x y = inr (_, refl, λ h. cc)
tcp_cases true (some n) false c d e x y = inr (_, refl, λ h. cc)
tcp_cases true (some n) true false d e x y = inr (_, refl, λ h. cc)
tcp_cases true (some n) true true false e x y = inr (_, refl, λ h. cc)
tcp_cases true (some n) true true true false x y = inr (_, refl, λ h. cc)
tcp_cases true (some n) true true true true x y = inl (n, refl)

-- From no open descriptor, the set-up of either of the client's sockets opens one whose receptions
-- end after CLIENT_SEND_TIMEOUT seconds and whose sends have no limit, or throws another error than
-- SocketAlreadyCreatedError.
pub setup_limits :
    (calls : Calls) (recv send : Option ℕ)
    → Opens (setup_udp calls (record { fd = none; recv_timeout = recv; send_timeout = send }))
      × Opens (setup_tcp calls (record { fd = none; recv_timeout = recv; send_timeout = send }))
setup_limits calls recv send = (
  udp_cases calls.resolves calls.opened calls.reuses calls.limits calls.limits_again calls.connects
      recv send,
  tcp_cases calls.resolves calls.opened calls.reuses calls.limits calls.limits_again calls.connects
      recv send,
)

-- What a set-up of the TCP socket comes to: the descriptor, where each call succeeds, and else the
-- error of the first one that fails.
abbrev pub connected_as : Calls → Option ℕ → Result ℕ
connected_as calls none = throw socket_open
connected_as calls (some n) =
    if not (calls.reuses && calls.limits && calls.limits_again)
    then throw socket_set_opt
    else if not calls.connects
    then throw connect_tcp
    else return n

abbrev pub opens : Calls → Result ℕ
opens calls =
    if calls.resolves then connected_as calls calls.opened else throw socket_address_resolve

abbrev pub and_then : {A B : Type 0} → Result A → (A → Result B) → Result B
and_then (return a) f = f a
and_then (throw e) f = throw e

abbrev Agrees : Result ℕ → Result (Unit {0}) × Socket → Type 0
Agrees (return n) r = r ≡ (return tt, client_socket n)
Agrees (throw e) r = r.0 ≡ throw e

opens-cases :
    (a : Bool) (o : Option ℕ) (b c d e : Bool)
    → (let calls : Calls = record {
      resolves = a;
      opened = o;
      reuses = b;
      limits = c;
      limits_again = d;
      connects = e;
    } in
        Agrees (opens calls) (setup_tcp calls no_socket)
        × ¬ (opens calls ≡ throw socket_already_created))
unfolding setup_tcp create_socket unused open_fd limit_recv
opens-cases false o b c d e = (refl, λ h. cc)
opens-cases true none b c d e = (refl, λ h. cc)
opens-cases true (some n) false c d e = (refl, λ h. cc)
opens-cases true (some n) true false d e = (refl, λ h. cc)
opens-cases true (some n) true true false e = (refl, λ h. cc)
opens-cases true (some n) true true true false = (refl, λ h. cc)
opens-cases true (some n) true true true true = (refl, λ h. cc)

-- What is caught does not depend on the socket.
reported-closed :
    (r : Result (Unit {0})) (s : Socket)
    → ((reported (r, s)).0, no_socket) ≡ reported (r, no_socket)
unfolding reported
reported-closed (return a) s = refl
reported-closed (throw Exception.undefined_behaviour) s = refl
reported-closed (throw _) s = refl

module _ (calls : Calls) where
  exchanged :
      (exchange : Op Socket (Unit {0})) (o : Result ℕ) (r : Result (Unit {0}) × Socket)
      → Agrees o r
      → ((reported (resume r (λ _. exchange))).0, no_socket)
        ≡ reported (and_then o (λ n. (exchange (client_socket n)).0), no_socket)
  exchanged exchange (return n) r h =
      ap (λ x. ((reported (resume x (λ _. exchange))).0, no_socket)) h
      ∙ reported-closed (exchange (client_socket n)).0 (exchange (client_socket n)).1
  exchanged exchange (throw e) (throw x, s) h =
      reported-closed (throw x) s ∙ ap (λ y. reported (y, no_socket)) h
  exchanged exchange (throw e) (return x, s) h = absurd (cc)

  scoreboard_closes :
      (exchange : Op Socket (Unit {0}))
      → scoreboard_command calls exchange no_socket
        ≡ reported (and_then (opens calls) (λ n. (exchange (client_socket n)).0), no_socket)
  unfolding scoreboard_command end
  scoreboard_closes exchange =
      exchanged exchange (opens calls) (setup_tcp calls no_socket)
        (opens-cases calls.resolves calls.opened calls.reuses calls.limits calls.limits_again
          calls.connects).0

  trials_closes :
      (plid : Result Bytes) (exchange : Bytes → Op Socket (Unit {0}))
      → trials_command calls plid exchange no_socket
        ≡ reported (
          and_then plid (λ p. and_then (opens calls) (λ n. (exchange p (client_socket n)).0)),
          no_socket,
        )
  unfolding trials_command end
  trials_closes (return p) exchange =
      exchanged (exchange p) (opens calls) (setup_tcp calls no_socket)
        (opens-cases calls.resolves calls.opened calls.reuses calls.limits calls.limits_again
          calls.connects).0
  trials_closes (throw e) exchange = reported-closed (throw e) no_socket

  -- The client's TCP commands, begun without an open socket: `show_trials` asks for the player's id
  -- first, and stops there if there is none; then either command runs the rest of its `try` block on
  -- the new socket exactly if every call of `setup` succeeds, and else comes to the error of the first
  -- call that fails, which is never that a socket is open already. What was thrown is caught, and no
  -- socket is left open in any case.
  pub tcp_command_closes :
      (plid : Result Bytes) (trials : Bytes → Op Socket (Unit {0})) (board : Op Socket (Unit {0}))
      → (trials_command calls plid trials no_socket
          ≡ reported (
            and_then plid (λ p. and_then (opens calls) (λ n. (trials p (client_socket n)).0)),
            no_socket,
          ))
        × (scoreboard_command calls board no_socket
            ≡ reported (and_then (opens calls) (λ n. (board (client_socket n)).0), no_socket))
        × ¬ (opens calls ≡ throw socket_already_created)
  tcp_command_closes plid trials board = (
    trials_closes plid trials,
    scoreboard_closes board,
    (opens-cases calls.resolves calls.opened calls.reuses calls.limits calls.limits_again
        calls.connects).1,
  )
