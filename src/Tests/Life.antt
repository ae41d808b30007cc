-- ===== src/Tests/Life.antt =====
-- Rounds of the daemon on the machines of Tests/Channels.antt and Tests/Table.antt: a client
-- registers, its worker serves a request, and the cleanup finds it dead.

use hy_can.Daemon.Sessions.Registration.{IsListening}
use hy_can.Daemon.Life.Isolation.{Reach-isolated}
use hy_can.Daemon.Sessions.Table.{view, Changes}
use hy_can.Daemon.Life.Table.{causes_of, Reach_refines}
use hy_can.UnixSocket.{server, unix_socket, accept, recv, initialize}
use hy_can.Tests.Table.{machine_calls, books, open_manager}
use hy_can.Tests.Channels.{posix, quiet, layout, listening}
use hy_can.Daemon.Sessions.{
  ClientSession, find_session, generate_client_channel_name, handle_client_registration,
}
use hy_can.Daemon.Life.Reachable.{IsSound, Reach-IsSound}
use hy_can.Base.{◌≢◌, ◌⊎◌, none, ℤ, pos, ◌≡◌, refl, Bool, true, false, some, text, show_int}
use hy_can.Daemon.Life.{
  DaemonState, first_state, main_step, worker_step, cleanup_step, main_moves, worker_moves,
  cleanup_moves, Reach, at_first, later,
}
use hy_can.Daemon.Worker.{main_round}

abbrev at_start : DaemonState posix layout machine_calls open_manager
at_start = first_state posix layout machine_calls open_manager quiet (books false)

abbrev after_main : DaemonState posix layout machine_calls open_manager
after_main = main_step posix layout machine_calls open_manager 20 true listening at_start

-- The session that the registration leaves.
abbrev served : ClientSession
served = record {
  client_pid = pos 77;
  channel_name = generate_client_channel_name (pos 77);
  socket = record (unix_socket (generate_client_channel_name (pos 77)) server) {
    socket_fd = pos 4;
    connected = true;
  };
  has_worker = true;
  last_activity = 20;
  running = true;
}

abbrev after_worker : DaemonState posix layout machine_calls open_manager
after_worker = worker_step posix layout machine_calls open_manager 30 (pos 77) served after_main

abbrev nobody_alive : ℤ → Bool
nobody_alive pid = false

abbrev after_cleanup : DaemonState posix layout machine_calls open_manager
after_cleanup = cleanup_step posix layout machine_calls open_manager nobody_alive 40 after_worker

is_registered : find_session (pos 77) after_main.sessions ≡ some served
unfolding main_step find_session main_round accept recv handle_client_registration initialize
    unix_socket text show_int
is_registered = refl

rounds : Reach posix layout machine_calls open_manager at_start after_cleanup
rounds =
    later
      (later (later at_first (main_moves 20 true listening))
        (worker_moves 30 (pos 77) served is_registered refl))
      (cleanup_moves nobody_alive 40)

Reach-IsSound_example : IsSound posix layout machine_calls open_manager at_start after_cleanup
Reach-IsSound_example =
    Reach-IsSound posix layout machine_calls open_manager quiet (books false) after_cleanup rounds

Reach_refines_example :
    Changes
      (causes_of posix layout machine_calls open_manager rounds)
      (λ pid. none)
      (view after_cleanup.sessions)
Reach_refines_example =
    Reach_refines posix layout machine_calls open_manager quiet (books false) after_cleanup rounds

one_round : Reach posix layout machine_calls open_manager at_start after_main
one_round = later at_first (main_moves 20 true listening)

Reach-isolated_example :
    IsListening (pos 77) served.socket
    × (served.client_pid ≡ pos 77)
    × ((pos 77 ≡ pos 77)
        ⊎ (served.socket.socket_path ≢ served.socket.socket_path)
          × (served.channel_name ≢ served.channel_name))
Reach-isolated_example =
    Reach-isolated posix layout machine_calls open_manager quiet (books false) after_main one_round
      (pos 77) (pos 77) served served is_registered is_registered
