-- ===== src/Tests/Process.antt =====
-- The daemon's process on the machines of Tests/Channels.antt and Tests/Table.antt.
use hy_can.UnixSocket.{unix_socket, setup_address}
use hy_can.Tests.Table.{machine_calls, books, open_manager}
use hy_can.Tests.Channels.{posix, quiet, layout, listening}
use hy_can.Netlink.Manager.{initialize as manager_initialize}
use hy_can.Daemon.Process.Clean.{HasNoLostCache, IsClean, main-IsClean}
use hy_can.Daemon.Life.{DaemonState, main_step, shut_down, at_first, later, main_moves}
use hy_can.Base.{is_some, ℕ, text, if◌then◌else◌, ◌≡◌, refl, true, false, ◌&&◌, some, arith}
use hy_can.Daemon.Process.{
  construct_daemon, destruct_daemon, before_rounds, Program, Daemon, Outside, served, ran,
}
use hy_can.UnixSocket.{initialize}

abbrev outside_first : Outside posix machine_calls
outside_first = record { env = quiet; netlink = books false }

abbrev daemon : Daemon posix machine_calls
daemon = record { main_socket = listening; manager = open_manager }

is_constructed : (construct_daemon posix machine_calls true outside_first).0 ≡ some daemon
unfolding construct_daemon manager_initialize initialize unix_socket setup_address text
is_constructed = refl

abbrev constructed : Outside posix machine_calls
constructed = (construct_daemon posix machine_calls true outside_first).1

-- A client registers, and the daemon is stopped.
abbrev last : DaemonState posix layout machine_calls open_manager
last =
    main_step posix layout machine_calls open_manager 20 true listening
      (before_rounds posix machine_calls layout daemon constructed)

abbrev stopped : Outside posix machine_calls
stopped = record {
  env = (shut_down posix layout machine_calls open_manager last).env;
  netlink = (shut_down posix layout machine_calls open_manager last).netlink;
}

abbrev left : Outside posix machine_calls
left = destruct_daemon posix machine_calls daemon stopped

machine_keeps_no_cache : HasNoLostCache posix machine_calls
machine_keeps_no_cache s w h = ground arith

abbrev success : ℕ
success = 0

program : Program posix machine_calls layout true true outside_first success left
program =
    ran daemon 0 stopped is_constructed
      (served last (later at_first (main_moves 20 true listening)))

main-IsClean_example :
    IsClean posix machine_calls outside_first left
    × (success ≡ (
        if is_some (construct_daemon posix machine_calls true outside_first).0 && true
        then 0
        else 1))
main-IsClean_example =
    main-IsClean posix machine_calls layout true true 0 outside_first left machine_keeps_no_cache
      program
