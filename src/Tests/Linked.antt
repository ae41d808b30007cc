-- ===== src/Tests/Linked.antt =====
-- An interface that is brought up through the daemon of Tests/Wire.antt.

use hy_can.Netlink.Kernel.{IsUpdate}
use hy_can.Interface.Order.{bring_up_lem, up_succeeds}
use hy_can.Interface.EndToEnd.{ipc_set_client, up_end_to_end}
use hy_can.Client.Shell.Fallback.{client_set_state_lem}
use hy_can.Client.EndToEnd.{request_for}
use hy_can.Util.Error.{is_ok, ok}
use hy_can.Tests.Wire.{can0-IsShortName, answer_is_zero, answer, linked, channel, known, no_shell}
use hy_can.Tests.Table.{
  machine_calls, machine_table, machine_table-IsLawful, machine, books, open_manager, can0,
}
use hy_can.Tests.Objects.{small_poll, small_buses}
use hy_can.Tests.Bytes.{theirs, layouts-IsFaithful, ours}
use hy_can.IpcManager.{new_manager, Ipc, ensure_initialized, ipc_exists}
use hy_can.Can.Sender.{new_sender}
use hy_can.Can.Dispatcher.{new_dispatcher}
use hy_can.Base.{
  starts_with, if◌then◌else◌, is_some, ap, ◌∙◌, inl, inr, arith, c_str, text_eq, Text, text, pos, ℕ,
  ◌≡◌, refl, true, false, Option, none, some, [],
}
use hy_can.UnixSocket.{initialize, unix_socket, setup_address, send, recv}
use hy_can.Can.Dispatcher.Lifecycle.{epoll_fd_add_sock_fd, start, is_success}
use hy_can.Can.Socket.{ifr_name, ensure_connected, flush_loop, flush, new_socket}
use hy_can.Interface.{bring_up, can, ensure_present}
use hy_can.Interface.Object.{object_up, Interface, Systems}
use hy_can.Client.{send_request, ensure_registered}
use hy_can.Client.Shell.{client_set_state, client_exists}
use hy_can.Netlink.Requests.{process_request}
use hy_can.Message.{query_request, query_response, fill, strncpy}
use hy_can.Netlink.Manager.{check_interface_exists}

abbrev made_here : ℕ → Option Text
made_here n = none

abbrev start_systems : Systems small_buses linked ℕ
start_systems = (
  record { world = (3, false); opened = λ fd. 0; closed = λ fd. 0; sent = []; writes = 0 },
  (record new_manager { client = some known }, (channel, 0)),
)

abbrev can_interface : Interface ℕ
can_interface = record {
  interface_name = can0;
  dispatcher = new_dispatcher;
  line = record {
    socket = new_socket can0;
    thread_event_fd = pos 3;
    epoll_fd = pos 2;
    joinable = false;
    started = 0;
    joined = 0;
  };
  sender = new_sender can0;
}

abbrev asked : Ipc linked ℕ
asked = (ensure_present linked ours (pos 77) no_shell made_here can can0 start_systems.1).1

there : asked.0.client ≡ some known
unfolding ensure_present ipc_exists ensure_initialized client_exists send_request ensure_registered
    initialize unix_socket setup_address send recv text new_manager process_request query_request
    check_interface_exists query_response text_eq c_str fill strncpy
there = refl

sent_from_there :
    (send_request linked ours (pos 77) (request_for can0 true 250_000) known asked.1.0).0.0
    ≡ ok (answer (request_for can0 true 250_000))
unfolding send_request ensure_registered initialize unix_socket setup_address send recv text
    ensure_present ipc_exists ensure_initialized client_exists new_manager process_request
    query_request check_interface_exists query_response text_eq c_str fill strncpy
sent_from_there = refl

is_present :
    is_ok (ensure_present linked ours (pos 77) no_shell made_here can can0 start_systems.1).0 ≡ true
unfolding ensure_present ipc_exists ensure_initialized client_exists send_request ensure_registered
    initialize unix_socket setup_address send recv text new_manager process_request query_request
    check_interface_exists query_response text_eq c_str fill strncpy
is_present = refl

is_set :
    is_ok
      (client_set_state linked ours
        (pos 77)
        no_shell
        can0
        true
        250_000
        known
        asked.1.0
        asked.1.1).0.0
    ≡ true
is_set =
    elim (client_set_state_lem no_shell (pos 0) linked ours (pos 77) can0 true 250_000 known
      asked.1.0 asked.1.1).0 [
        | inl (response, arrived, same, log) ↦
            ground (arith, arrived, same, sent_from_there, answer_is_zero)
        | inr (failure, log) ↦ ground (arith, failure, sent_from_there)
      ]

is_brought :
    is_ok (bring_up linked ours (pos 77) no_shell made_here can can0 250_000 start_systems.1).0
    ≡ true
is_brought =
    elim (bring_up_lem linked ours (pos 77) no_shell made_here can can0 250_000 start_systems.1).1 [
      | inl wrong ↦ absurd (ground (arith, wrong.0, is_present))
      | inr (there_is, same) ↦
          ap (λ r. is_ok r.0) same
          ∙ ap is_ok (
              ipc_set_client linked ours (pos 77) no_shell made_here can0 true 250_000 asked known
                there)
          ∙ is_set
    ]

is_started :
    is_success small_buses small_poll
      (start small_buses small_poll 2 can_interface.line start_systems.0).0.0
    ≡ true
unfolding start epoll_fd_add_sock_fd ensure_connected flush flush_loop new_socket ifr_name
is_started = refl

is_up_now :
    is_success small_buses small_poll
      (object_up small_buses small_poll linked ours
        (pos 77)
        no_shell
        made_here
        can
        250_000
        2
        can_interface
        start_systems).0.0
    ≡ true
unfolding object_up
is_up_now =
    up_succeeds linked ours (pos 77) no_shell made_here small_buses small_poll can can0 250_000 2
      can_interface.line start_systems.0 start_systems.1 is_brought is_started

up_end_to_end_example :
    let r =
      object_up small_buses small_poll linked ours
        (pos 77)
        no_shell
        made_here
        can
        250_000
        2
        can_interface
        start_systems in
    (is_some (machine_table.find (machine false) can0) ≡ true)
    × IsUpdate can0
        (some true)
        (if starts_with can0 (text "can") then some 250_000 else none)
        (machine_table.find (machine false))
        (machine_table.find
          (process_request machine_calls open_manager
            (request_for can0 true 250_000)
            (books false)).1.world)
    × (r.0.1.line.joinable ≡ true)
up_end_to_end_example =
    up_end_to_end linked ours (pos 77) no_shell made_here theirs machine_calls open_manager
      machine_table machine_table-IsLawful small_buses small_poll can 250_000 2 can_interface
      start_systems known (books false) can0-IsShortName layouts-IsFaithful refl there
      sent_from_there is_up_now
