-- ===== src/Tests/Wire.antt =====
-- A machine whose channels lead to the daemon on the machine of Tests/Table.antt.

use hy_can.Util.Error.{Expected, ok, is_ok}
use hy_can.Tests.Table.{
  machine_calls, machine_table, machine_table-IsLawful, can0, machine, books, open_manager,
}
use hy_can.Netlink.Requests.{process_request, state_with_bitrate}
use hy_can.Netlink.Manager.Queries.{is_up_in}
use hy_can.Netlink.Manager.{check_interface_is_up}
use hy_can.Netlink.Kernel.{IsUpdate}
use hy_can.Message.{
  interface_exists, interface_is_up, NetlinkRequest, query_request, NetlinkResponse, query_response,
  state_request, message_response, fill, fill_if_any, strncpy,
}
use hy_can.Client.Shell.{client_set_state, client_exists, client_is_up}
use hy_can.Client.EndToEnd.{
  IsShortName, request_for, daemon_answer, queries_end_to_end, set_state_end_to_end,
}
use hy_can.Client.{NetlinkClient, ensure_registered, send_request}
use hy_can.Base.{
  is_some, Text, text, starts_with, ℤ, pos, length, if◌then◌else◌, ℕ, suc, ◌≡◌, refl, true, false,
  ◌&&◌, none, some, [], arith, ap, ◌∙◌, inl, inr, c_str, text_eq,
}
use hy_can.Netlink.LinkState.{set_interface_state_libnl}
use hy_can.Netlink.Bitrate.{set_can_bitrate_libnl}
use hy_can.Client.Shell.Fallback.{client_set_state_lem}
use hy_can.UnixSocket.{unix_socket, setup_address, send, recv, initialize}
use hy_can.UnixSocket.Syscalls.{Env, Posix}
use hy_can.Tests.Bytes.{
  write_request, read_request, write_response, ours, theirs, read_request-write_request,
  read_response-write_response, layouts-IsFaithful,
}

-- The last bytes that were sent, which the daemon answers when they are asked for.
abbrev pub linked : Posix
linked = record {
  World = Text;
  socket = λ w. (pos 4, w);
  bind = λ fd path w. (pos 0, w);
  listen = λ fd n w. (pos 0, w);
  chmod = λ path mode w. (pos 0, w);
  connect = λ fd path w. (pos 0, w);
  unlink = λ path w. w;
  close = λ fd w. w;
  select = λ fd t w. (pos 1, w);
  accept = λ fd w. (pos 5, w);
  send = λ fd bytes w. (pos (length bytes), bytes);
  recv = λ fd n w. (
    (
      pos n,
      write_response (process_request machine_calls open_manager (read_request w) (books false)).0,
    ),
    w,
  );
}

abbrev pub channel : Env linked
channel = record { world = []; opened = λ fd. 0; closed = λ fd. 0; unlinked = [] }

abbrev pub known : NetlinkClient
known = record { client_channel_name = text "HyCAN_Client_77"; registered = true }

pub can0-IsShortName : IsShortName can0
unfolding text
can0-IsShortName = (ground arith, omega arith)

abbrev pub answer : NetlinkRequest → NetlinkResponse
answer r =
    daemon_answer linked ours theirs (pos 77) machine_calls open_manager machine_table
      machine_table-IsLawful r (books false)

abbrev response_to : NetlinkRequest → Expected NetlinkResponse
response_to r = (send_request linked ours (pos 77) r known channel).0.0

sent_exists :
    response_to (query_request interface_exists can0)
    ≡ ok (answer (query_request interface_exists can0))
unfolding send_request ensure_registered initialize unix_socket setup_address send recv text
sent_exists = refl

sent_is_up :
    response_to (query_request interface_is_up can0)
    ≡ ok (answer (query_request interface_is_up can0))
unfolding send_request ensure_registered initialize unix_socket setup_address send recv text
sent_is_up = refl

sent_state :
    response_to (request_for can0 true 250_000) ≡ ok (answer (request_for can0 true 250_000))
unfolding send_request ensure_registered initialize unix_socket setup_address send recv text
sent_state = refl

abbrev pub no_shell : Text → ℕ → ℤ × ℕ
no_shell command n = (pos 1, suc n)

answered :
    (process_request machine_calls open_manager
      (request_for can0 true 250_000)
      (books false)).0.result
    ≡ pos 0
unfolding process_request check_interface_is_up set_interface_state_libnl set_can_bitrate_libnl
    state_request query_response message_response fill fill_if_any strncpy c_str starts_with text_eq
    state_with_bitrate text
answered = refl

pub answer_is_zero : (answer (request_for can0 true 250_000)).result ≡ pos 0
answer_is_zero =
    ap (λ r. r.result)
      (read_response-write_response
        (process_request machine_calls open_manager
          (read_request (write_request (request_for can0 true 250_000))) (books false)).0)
    ∙ ap (λ r. (process_request machine_calls open_manager r (books false)).0.result)
        (read_request-write_request (request_for can0 true 250_000))
    ∙ answered

state_done :
    is_ok (client_set_state linked ours (pos 77) no_shell can0 true 250_000 known channel 0).0.0
    ≡ true
state_done =
    elim (client_set_state_lem no_shell (pos 0) linked ours (pos 77) can0 true 250_000 known channel
      0).0 [
        | inl (response, arrived, same, log) ↦
            ground (arith, arrived, same, sent_state, answer_is_zero)
        | inr (failure, log) ↦ ground (arith, failure, sent_state)
      ]

queries_end_to_end_example :
    ((client_exists linked ours (pos 77) can0 known channel).0.0
      ≡ ok (is_some (machine_table.find (machine false) can0)))
    × ((client_is_up linked ours (pos 77) can0 known channel).0.0
        ≡ ok (is_up_in (machine_table.find (machine false) can0)))
queries_end_to_end_example =
    queries_end_to_end linked ours theirs (pos 77) machine_calls open_manager machine_table
      machine_table-IsLawful can0 known channel (books false) can0-IsShortName layouts-IsFaithful
      refl sent_exists sent_is_up

set_state_end_to_end_example :
    (is_some (machine_table.find (machine false) can0) ≡ true)
    × IsUpdate can0
        (some true)
        (if true && starts_with can0 (text "can") then some 250_000 else none)
        (machine_table.find (machine false))
        (machine_table.find
          (process_request machine_calls open_manager
            (request_for can0 true 250_000)
            (books false)).1.world)
set_state_end_to_end_example =
    set_state_end_to_end linked ours theirs (pos 77) machine_calls open_manager machine_table
      machine_table-IsLawful no_shell can0 true 250_000 known channel 0 (books false)
      can0-IsShortName layouts-IsFaithful sent_state state_done
