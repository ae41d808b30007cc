-- ===== src/Tests/Requests.antt =====
-- Requests to the daemon on the machine of Tests/Table.antt.

use hy_can.Tests.Table.{Machine, machine_calls, can0, vcan7, books, open_manager}
use hy_can.Netlink.Requests.Balance.{process_request-Balanced}
use hy_can.Netlink.Requests.{state_with_bitrate, process_request}
use hy_can.Netlink.Manager.{check_interface_is_up}
use hy_can.Netlink.LinkState.{set_interface_state_libnl}
use hy_can.Netlink.Bitrate.{set_can_bitrate_libnl}
use hy_can.Netlink.Balance.{Balanced}
use hy_can.Message.{
  strncpy, fill, fill_if_any, NetlinkRequest, state_request, NetlinkResponse, message_response,
  query_response,
}
use hy_can.Base.{text, c_str, starts_with, text_eq, pos, minus_one, ◌≡◌, refl, Bool, true, false}

abbrev after : NetlinkRequest → Bool → NetlinkResponse × Machine
after r refuses =
    let a = process_request machine_calls open_manager r (books refuses) in (a.0, a.1.world)

abbrev to_up : NetlinkRequest
to_up = state_request can0 true true 250_000

abbrev to_missing : NetlinkRequest
to_missing = state_request vcan7 true false 0

up_result : (after to_up false).0.result ≡ pos 0
unfolding process_request check_interface_is_up set_interface_state_libnl set_can_bitrate_libnl
    state_request query_response message_response fill fill_if_any strncpy c_str starts_with text_eq
    state_with_bitrate text
up_result = refl

missing_is : (after to_missing false).0.result ≡ minus_one
unfolding process_request check_interface_is_up set_interface_state_libnl set_can_bitrate_libnl
    state_request query_response message_response fill fill_if_any strncpy c_str starts_with text_eq
    state_with_bitrate text
missing_is = refl

process_request-Balanced_example :
    Balanced (books true) (process_request machine_calls open_manager to_up (books true)).1
process_request-Balanced_example =
    process_request-Balanced machine_calls open_manager to_up (books true)
