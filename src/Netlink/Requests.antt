-- ===== src/Netlink/Requests.antt =====
-- NetlinkManager::process_request of src/Daemon/NetlinkManager.cpp
pub mod Keeps
pub mod Balance
pub mod Effect
pub mod Failure
pub mod Contract
use hy_can.Base.{
  is_some, ℕ, suc, ◌+◌, ◌≡◌, Bool, true, false, not, ◌&&◌, Option, none, some, Text, text, ◌++◌, ℤ,
  pos, negsuc, ◌==◌, ◌%◌, is_negative, is_zero, minus_one, if◌then◌else◌, starts_with, c_str,
}
use hy_can.Util.Error.{Expected, ok, unexpected}
use hy_can.Message.{
  NetlinkRequest, NetlinkResponse, message_response, query_response, RequestType,
  set_interface_state, create_vcan_interface, interface_exists, interface_is_up,
}
use hy_can.Netlink.Libnl.{Libnl, Env, M, pure, ◌>>=◌, ◌>>◌, call, take_link, link_put, iff_up}
use hy_can.Netlink.Vcan.{socket_alloc, socket_free, create_vcan_interface_if_not_exists}
use hy_can.Netlink.Manager.{
  NetlinkManager, bool_eq, link_is_up, up_if_any, refill, get_by_name, check_interface_exists,
  check_interface_is_up,
}
use hy_can.Netlink.LinkState.{set_interface_state_libnl}
use hy_can.Netlink.Bitrate.{set_can_bitrate_libnl}

module _ (L : Libnl) (m : NetlinkManager L) where
  -- `CREATE_VCAN_INTERFACE`, from the result of the creation on.
  vcan_response : Text → Expected (Unit {0}) → NetlinkResponse
  vcan_response interface_name (ok _) =
      message_response (pos 0) (text "VCAN interface created successfully")
  vcan_response interface_name (unexpected e) =
      message_response minus_one
        (text "Failed to create VCAN interface " ++ (interface_name ++ (text ": " ++ e.message)))

  unfoldable pub create_request : Text → M L NetlinkResponse
  unfolding vcan_response
  create_request interface_name = do
    vcan_result ← create_vcan_interface_if_not_exists L interface_name
    pure (vcan_response interface_name vcan_result)

  -- Setting the bitrate, and then the state.
  bitrate_then_up : Text → Bool → ℕ → M L NetlinkResponse
  bitrate_then_up interface_name up bitrate = do
    bitrate_result ← set_can_bitrate_libnl L m interface_name bitrate
    if not (is_zero bitrate_result.result)
        then pure bitrate_result
        else set_interface_state_libnl L m interface_name up

  -- An interface that is up is brought down first.
  down_then_bitrate : Text → Bool → ℕ → M L NetlinkResponse
  unfolding bitrate_then_up
  down_then_bitrate interface_name up bitrate = do
    down_result ← set_interface_state_libnl L m interface_name false
    if not (is_zero down_result.result)
        then pure (
            message_response down_result.result (
              text "Failed to bring down interface "
              ++ (interface_name
                  ++ (text " before setting bitrate: " ++ c_str down_result.error_message))))
        else bitrate_then_up interface_name up bitrate

  unfoldable pub state_with_bitrate : Text → Bool → ℕ → M L NetlinkResponse
  unfolding down_then_bitrate
  state_with_bitrate interface_name up bitrate = do
    is_up_response ← check_interface_is_up L m interface_name
    if not (is_zero is_up_response.result)
        then pure is_up_response
        else if is_up_response.is_up
        then down_then_bitrate interface_name up bitrate
        else bitrate_then_up interface_name up bitrate

  unfoldable pub state_request_of : Text → Bool → Bool → ℕ → M L NetlinkResponse
  state_request_of interface_name up set_bitrate bitrate =
      if up && set_bitrate
      then state_with_bitrate interface_name up bitrate
      else set_interface_state_libnl L m interface_name up

  -- The `switch`; the name is read from the buffer as a C string.
  dispatch : RequestType → Text → NetlinkRequest → M L NetlinkResponse
  unfolding create_request state_request_of
  dispatch interface_exists name request = check_interface_exists L m name
  dispatch interface_is_up name request = check_interface_is_up L m name
  dispatch create_vcan_interface name request = create_request name
  dispatch set_interface_state name request =
      state_request_of name request.up request.set_bitrate request.bitrate
  dispatch _ name request = pure (message_response minus_one (text "Unknown request operation"))

  unfoldable pub process_request : NetlinkRequest → M L NetlinkResponse
  unfolding dispatch
  process_request request = dispatch request.operation (c_str request.interface_name) request
