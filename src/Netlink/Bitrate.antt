-- ===== src/Netlink/Bitrate.antt =====
-- NetlinkManager::set_can_bitrate_libnl of src/Daemon/NetlinkManager.cpp
pub mod Balance
pub mod Effect
use hy_can.Can.Dispatcher.Concurrent.{change}
use hy_can.Base.{
  is_some, ℕ, suc, ◌+◌, ◌≡◌, Bool, true, false, not, ◌&&◌, Option, none, some, Text, text, ◌++◌, ℤ,
  pos, negsuc, ◌==◌, ◌%◌, is_negative, is_zero, minus_one, if◌then◌else◌, starts_with, c_str,
}
use hy_can.Util.Error.{Expected, ok, unexpected}
use hy_can.Message.{
  NetlinkRequest, NetlinkResponse, message_response, query_response, RequestType,
  set_interface_state, create_vcan_interface, interface_exists, interface_is_up,
}
use hy_can.Netlink.Libnl.{Libnl, Env, M, pure, ◌>>=◌, ◌>>◌, call, take_link, link_put, iff_up}
use hy_can.Netlink.Vcan.{socket_alloc, socket_free, create_vcan_interface_if_not_exists}
use hy_can.Netlink.Manager.{
  NetlinkManager, bool_eq, link_is_up, up_if_any, refill, get_by_name, check_interface_exists,
  check_interface_is_up,
}

module _ (L : Libnl) (m : NetlinkManager L) where
  -- The part for a link of type CAN.
  bitrate_of_can : ℕ → L.Link → L.Link → M L NetlinkResponse
  bitrate_of_can bitrate link change = do
    let typed = L.set_type change (text "can")
    if is_negative typed.0
        then (do
          link_put change
          link_put link
          pure (message_response minus_one (text "Failed to set link type to 'can'")))
        else (do
          result ← call (L.link_change m.nl_socket link (L.can_set_bitrate typed.1 bitrate))
          link_put change
          link_put link
          if is_negative result
              then pure (
                  message_response result (text "Failed to set CAN bitrate: " ++ L.geterror result))
              else pure (message_response (pos 0) (text "CAN bitrate set successfully")))

  bitrate_with_change : ℕ → L.Link → Option L.Link → M L NetlinkResponse
  unfolding bitrate_of_can
  bitrate_with_change bitrate link none = do
    link_put link
    pure (message_response minus_one (text "Failed to allocate change link object for CAN"))
  bitrate_with_change bitrate link (some change) =
      if L.is_can link then bitrate_of_can bitrate link change else (do
        link_put change
        link_put link
        pure (message_response minus_one (text "Interface is not a CAN interface")))

  bitrate_with_link : Text → ℕ → Option L.Link → M L NetlinkResponse
  unfolding bitrate_with_change
  bitrate_with_link interface_name bitrate none =
      pure (
        message_response minus_one (text "CAN Interface " ++ (interface_name ++ text " not found")))
  bitrate_with_link interface_name bitrate (some link) = do
    change ← take_link L.link_alloc
    bitrate_with_change bitrate link change

  unfoldable pub set_can_bitrate_libnl : Text → ℕ → M L NetlinkResponse
  unfolding bitrate_with_link
  set_can_bitrate_libnl interface_name bitrate =
      if not (starts_with interface_name (text "can"))
      then pure (message_response (pos 0) (text "Not a CAN interface, skipping bitrate setting"))
      else (do link ← get_by_name L m interface_name; bitrate_with_link interface_name bitrate link)
