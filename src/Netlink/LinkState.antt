-- ===== src/Netlink/LinkState.antt =====
-- NetlinkManager::set_interface_state_libnl of src/Daemon/NetlinkManager.cpp
pub mod Balance
pub mod Effect
use hy_can.Can.Dispatcher.Concurrent.{change}
use hy_can.Base.{
  is_some, ℕ, suc, ◌+◌, ◌≡◌, Bool, true, false, not, ◌&&◌, Option, none, some, Text, text, ◌++◌, ℤ,
  pos, negsuc, ◌==◌, ◌%◌, is_negative, is_zero, minus_one, if◌then◌else◌, starts_with, c_str,
}
use hy_can.Util.Error.{Expected, ok, unexpected}
use hy_can.Message.{
  NetlinkRequest, NetlinkResponse, message_response, query_response, RequestType,
  set_interface_state, create_vcan_interface, interface_exists, interface_is_up,
}
use hy_can.Netlink.Libnl.{Libnl, Env, M, pure, ◌>>=◌, ◌>>◌, call, take_link, link_put, iff_up}
use hy_can.Netlink.Vcan.{socket_alloc, socket_free, create_vcan_interface_if_not_exists}
use hy_can.Netlink.Manager.{
  NetlinkManager, bool_eq, link_is_up, up_if_any, refill, get_by_name, check_interface_exists,
  check_interface_is_up,
}

module _ (L : Libnl) (m : NetlinkManager L) where
  -- From the call of `rtnl_link_change` on.
  apply_state : Bool → L.Link → L.Link → M L NetlinkResponse
  apply_state up link change = do
    let flagged = if up then L.set_flags change iff_up else L.unset_flags change iff_up
    result ← call (L.link_change m.nl_socket link flagged)
    link_put change
    link_put link
    if is_negative result
        then pure (message_response result (text "rtnl_link_change failed: " ++ L.geterror result))
        else (do _ ← refill L m; pure (message_response (pos 0) (text "Success")))

  state_with_change : Bool → L.Link → Option L.Link → M L NetlinkResponse
  unfolding apply_state
  state_with_change up link none = do
    link_put link
    pure (message_response minus_one (text "Failed to allocate change link object"))
  state_with_change up link (some change) = apply_state up link change

  state_with_link : Text → Bool → Option L.Link → M L NetlinkResponse
  unfolding state_with_change
  state_with_link interface_name up none =
      pure (message_response minus_one (text "Interface " ++ (interface_name ++ text " not found")))
  state_with_link interface_name up (some link) =
      if bool_eq (link_is_up L link) up
      then (do
        link_put link
        pure (
            message_response (pos 0) (
              text "Interface "
              ++ (interface_name
                  ++ (text " is already " ++ (if up then text "up" else text "down"))))))
      else (do change ← take_link L.link_alloc; state_with_change up link change)

  unfoldable pub set_interface_state_libnl : Text → Bool → M L NetlinkResponse
  unfolding state_with_link
  set_interface_state_libnl interface_name up = do
    refilled ← refill L m
    if is_negative refilled
        then pure (message_response minus_one (text "Failed to refresh link cache"))
        else (do link ← get_by_name L m interface_name; state_with_link interface_name up link)
