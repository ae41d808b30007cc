-- ===== src/Netlink/Requests/Keeps.antt =====
-- A preorder that the five operations keep is kept by `process_request`.
use hy_can.Base.{Bool-cases, inl, inr, true, if◌then◌else◌, ℕ, Text, Bool, false, is_zero, c_str}
use hy_can.Message.{
  NetlinkRequest, RequestType, set_interface_state, create_vcan_interface, interface_exists,
  interface_is_up,
}
use hy_can.Netlink.Libnl.{Libnl, Env}
use hy_can.Netlink.Rules.{Keeps, IsPreorder}
use hy_can.Netlink.Vcan.{create_vcan_interface_if_not_exists}
use hy_can.Netlink.Manager.{NetlinkManager, check_interface_exists, check_interface_is_up}
use hy_can.Netlink.LinkState.{set_interface_state_libnl}
use hy_can.Netlink.Bitrate.{set_can_bitrate_libnl}
use hy_can.Netlink.Requests.{
  bitrate_then_up, down_then_bitrate, state_with_bitrate, state_request_of, create_request,
  dispatch, process_request,
}

-- What the rule asks of the five operations on the interface.
pub record PartsKeep (L : Libnl) (m : NetlinkManager L) (R : Env L → Env L → Type 0) (name : Text)
    : Type 0 where
  pub preorder : IsPreorder R
  pub exists_keeps : Keeps R (check_interface_exists L m name)
  pub is_up_keeps : Keeps R (check_interface_is_up L m name)
  pub state_keeps : (up : Bool) → Keeps R (set_interface_state_libnl L m name up)
  pub bitrate_keeps : (rate : ℕ) → Keeps R (set_can_bitrate_libnl L m name rate)
  pub create_keeps : Keeps R (create_vcan_interface_if_not_exists L name)

module _ (L : Libnl) (m : NetlinkManager L) (R : Env L → Env L → Type 0) (name : Text)
    (p : PartsKeep L m R name) where
  bitrate_then_up-Keeps : (up : Bool) (rate : ℕ) → Keeps R (bitrate_then_up L m name up rate)
  unfolding bitrate_then_up
  bitrate_then_up-Keeps up rate e =
      let r = set_can_bitrate_libnl L m name rate e in
      elim (Bool-cases (is_zero r.0.result)) [
        | inl done ↦ rw done (p.preorder.transitive (p.bitrate_keeps rate e) (p.state_keeps up r.1))
        | inr failed ↦ rw failed (p.bitrate_keeps rate e)
      ]

  down_then_bitrate-Keeps : (up : Bool) (rate : ℕ) → Keeps R (down_then_bitrate L m name up rate)
  unfolding down_then_bitrate
  down_then_bitrate-Keeps up rate e =
      let r = set_interface_state_libnl L m name false e in
      elim (Bool-cases (is_zero r.0.result)) [
        | inl done ↦
            rw done
              (p.preorder.transitive (p.state_keeps false e) (bitrate_then_up-Keeps up rate r.1))
        | inr failed ↦ rw failed (p.state_keeps false e)
      ]

  bitrate_after_check-Keeps :
      (b : Bool) (up : Bool) (rate : ℕ)
      → Keeps R (if b then down_then_bitrate L m name up rate else bitrate_then_up L m name up rate)
  bitrate_after_check-Keeps true up rate = down_then_bitrate-Keeps up rate
  bitrate_after_check-Keeps false up rate = bitrate_then_up-Keeps up rate

  state_with_bitrate-Keeps : (up : Bool) (rate : ℕ) → Keeps R (state_with_bitrate L m name up rate)
  unfolding state_with_bitrate
  state_with_bitrate-Keeps up rate e =
      let r = check_interface_is_up L m name e in
      elim (Bool-cases (is_zero r.0.result)) [
        | inl done ↦ rw done (
            p.preorder.transitive (p.is_up_keeps e)
              (bitrate_after_check-Keeps r.0.is_up up rate r.1))
        | inr failed ↦ rw failed (p.is_up_keeps e)
      ]

  state_request_of-Keeps :
      (up flag : Bool) (rate : ℕ) → Keeps R (state_request_of L m name up flag rate)
  unfolding state_request_of
  state_request_of-Keeps true true rate = state_with_bitrate-Keeps true rate
  state_request_of-Keeps true false rate = p.state_keeps true
  state_request_of-Keeps false flag rate = p.state_keeps false

  dispatch-Keeps : (op : RequestType) (r : NetlinkRequest) → Keeps R (dispatch L m op name r)
  unfolding dispatch create_request
  dispatch-Keeps interface_exists r = p.exists_keeps
  dispatch-Keeps interface_is_up r = p.is_up_keeps
  dispatch-Keeps create_vcan_interface r = p.create_keeps
  dispatch-Keeps set_interface_state r = state_request_of-Keeps r.up r.set_bitrate r.bitrate
  dispatch-Keeps _ r = p.preorder.reflexive

pub process_request-Keeps :
    (L : Libnl) (m : NetlinkManager L) (R : Env L → Env L → Type 0) (r : NetlinkRequest)
    → PartsKeep L m R (c_str r.interface_name)
    → Keeps R (process_request L m r)
unfolding process_request
process_request-Keeps L m R r p = dispatch-Keeps L m R (c_str r.interface_name) p r.operation r
