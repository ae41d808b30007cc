-- ===== src/Netlink/Requests/Balance.antt =====
-- A request leaves no link object, socket or cache behind.
use hy_can.Base.{Text, arith, c_str}
use hy_can.Message.{NetlinkRequest}
use hy_can.Netlink.Libnl.{Libnl, Env}
use hy_can.Netlink.Balance.{Balanced, Balanced-refl, Balanced-trans}
use hy_can.Netlink.Vcan.Balance.{create_vcan-Balanced}
use hy_can.Netlink.Manager.{NetlinkManager, check_interface_exists, check_interface_is_up}
use hy_can.Netlink.LinkState.Balance.{set_interface_state_libnl-Balanced}
use hy_can.Netlink.Bitrate.Balance.{set_can_bitrate_libnl-Balanced}
use hy_can.Netlink.Requests.{process_request}
use hy_can.Netlink.Requests.Keeps.{process_request-Keeps}

module _ (L : Libnl) (m : NetlinkManager L) where
  check_interface_exists-Balanced :
      (name : Text) (e : Env L) → Balanced e (check_interface_exists L m name e).1
  unfolding check_interface_exists
  check_interface_exists-Balanced name e = record {
    links = λ a. ground arith;
    sockets = λ a. ground arith;
    caches = λ a. ground arith;
  }

  check_interface_is_up-Balanced :
      (name : Text) (e : Env L) → Balanced e (check_interface_is_up L m name e).1
  unfolding check_interface_is_up
  check_interface_is_up-Balanced name e = record {
    links = λ a. ground arith;
    sockets = λ a. ground arith;
    caches = λ a. ground arith;
  }

  -- Whatever the request, the interface and the answers of libnl: when `process_request` returns,
  -- each link object, socket and cache was given back exactly as often as it was taken.
  pub process_request-Balanced :
      (r : NetlinkRequest) (e : Env L) → Balanced e (process_request L m r e).1
  process_request-Balanced r =
      let name = c_str r.interface_name in
      process_request-Keeps L m Balanced r (record {
        preorder = record { reflexive = Balanced-refl; transitive = Balanced-trans };
        exists_keeps = check_interface_exists-Balanced name;
        is_up_keeps = check_interface_is_up-Balanced name;
        state_keeps = set_interface_state_libnl-Balanced L m name;
        bitrate_keeps = set_can_bitrate_libnl-Balanced L m name;
        create_keeps = create_vcan-Balanced L name;
      })
