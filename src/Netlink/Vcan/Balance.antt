-- ===== src/Netlink/Vcan/Balance.antt =====
-- Every return of `create_vcan_interface_if_not_exists` frees its socket and its link object.
use hy_can.Base.{Text, arith}
use hy_can.Netlink.Libnl.{Libnl, Env}
use hy_can.Netlink.Balance.{Balanced}
use hy_can.Netlink.Vcan.{create_vcan_interface_if_not_exists}

pub create_vcan-Balanced :
    (L : Libnl) (name : Text) (e : Env L)
    → Balanced e (create_vcan_interface_if_not_exists L name e).1
unfolding create_vcan_interface_if_not_exists
create_vcan-Balanced L name e = record {
  links = λ a. ground arith;
  sockets = λ a. ground arith;
  caches = λ a. ground arith;
}
