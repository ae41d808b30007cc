-- ===== src/Netlink/LinkState/Balance.antt =====
-- Every return of `set_interface_state_libnl` gives back the link objects that it took.
use hy_can.Base.{Text, Bool, arith}
use hy_can.Netlink.Libnl.{Libnl, Env}
use hy_can.Netlink.Balance.{Balanced}
use hy_can.Netlink.Manager.{NetlinkManager}
use hy_can.Netlink.LinkState.{set_interface_state_libnl}

module _ (L : Libnl) (m : NetlinkManager L) where
  pub set_interface_state_libnl-Balanced :
      (name : Text) (up : Bool) (e : Env L) → Balanced e (set_interface_state_libnl L m name up e).1
  unfolding set_interface_state_libnl
  set_interface_state_libnl-Balanced name up e = record {
    links = λ a. ground arith;
    sockets = λ a. ground arith;
    caches = λ a. ground arith;
  }
