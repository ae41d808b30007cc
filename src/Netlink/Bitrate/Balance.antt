-- ===== src/Netlink/Bitrate/Balance.antt =====
-- Every return of `set_can_bitrate_libnl` gives back the link objects that it took.
use hy_can.Base.{ℕ, Text, arith}
use hy_can.Netlink.Libnl.{Libnl, Env}
use hy_can.Netlink.Balance.{Balanced}
use hy_can.Netlink.Manager.{NetlinkManager}
use hy_can.Netlink.Bitrate.{set_can_bitrate_libnl}

module _ (L : Libnl) (m : NetlinkManager L) where
  pub set_can_bitrate_libnl-Balanced :
      (name : Text) (rate : ℕ) (e : Env L) → Balanced e (set_can_bitrate_libnl L m name rate e).1
  unfolding set_can_bitrate_libnl
  set_can_bitrate_libnl-Balanced name rate e = record {
    links = λ a. ground arith;
    sockets = λ a. ground arith;
    caches = λ a. ground arith;
  }
