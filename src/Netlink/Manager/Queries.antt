-- ===== src/Netlink/Manager/Queries.antt =====
-- The two queries of NetlinkManager answer from the kernel's table, and change nothing.
use hy_can.Netlink.Manager.{NetlinkManager, check_interface_exists, check_interface_is_up}
use hy_can.Netlink.Libnl.{Libnl, Env}
use hy_can.Netlink.Kernel.{Status, Kernel, IsLawful}
use hy_can.Message.{query_response}
use hy_can.Base.{
  is_some, Text, pos, is_negative, minus_one, if◌then◌else◌, Option-cases, ◌≡◌, inl, inr, Bool,
  false, Option, none, some, arith,
}

abbrev pub is_up_in : Option Status → Bool
is_up_in none = false
is_up_in (some s) = s.up

module _ (L : Libnl) (m : NetlinkManager L) (K : Kernel L) (h : IsLawful L K) where
  pub check_interface_exists-find :
      (name : Text) (e : Env L) (n : Text)
      → K.find (check_interface_exists L m name e).1.world n ≡ K.find e.world n
  unfolding check_interface_exists
  check_interface_exists-find name e n =
      ground (arith, h.find-refill m.nl_socket m.link_cache e.world n)

  pub check_interface_is_up-find :
      (name : Text) (e : Env L) (n : Text)
      → K.find (check_interface_is_up L m name e).1.world n ≡ K.find e.world n
  unfolding check_interface_is_up
  check_interface_is_up-find name e n =
      ground (arith, h.find-refill m.nl_socket m.link_cache e.world n)

  check_interface_exists-answer :
      (name : Text) (e : Env L)
      → (check_interface_exists L m name e).0 ≡ (
          if is_negative (L.cache_refill m.nl_socket m.link_cache e.world).0
          then query_response minus_one false false
          else query_response (pos 0) (is_some (K.find e.world name)) false)
  unfolding check_interface_exists
  check_interface_exists-answer name e =
      ground (arith, h.refill-fresh m.nl_socket m.link_cache e.world name)

  pub check_interface_is_up-answer :
      (name : Text) (e : Env L)
      → (check_interface_is_up L m name e).0 ≡ (
          if is_negative (L.cache_refill m.nl_socket m.link_cache e.world).0
          then query_response minus_one false false
          else query_response
              (pos 0)
              (is_some (K.find e.world name))
              (is_up_in (K.find e.world name)))
  unfolding check_interface_is_up
  check_interface_is_up-answer name e =
      let r = L.cache_refill m.nl_socket m.link_cache e.world in
      elim (Option-cases (L.get_by_name m.link_cache name r.1)) [
        | inl q ↦ ground (arith, h.refill-fresh m.nl_socket m.link_cache e.world name)
        | inr (l, q) ↦
            ground (arith, h.refill-fresh m.nl_socket m.link_cache e.world name, h.flags-up l)
      ]

  -- The answers of the two queries: the error response if the cache cannot be refilled, and
  -- otherwise 0 with what the kernel's table says of the interface.
  pub queries_answer :
      (name : Text) (e : Env L)
      → let stale = is_negative (L.cache_refill m.nl_socket m.link_cache e.world).0 in
        let s = K.find e.world name in
        ((check_interface_exists L m name e).0 ≡ (
          if stale
          then query_response minus_one false false
          else query_response (pos 0) (is_some s) false))
        × ((check_interface_is_up L m name e).0 ≡ (
            if stale
            then query_response minus_one false false
            else query_response (pos 0) (is_some s) (is_up_in s)))
  queries_answer name e =
      (check_interface_exists-answer name e, check_interface_is_up-answer name e)
