-- ===== src/Netlink/Vcan/Effect.antt =====
-- What `create_vcan_interface_if_not_exists` does to the kernel's table.
use hy_can.Util.Error.{is_ok}
use hy_can.Netlink.Vcan.{add_with_socket, count_socket, create_vcan_interface_if_not_exists}
use hy_can.Netlink.Libnl.{Libnl, Env}
use hy_can.Netlink.Kernel.{Kernel, new_vcan, IsLawful}
use hy_can.Base.{
  is_some, text_eq_refl, Bool-cases, true, Text, text, text_eq, ◌==◌, if◌then◌else◌, Option-cases,
  ◌≡◌, refl, inl, inr, ◌&&◌, Option, none, some, arith,
}

module _ (L : Libnl) (K : Kernel L) (h : IsLawful L K) where
  add_with_socket-effect :
      (name : Text) (s : Option L.Sock) (e : Env L) (n : Text)
      → let r = add_with_socket L name s e in
        K.find r.1.world n
        ≡ (if is_ok r.0 && text_eq n name then some new_vcan else K.find e.world n)
  unfolding add_with_socket
  add_with_socket-effect name none e n = refl
  add_with_socket-effect name (some s) e n =
      let c = L.connect s e.world in
      elim (Option-cases (L.link_alloc c.1)) [
        | inl q ↦ ground (arith, h.find-connect s e.world n)
        | inr (l, q) ↦
            let named = L.set_name l name in
            let typed = (L.set_type named (text "vcan")).1 in
            ground (
              arith,
              h.find-connect s e.world n,
              h.name-set_name l name,
              h.name-set_type named (text "vcan"),
              h.find-add s typed c.1 n,
            )
      ]

  -- The interface is there after a success: as it was, if it was there before, and otherwise as a
  -- new one that is down. A failure changes nothing, and no other interface is changed.
  pub create_vcan-effect :
      (name : Text) (e : Env L) (n : Text)
      → let r = create_vcan_interface_if_not_exists L name e in
        K.find r.1.world n ≡ (
          if is_ok r.0 && (text_eq n name && (L.name_to_index name e.world).0 == 0)
          then some new_vcan
          else K.find e.world n)
  unfolding create_vcan_interface_if_not_exists
  create_vcan-effect name e n =
      let i = L.name_to_index name e.world in
      let e' : Env L = record e { world = i.1 } in
      ground (
        arith,
        h.find-name_to_index name e.world n,
        add_with_socket-effect name (L.socket_alloc i.1) (count_socket L (L.socket_alloc i.1) e') n,
      )

  -- After a success the interface is there.
  pub create_vcan-exists :
      (name : Text) (e : Env L)
      → let r = create_vcan_interface_if_not_exists L name e in
        is_ok r.0 ≡ true → is_some (K.find r.1.world name) ≡ true
  create_vcan-exists name e done = elim (Bool-cases ((L.name_to_index name e.world).0 == 0)) [
    | inl new ↦ ground (arith, create_vcan-effect name e name, text_eq_refl name)
    | inr old ↦
        let known = h.name_to_index-pos name e.world (ground arith) in
        ground (arith, create_vcan-effect name e name, known.1)
  ]
