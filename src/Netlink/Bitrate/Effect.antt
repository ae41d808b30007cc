-- ===== src/Netlink/Bitrate/Effect.antt =====
-- What `set_can_bitrate_libnl` does to the kernel's table.
use hy_can.Netlink.Manager.{NetlinkManager}
use hy_can.Netlink.Libnl.{Libnl, Env, count_link}
use hy_can.Netlink.Kernel.{Kernel, changed, IsLawful}
use hy_can.Netlink.Bitrate.{
  bitrate_of_can, bitrate_with_change, bitrate_with_link, set_can_bitrate_libnl,
}
use hy_can.Message.{message_response}
use hy_can.Base.{
  Text, text, starts_with, text_eq, is_zero, if◌then◌else◌, Option-cases, ℕ, ◌≡◌, refl, inl, inr,
  ◌&&◌, Option, none, some, arith,
}

module _ (L : Libnl) (m : NetlinkManager L) (K : Kernel L) (h : IsLawful L K) where
  bitrate_of_can-effect :
      (rate : ℕ) (l c : L.Link) (e : Env L) (n : Text)
      → K.wants_up c ≡ none
      → K.find (bitrate_of_can L m rate l c e).1.world n ≡ (
          if is_zero (bitrate_of_can L m rate l c e).0.result && text_eq n (K.link_name l)
          then changed none (some rate) (K.find e.world n)
          else K.find e.world n)
  unfolding bitrate_of_can message_response
  bitrate_of_can-effect rate l c e n u =
      let t = L.set_type c (text "can") in
      ground (
        arith,
        h.wants-set_type c (text "can"),
        h.wants-set_bitrate t.1 rate,
        h.find-change m.nl_socket l (L.can_set_bitrate t.1 rate) e.world n,
      )

  bitrate_with_link-effect :
      (name : Text) (rate : ℕ) (found : Option L.Link) (e : Env L) (n : Text)
      → ((l : L.Link) → found ≡ some l → K.link_name l ≡ name)
      → let r = bitrate_with_link L m name rate found (count_link found e) in
        K.find r.1.world n ≡ (
          if is_zero r.0.result && text_eq n name
          then changed none (some rate) (K.find e.world n)
          else K.find e.world n)
  unfolding bitrate_with_link bitrate_with_change message_response
  bitrate_with_link-effect name rate none e n l = refl
  bitrate_with_link-effect name rate (some link) e n l =
      let p : K.link_name link ≡ name = l link refl in
      elim (Option-cases (L.link_alloc e.world)) [
        | inl q ↦ ground arith
        | inr (c, q) ↦ ground (
          arith,
          h.wants-alloc e.world c,
          bitrate_of_can-effect rate link c (count_link (some c) (count_link (some link) e)) n,
        )
      ]

  -- `set_can_bitrate_libnl` changes the bitrate of the interface if its name starts with `can` and
  -- it returns 0. In every other case the table is as it was.
  pub set_can_bitrate_libnl-effect :
      (name : Text) (rate : ℕ) (e : Env L) (n : Text)
      → let r = set_can_bitrate_libnl L m name rate e in
        K.find r.1.world n ≡ (
          if starts_with name (text "can") && is_zero r.0.result && text_eq n name
          then changed none (some rate) (K.find e.world n)
          else K.find e.world n)
  unfolding set_can_bitrate_libnl
  set_can_bitrate_libnl-effect name rate e n = ground (
    arith,
    bitrate_with_link-effect name rate (L.get_by_name m.link_cache name e.world) e n
        (h.get-name m.link_cache name e.world),
  )
