-- ===== src/Netlink/LinkState/Effect.antt =====
-- What `set_interface_state_libnl` does to the kernel's table.
use hy_can.Netlink.Manager.{NetlinkManager}
use hy_can.Netlink.LinkState.{
  set_interface_state_libnl, apply_state, state_with_change, state_with_link,
}
use hy_can.Netlink.Libnl.{Libnl, Env, count_link}
use hy_can.Netlink.Kernel.{Kernel, changed, IsUpdate, status_of, IsLawful}
use hy_can.Message.{message_response}
use hy_can.Base.{
  is_some, Text, text_eq, text_eq_iff, ℤ, pos, is_negative, is_zero, if◌then◌else◌, Bool-cases,
  Option-cases, ◌≡◌, refl, sym, ◌∙◌, ◌≢◌, inl, inr, Bool, true, false, Option, none, some, arith,
}

module _ (L : Libnl) (m : NetlinkManager L) (K : Kernel L) (h : IsLawful L K) where
  apply_state-effect :
      (up : Bool) (l c : L.Link) (e : Env L) (n : Text)
      → K.wants_up c ≡ none
      → K.wants_bitrate c ≡ none
      → (apply_state L m up l c e).0.result ≡ pos 0
      → K.find (apply_state L m up l c e).1.world n ≡ (
          if text_eq n (K.link_name l)
          then changed (some up) none (K.find e.world n)
          else K.find e.world n)
  unfolding apply_state message_response
  apply_state-effect true l c e n u b done =
      let r = L.link_change m.nl_socket l (L.set_flags c 1) e.world in
      ground (
        arith,
        h.wants-set_flags c,
        h.find-change m.nl_socket l (L.set_flags c 1) e.world n,
        h.find-refill m.nl_socket m.link_cache r.1 n,
      )
  apply_state-effect false l c e n u b done =
      let r = L.link_change m.nl_socket l (L.unset_flags c 1) e.world in
      ground (
        arith,
        h.wants-unset_flags c,
        h.find-change m.nl_socket l (L.unset_flags c 1) e.world n,
        h.find-refill m.nl_socket m.link_cache r.1 n,
      )

  state_with_link-effect :
      (name : Text) (up : Bool) (link : Option L.Link) (e : Env L) (n : Text)
      → status_of K link ≡ K.find e.world name
      → ((l : L.Link) → link ≡ some l → K.link_name l ≡ name)
      → (state_with_link L m name up link e).0.result ≡ pos 0
      → (is_some (K.find e.world name) ≡ true)
        × (K.find (state_with_link L m name up link e).1.world n ≡ (
            if text_eq n name then changed (some up) none (K.find e.world n) else K.find e.world n))
  unfolding state_with_link state_with_change message_response
  state_with_link-effect name up none e n s l done = ground arith
  state_with_link-effect name up (some link) e n s l done =
      let p : K.link_name link ≡ name = l link refl in
      elim (Option-cases (L.link_alloc e.world)) [
        | inl q ↦ ground (arith, text_eq_iff n name, h.flags-up link)
        | inr (c, q) ↦
            let e' : Env L = count_link (some c) e in
            ground (
              arith,
              text_eq_iff n name,
              h.flags-up link,
              h.wants-alloc e.world c,
              apply_state-effect up link c e' n,
            )
      ]

  -- The same with the environment that `get_by_name` leaves.
  found-effect :
      (name : Text) (up : Bool) (found : Option L.Link) (e : Env L) (n : Text)
      → status_of K found ≡ K.find e.world name
      → ((l : L.Link) → found ≡ some l → K.link_name l ≡ name)
      → (state_with_link L m name up found (count_link found e)).0.result ≡ pos 0
      → (is_some (K.find e.world name) ≡ true)
        × (K.find (state_with_link L m name up found (count_link found e)).1.world n ≡ (
            if text_eq n name then changed (some up) none (K.find e.world n) else K.find e.world n))
  found-effect name up none e n s l done = state_with_link-effect name up none e n s l done
  found-effect name up (some link) e n s l done =
      state_with_link-effect name up (some link) (count_link (some link) e) n s l done

  -- The same from the refilled cache on, against the table before the refill.
  refilled-effect :
      (name : Text) (up : Bool) (e : Env L) (n : Text)
      → let r = L.cache_refill m.nl_socket m.link_cache e.world in
        let found = L.get_by_name m.link_cache name r.1 in
        let e' : Env L = count_link found (record e { world = r.1 }) in
        is_negative r.0 ≡ false
        → (state_with_link L m name up found e').0.result ≡ pos 0
        → (is_some (K.find e.world name) ≡ true)
          × (K.find (state_with_link L m name up found e').1.world n ≡ (
              if text_eq n name
              then changed (some up) none (K.find e.world n)
              else K.find e.world n))
  refilled-effect name up e n fresh done =
      rw
        (
          ← h.find-refill m.nl_socket m.link_cache e.world name,
          ← h.find-refill m.nl_socket m.link_cache e.world n,
        )
        (found-effect name up found (record e { world = r.1 }) n
          (h.refill-fresh m.nl_socket m.link_cache e.world name fresh
            ∙ sym (h.find-refill m.nl_socket m.link_cache e.world name))
          (h.get-name m.link_cache name r.1) done)
    where
      r : ℤ × L.World
      r = L.cache_refill m.nl_socket m.link_cache e.world

      found : Option L.Link
      found = L.get_by_name m.link_cache name r.1

  -- When `set_interface_state_libnl` returns 0, the interface was there, it is now in the state
  -- asked for with nothing else of it changed, and every other interface is as it was.
  pub set_interface_state_libnl-effect :
      (name : Text) (up : Bool) (e : Env L)
      → (set_interface_state_libnl L m name up e).0.result ≡ pos 0
      → (is_some (K.find e.world name) ≡ true)
        × IsUpdate name
            (some up)
            none
            (K.find e.world)
            (K.find (set_interface_state_libnl L m name up e).1.world)
  unfolding set_interface_state_libnl message_response
  set_interface_state_libnl-effect name up e done = (
    ground (arith, refilled-effect name up e name),
    λ n. ground (arith, refilled-effect name up e n),
  )

  apply_state_failed :
      (up : Bool) (l c : L.Link) (e : Env L) (n : Text)
      → (apply_state L m up l c e).0.result ≢ pos 0
      → K.find (apply_state L m up l c e).1.world n ≡ K.find e.world n
  unfolding apply_state message_response
  apply_state_failed true l c e n failed =
      ground (arith, h.find-change m.nl_socket l (L.set_flags c 1) e.world n)
  apply_state_failed false l c e n failed =
      ground (arith, h.find-change m.nl_socket l (L.unset_flags c 1) e.world n)

  found_failed :
      (name : Text) (up : Bool) (found : Option L.Link) (e : Env L) (n : Text)
      → (state_with_link L m name up found (count_link found e)).0.result ≢ pos 0
      → K.find (state_with_link L m name up found (count_link found e)).1.world n ≡ K.find e.world n
  unfolding state_with_link state_with_change message_response
  found_failed name up none e n failed = refl
  found_failed name up (some link) e n failed = elim (Option-cases (L.link_alloc e.world)) [
    | inl q ↦ ground arith
    | inr (c, q) ↦
        ground
          (arith, apply_state_failed up link c (count_link (some c) (count_link (some link) e)) n)
  ]

  -- When it returns anything else, the table is as it was.
  pub set_interface_state_libnl_failed :
      (name : Text) (up : Bool) (e : Env L)
      → (set_interface_state_libnl L m name up e).0.result ≢ pos 0
      → (n : Text) → K.find (set_interface_state_libnl L m name up e).1.world n ≡ K.find e.world n
  unfolding set_interface_state_libnl message_response
  set_interface_state_libnl_failed name up e failed n =
      let r = L.cache_refill m.nl_socket m.link_cache e.world in
      ground (
        arith,
        h.find-refill m.nl_socket m.link_cache e.world n,
        found_failed name up (L.get_by_name m.link_cache name r.1) (record e { world = r.1 }) n,
      )

  -- Whatever it returns, it changes no other interface.
  pub set_interface_state_libnl_frame :
      (name : Text) (up : Bool) (e : Env L) (n : Text)
      → n ≢ name
      → K.find (set_interface_state_libnl L m name up e).1.world n ≡ K.find e.world n
  set_interface_state_libnl_frame name up e n other =
      elim (Bool-cases (is_zero (set_interface_state_libnl L m name up e).0.result)) [
        | inl z ↦ ground (
          arith,
          text_eq_iff n name,
          (set_interface_state_libnl-effect name up e (ground arith)).1 n,
        )
        | inr z ↦ set_interface_state_libnl_failed name up e (ground arith) n
      ]
