-- ===== src/Netlink/Requests/Effect.antt =====
-- What a request for the state of an interface does to the kernel's table.
use hy_can.Netlink.Manager.Queries.{check_interface_is_up-find}
use hy_can.Netlink.LinkState.{set_interface_state_libnl}
use hy_can.Message.{set_interface_state, NetlinkRequest, message_response}
use hy_can.Netlink.Requests.{
  state_with_bitrate, state_request_of, process_request, down_then_bitrate, dispatch,
  bitrate_then_up,
}
use hy_can.Netlink.Manager.{check_interface_is_up, NetlinkManager}
use hy_can.Netlink.LinkState.Effect.{set_interface_state_libnl-effect}
use hy_can.Netlink.Libnl.{Libnl, Env}
use hy_can.Netlink.Kernel.{IsUpdate, Kernel, changed, IsLawful}
use hy_can.Netlink.Bitrate.Effect.{set_can_bitrate_libnl-effect}
use hy_can.Netlink.Bitrate.{set_can_bitrate_libnl}
use hy_can.Base.{
  is_some, c_str, Bool, false, ◌&&◌, Text, text, starts_with, text_eq, pos, is_zero, if◌then◌else◌,
  Bool-cases, ℕ, ◌≡◌, inl, inr, true, Option, none, some, arith,
}

-- The bitrate that a request sets: `can` interfaces have one.
abbrev pub bitrate_wanted : Text → ℕ → Option ℕ
bitrate_wanted name rate = if starts_with name (text "can") then some rate else none

module _ (L : Libnl) (m : NetlinkManager L) (K : Kernel L) (h : IsLawful L K) where
  bitrate_then_up-effect :
      (name : Text) (rate : ℕ) (e : Env L) (n : Text)
      → (bitrate_then_up L m name true rate e).0.result ≡ pos 0
      → (is_some (K.find e.world name) ≡ true)
        × (K.find (bitrate_then_up L m name true rate e).1.world n ≡ (
            if text_eq n name
            then changed (some true) (bitrate_wanted name rate) (K.find e.world n)
            else K.find e.world n))
  unfolding bitrate_then_up
  bitrate_then_up-effect name rate e n done =
      let b = set_can_bitrate_libnl L m name rate e in
      elim (Bool-cases (is_zero b.0.result)) [
        | inr failed ↦ absurd (ground arith)
        | inl zero_result ↦
            let s = set_interface_state_libnl-effect L m K h name true b.1 (ground arith) in
            ground (
              arith,
              s.0,
              s.1 n,
              set_can_bitrate_libnl-effect L m K h name rate e n,
              set_can_bitrate_libnl-effect L m K h name rate e name,
            )
      ]

  down_then_bitrate-effect :
      (name : Text) (rate : ℕ) (e : Env L) (n : Text)
      → (down_then_bitrate L m name true rate e).0.result ≡ pos 0
      → (is_some (K.find e.world name) ≡ true)
        × (K.find (down_then_bitrate L m name true rate e).1.world n ≡ (
            if text_eq n name
            then changed (some true) (bitrate_wanted name rate) (K.find e.world n)
            else K.find e.world n))
  unfolding down_then_bitrate message_response
  down_then_bitrate-effect name rate e n done =
      let d = set_interface_state_libnl L m name false e in
      elim (Bool-cases (is_zero d.0.result)) [
        | inr failed ↦ absurd (ground arith)
        | inl zero_result ↦
            let s = set_interface_state_libnl-effect L m K h name false e (ground arith) in
            let b = bitrate_then_up-effect name rate d.1 n (ground arith) in
            ground (arith, s.0, s.1 n, b)
      ]

  state_with_bitrate-effect :
      (name : Text) (rate : ℕ) (e : Env L) (n : Text)
      → (state_with_bitrate L m name true rate e).0.result ≡ pos 0
      → (is_some (K.find e.world name) ≡ true)
        × (K.find (state_with_bitrate L m name true rate e).1.world n ≡ (
            if text_eq n name
            then changed (some true) (bitrate_wanted name rate) (K.find e.world n)
            else K.find e.world n))
  unfolding state_with_bitrate
  state_with_bitrate-effect name rate e n done =
      let c = check_interface_is_up L m name e in
      ground (
        arith,
        check_interface_is_up-find L m K h name e n,
        check_interface_is_up-find L m K h name e name,
        down_then_bitrate-effect name rate c.1 n,
        bitrate_then_up-effect name rate c.1 n,
      )

  pub state_request_of-effect :
      (name : Text) (up flag : Bool) (rate : ℕ) (e : Env L) (n : Text)
      → (state_request_of L m name up flag rate e).0.result ≡ pos 0
      → (is_some (K.find e.world name) ≡ true)
        × (K.find (state_request_of L m name up flag rate e).1.world n ≡ (
            if text_eq n name
            then changed
                (some up)
                (if up && flag then bitrate_wanted name rate else none)
                (K.find e.world n)
            else K.find e.world n))
  unfolding state_request_of
  state_request_of-effect name true true rate e n done =
      state_with_bitrate-effect name rate e n done
  state_request_of-effect name true false rate e n done =
      let s = set_interface_state_libnl-effect L m K h name true e done in (s.0, s.1 n)
  state_request_of-effect name false flag rate e n done =
      let s = set_interface_state_libnl-effect L m K h name false e done in (s.0, s.1 n)

  -- A request for a state that is answered by 0 has found the interface; it is now up or down as
  -- asked, with the bitrate that was asked for if it came up, its name starts with `can` and the
  -- request sets one. Nothing else of it has changed, and no other interface.
  pub process_request-effect :
      (r : NetlinkRequest) (e : Env L)
      → r.operation ≡ set_interface_state
      → (process_request L m r e).0.result ≡ pos 0
      → (is_some (K.find e.world (c_str r.interface_name)) ≡ true)
        × IsUpdate
            (c_str r.interface_name)
            (some r.up)
            (if r.up && r.set_bitrate
              then bitrate_wanted (c_str r.interface_name) r.bitrate
              else none)
            (K.find e.world)
            (K.find (process_request L m r e).1.world)
  unfolding process_request dispatch
  process_request-effect r e op done =
      let name = c_str r.interface_name in
      let q : dispatch L m set_interface_state name r e ≡ process_request L m r e = rw op in
      let part = λ (n : Text).
        state_request_of-effect name r.up r.set_bitrate r.bitrate e n (ground arith) in
      ((part name).0, λ n. ground (arith, part n))
