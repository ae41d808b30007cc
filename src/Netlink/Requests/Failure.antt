-- ===== src/Netlink/Requests/Failure.antt =====
-- What a request leaves behind when it fails, and what no request touches.
use hy_can.Netlink.Vcan.Effect.{create_vcan-effect}
use hy_can.Netlink.Requests.Keeps.{process_request-Keeps}
use hy_can.Netlink.LinkState.{set_interface_state_libnl}
use hy_can.Message.{set_interface_state, NetlinkRequest, query_response, message_response}
use hy_can.Netlink.Requests.{
  state_request_of, process_request, dispatch, state_with_bitrate, down_then_bitrate,
  bitrate_then_up,
}
use hy_can.Netlink.Manager.Queries.{
  check_interface_exists-find, check_interface_is_up-find, check_interface_is_up-answer, is_up_in,
}
use hy_can.Netlink.Manager.{check_interface_is_up, NetlinkManager}
use hy_can.Netlink.LinkState.Effect.{
  set_interface_state_libnl_frame, set_interface_state_libnl-effect,
  set_interface_state_libnl_failed,
}
use hy_can.Netlink.Libnl.{Libnl, Env}
use hy_can.Netlink.Kernel.{Status, Kernel, IsLawful}
use hy_can.Netlink.Bitrate.Effect.{set_can_bitrate_libnl-effect}
use hy_can.Netlink.Bitrate.{set_can_bitrate_libnl}
use hy_can.Base.{
  c_str, refl, ◌∙◌, Bool, text_eq_refl, Text, text_eq_iff, pos, is_zero, Bool-cases, ℕ, ◌≡◌, ◌≢◌,
  ◌⊎◌, inl, inr, true, false, Option, arith,
}

-- An interface is as it was, or it is the one named and it is down.
abbrev pub IsKeptOrDown : Text → Text → Option Status → Option Status → Type 0
IsKeptOrDown name n before after = (after ≡ before) ⊎ ((n ≡ name) × (is_up_in after ≡ false))

module _ (L : Libnl) (m : NetlinkManager L) (K : Kernel L) (h : IsLawful L K) where
  bitrate_then_up_failed :
      (name : Text) (rate : ℕ) (e : Env L) (n : Text)
      → is_up_in (K.find e.world name) ≡ false
      → (bitrate_then_up L m name true rate e).0.result ≢ pos 0
      → IsKeptOrDown name n
          (K.find e.world n)
          (K.find (bitrate_then_up L m name true rate e).1.world n)
  unfolding bitrate_then_up
  bitrate_then_up_failed name rate e n down failed =
      let b = set_can_bitrate_libnl L m name rate e in
      elim (Bool-cases (is_zero b.0.result)) [
        | inr unset ↦ inl (ground (arith, set_can_bitrate_libnl-effect L m K h name rate e n))
        | inl zero_result ↦ ground (
          arith,
          text_eq_iff n name,
          set_can_bitrate_libnl-effect L m K h name rate e n,
          set_interface_state_libnl_failed L m K h name true b.1 (λ z. failed (ground arith)) n,
        )
      ]

  down_then_bitrate_failed :
      (name : Text) (rate : ℕ) (e : Env L) (n : Text)
      → (down_then_bitrate L m name true rate e).0.result ≢ pos 0
      → IsKeptOrDown name n
          (K.find e.world n)
          (K.find (down_then_bitrate L m name true rate e).1.world n)
  unfolding down_then_bitrate message_response
  down_then_bitrate_failed name rate e n failed =
      let d = set_interface_state_libnl L m name false e in
      elim (Bool-cases (is_zero d.0.result)) [
        | inr still_up ↦
            inl (
              ground
                (arith, set_interface_state_libnl_failed L m K h name false e (ground arith) n))
        | inl zero_result ↦
            let s = set_interface_state_libnl-effect L m K h name false e (ground arith) in
            ground (
              arith,
              text_eq_iff n name,
              text_eq_refl name,
              s.1 n,
              s.1 name,
              bitrate_then_up_failed name rate d.1 n,
            )
      ]

  state_with_bitrate_failed :
      (name : Text) (rate : ℕ) (e : Env L) (n : Text)
      → (state_with_bitrate L m name true rate e).0.result ≢ pos 0
      → IsKeptOrDown name n
          (K.find e.world n)
          (K.find (state_with_bitrate L m name true rate e).1.world n)
  unfolding state_with_bitrate query_response
  state_with_bitrate_failed name rate e n failed =
      let c = check_interface_is_up L m name e in
      ground (
        arith,
        check_interface_is_up-find L m K h name e n,
        check_interface_is_up-find L m K h name e name,
        check_interface_is_up-answer L m K h name e,
        down_then_bitrate_failed name rate c.1 n,
        bitrate_then_up_failed name rate c.1 n,
      )

  pub state_request_of_failed :
      (name : Text) (up flag : Bool) (rate : ℕ) (e : Env L) (n : Text)
      → (state_request_of L m name up flag rate e).0.result ≢ pos 0
      → IsKeptOrDown name n
          (K.find e.world n)
          (K.find (state_request_of L m name up flag rate e).1.world n)
  unfolding state_request_of
  state_request_of_failed name true true rate e n failed =
      state_with_bitrate_failed name rate e n failed
  state_request_of_failed name true false rate e n failed =
      inl (set_interface_state_libnl_failed L m K h name true e failed n)
  state_request_of_failed name false flag rate e n failed =
      inl (set_interface_state_libnl_failed L m K h name false e failed n)

  -- A request for a state that is not answered by 0 leaves every interface as it was, except that
  -- the interface it names may have been left down.
  pub process_request_failed :
      (r : NetlinkRequest) (e : Env L) (n : Text)
      → r.operation ≡ set_interface_state
      → (process_request L m r e).0.result ≢ pos 0
      → IsKeptOrDown
          (c_str r.interface_name)
          n
          (K.find e.world n)
          (K.find (process_request L m r e).1.world n)
  unfolding process_request dispatch
  process_request_failed r e n op failed =
      let name = c_str r.interface_name in
      let q : dispatch L m set_interface_state name r e ≡ process_request L m r e = rw op in
      let part =
        state_request_of_failed name r.up r.set_bitrate r.bitrate e n
          (λ z. failed (ground arith)) in
      ground (arith, part)

  -- No request, whatever it asks and however it ends, changes an interface that it does not name.
  pub process_request_frame :
      (r : NetlinkRequest) (e : Env L) (n : Text)
      → n ≢ c_str r.interface_name
      → K.find (process_request L m r e).1.world n ≡ K.find e.world n
  process_request_frame r e n other =
      process_request-Keeps L m (λ a b. K.find b.world n ≡ K.find a.world n) r
        (record {
          preorder = record { reflexive = λ a. refl; transitive = λ p q. q ∙ p };
          exists_keeps = λ a. check_interface_exists-find L m K h name a n;
          is_up_keeps = λ a. check_interface_is_up-find L m K h name a n;
          state_keeps = λ up a. set_interface_state_libnl_frame L m K h name up a n other;
          bitrate_keeps = λ rate a.
              ground
                (arith, text_eq_iff n name, set_can_bitrate_libnl-effect L m K h name rate a n);
          create_keeps = λ a. ground (arith, text_eq_iff n name, create_vcan-effect L K h name a n);
        })
        e
    where
      name : Text
      name = c_str r.interface_name
