-- ===== src/Netlink/Requests/Contract.antt =====
-- What the daemon promises of a request, whatever it is and however it ends, as a relation between the
-- tables of interfaces before and after it.

use hy_can.Netlink.Vcan.Effect.{create_vcan-effect, create_vcan-exists}
use hy_can.Util.Error.{Expected, ok, unexpected, is_ok}
use hy_can.Netlink.Vcan.{create_vcan_interface_if_not_exists}
use hy_can.Netlink.Requests.Failure.{IsKeptOrDown, state_request_of_failed}
use hy_can.Netlink.Requests.Effect.{bitrate_wanted, state_request_of-effect}
use hy_can.Netlink.Requests.{create_request, process_request, vcan_response, dispatch}
use hy_can.Netlink.Manager.Queries.{
  is_up_in, check_interface_exists-find, check_interface_is_up-find, queries_answer,
}
use hy_can.Netlink.Manager.{NetlinkManager}
use hy_can.Netlink.Kernel.{Status, Kernel, IsUpdate, new_vcan, IsLawful}
use hy_can.Message.{
  RequestType, set_interface_state, check_interface_state, validate_can_hardware,
  create_vcan_interface, client_register, interface_exists, interface_is_up, NetlinkRequest,
  NetlinkResponse, message_response, query_response,
}
use hy_can.Netlink.Libnl.{Env, Libnl}
use hy_can.Base.{
  int_eq, int_eq_iff, Bool-cases, text_eq_iff, minus_one, false, Text, c_str, pos, if◌then◌else◌,
  is_some, ◌≡◌, refl, ◌≢◌, ◌⊎◌, inl, inr, true, ◌&&◌, Option, none, some, arith,
}

abbrev pub InterfaceTable : Type 0
InterfaceTable = Text → Option Status

abbrev pub IsSameTable : InterfaceTable → InterfaceTable → Type 0
IsSameTable before after = (n : Text) → after n ≡ before n

-- What holds if the result is 0, and what holds if it is not.
abbrev pub ByResult : NetlinkResponse → Type 0 → Type 0 → Type 0
ByResult response done failed =
    (response.result ≡ pos 0) × done ⊎ (response.result ≢ pos 0) × failed

by_result :
    {done failed : Type 0} (response : NetlinkResponse)
    → (response.result ≡ pos 0 → done)
    → (response.result ≢ pos 0 → failed)
    → ByResult response done failed
by_result response d f = elim (Bool-cases (int_eq response.result (pos 0))) [
  | inl same ↦
      let zero_result = (int_eq_iff response.result (pos 0)).0 same in
      inl (zero_result, d zero_result)
  | inr other ↦
      let not_zero : response.result ≢ pos 0 =
        λ z. ground (arith, other, (int_eq_iff response.result (pos 0)).1 z) in
      inr (not_zero, f not_zero)
]

-- By the kind of the request and the name in it.
abbrev pub Promise :
    RequestType → Text → NetlinkRequest → NetlinkResponse → InterfaceTable → InterfaceTable → Type 0
Promise interface_exists name request response before after =
    IsSameTable before after × ByResult response (response.exists ≡ is_some (before name)) Unit
Promise interface_is_up name request response before after =
    IsSameTable before after
    × ByResult response
        ((response.exists ≡ is_some (before name)) × (response.is_up ≡ is_up_in (before name))) Unit
Promise create_vcan_interface name request response before after =
    ByResult response
      ((is_some (after name) ≡ true)
        × ((n : Text) → (after n ≡ before n) ⊎ ((n ≡ name) × (after n ≡ some new_vcan))))
      (IsSameTable before after)
Promise set_interface_state name request response before after =
    ByResult response
      ((is_some (before name) ≡ true)
        × IsUpdate name (some request.up)
            (if request.up && request.set_bitrate
              then bitrate_wanted name request.bitrate
              else none)
            before after)
      ((n : Text) → IsKeptOrDown name n (before n) (after n))
Promise _ name request response before after = IsSameTable before after × (response.result ≢ pos 0)

module _ (L : Libnl) (m : NetlinkManager L) (K : Kernel L) (h : IsLawful L K) where
  created_result :
      (name : Text) (r : Expected (Unit {0}))
      → (is_ok r ≡ true) × ((vcan_response L m name r).result ≡ pos 0)
        ⊎ (is_ok r ≡ false) × ((vcan_response L m name r).result ≡ minus_one)
  unfolding vcan_response message_response
  created_result name (ok u) = inl (refl, refl)
  created_result name (unexpected e) = inr (refl, refl)

  create-Promise :
      (name : Text) (r : NetlinkRequest) (e : Env L)
      → let a = create_request L m name e in
        Promise create_vcan_interface name r a.0 (K.find e.world) (K.find a.1.world)
  unfolding create_request
  create-Promise name r e =
      let created = create_vcan_interface_if_not_exists L name e in
      let effect = create_vcan-effect L K h name e in
      elim (created_result name created.0) [
        | inl (done, zero_result) ↦ inl (
          zero_result,
          (create_vcan-exists L K h name e done, λ n. ground (arith, text_eq_iff n name, effect n)),
        )
        | inr (failed, minus_result) ↦
            inr (λ z. ground (arith, z, minus_result), λ n. ground (arith, failed, effect n))
      ]

  dispatch-Promise :
      (op : RequestType) (name : Text) (r : NetlinkRequest) (e : Env L)
      → let a = dispatch L m op name r e in
        Promise op name r a.0 (K.find e.world) (K.find a.1.world)
  unfolding dispatch query_response message_response
  dispatch-Promise interface_exists name r e = (
    check_interface_exists-find L m K h name e,
    by_result (dispatch L m interface_exists name r e).0
        (λ done. ground (arith, (queries_answer L m K h name e).0)) (λ failed. tt),
  )
  dispatch-Promise interface_is_up name r e = (
    check_interface_is_up-find L m K h name e,
    by_result (dispatch L m interface_is_up name r e).0
        (λ done. ground (arith, (queries_answer L m K h name e).1)) (λ failed. tt),
  )
  dispatch-Promise create_vcan_interface name r e = create-Promise name r e
  dispatch-Promise set_interface_state name r e =
      by_result (dispatch L m set_interface_state name r e).0
        (λ done. (
          (state_request_of-effect L m K h name r.up r.set_bitrate r.bitrate e name done).0,
          λ n. (state_request_of-effect L m K h name r.up r.set_bitrate r.bitrate e n done).1,
        ))
        (λ failed n. state_request_of_failed L m K h name r.up r.set_bitrate r.bitrate e n failed)
  dispatch-Promise check_interface_state name r e = (λ n. refl, λ z. cc)
  dispatch-Promise validate_can_hardware name r e = (λ n. refl, λ z. cc)
  dispatch-Promise client_register name r e = (λ n. refl, λ z. cc)

  -- With a libnl that does what it documents, every request keeps its promise on the kernel's table: a
  -- query changes nothing, and answers what the table says if its result is 0; a creation that is answered
  -- by 0 leaves the interface there, as it was or as a new one, and one that fails changes nothing; a state
  -- that is answered by 0 was set on an interface that was there, and on no other, and one that fails
  -- leaves at most the named interface down; any other request is answered by an error and changes nothing.
  pub process_request-Promise :
      (r : NetlinkRequest) (e : Env L)
      → let a = process_request L m r e in
        Promise r.operation (c_str r.interface_name) r a.0 (K.find e.world) (K.find a.1.world)
  unfolding process_request
  process_request-Promise r e = dispatch-Promise r.operation (c_str r.interface_name) r e
