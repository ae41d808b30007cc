-- ===== src/Client/EndToEnd.antt =====
-- An operation of the client against the daemon: the request of src/Interface/NetlinkClient.cpp, its
-- bytes, process_request of src/Daemon/NetlinkManager.cpp, and the response on its way back.
use hy_can.Util.Error.{ok, is_ok}
use hy_can.Netlink.Requests.Effect.{process_request-effect}
use hy_can.Netlink.Requests.{process_request}
use hy_can.Netlink.Manager.Queries.{is_up_in, queries_answer}
use hy_can.Netlink.Manager.{NetlinkManager, check_interface_exists, check_interface_is_up}
use hy_can.Netlink.Libnl.{Libnl, LibnlEnv}
use hy_can.Netlink.Kernel.{Kernel, IsUpdate, IsLawful}
use hy_can.Message.Wire.{c_str_of_NulFree}
use hy_can.Message.RoundTrip.{interface_name_lem}
use hy_can.Message.{
  RequestType, interface_exists, interface_is_up, NetlinkRequest, state_request, query_request,
  NetlinkResponse, query_response,
}
use hy_can.Daemon.Worker.{Layout}
use hy_can.Client.Shell.Fallback.{client_set_state_lem, client_queries_lem}
use hy_can.Client.Shell.{client_set_state, client_exists, client_is_up}
use hy_can.Client.{NetlinkClient, ClientLayout, send_request}
use hy_can.Base.{
  is_some, Text, text, NulFree, c_str, starts_with, ℤ, pos, is_negative, length, take, take-all,
  if◌then◌else◌, ℕ, ◌≤◌, ◌≡◌, refl, ap, ◌∙◌, Bool, true, false, ◌&&◌, none, some, arith,
}
use hy_can.UnixSocket.Syscalls.{Env, Posix}

-- A name of an interface: no NUL and at most fifteen bytes.
abbrev pub IsShortName : Text → Type 0
IsShortName name = NulFree name × (length name ≤ 15)

-- The request that `set_interface_state` makes.
abbrev pub request_for : Text → Bool → ℕ → NetlinkRequest
request_for name up bitrate = state_request name up (starts_with name (text "can") && up) bitrate

-- The structures arrive as they were sent.
pub record IsFaithful (ours : ClientLayout) (theirs : Layout) : Type 0 where
  pub requests : (r : NetlinkRequest) → theirs.decode_request (ours.encode_request r) ≡ r
  pub responses : (r : NetlinkResponse) → ours.decode_response (theirs.encode_response r) ≡ r

interface_name_whole :
    (name : Text) (up : Bool) (bitrate : ℕ) (op : RequestType)
    → IsShortName name
    → (c_str (request_for name up bitrate).interface_name ≡ name)
      × (c_str (query_request op name).interface_name ≡ name)
interface_name_whole name up bitrate op short =
    let whole : take 15 (c_str name) ≡ name =
      ap (take 15) (c_str_of_NulFree name short.0) ∙ take-all 15 name short.1 in
    let i = interface_name_lem name up (starts_with name (text "can") && up) bitrate op in
    (i.2 ∙ whole, i.3 ∙ whole)

module _ (P : Posix) (ours : ClientLayout) (theirs : Layout) (pid : ℤ) (L : Libnl)
    (manager : NetlinkManager L) (K : Kernel L) (law : IsLawful L K) where
  -- What the daemon sends back for a request, after both went over the channel.
  abbrev pub daemon_answer : NetlinkRequest → LibnlEnv L → NetlinkResponse
  daemon_answer request n =
      let received = theirs.decode_request (ours.encode_request request) in
      ours.decode_response (theirs.encode_response (process_request L manager received n).0)

  answer_is :
      (request : NetlinkRequest) (n : LibnlEnv L)
      → IsFaithful ours theirs
      → daemon_answer request n ≡ (process_request L manager request n).0
  answer_is request n faithful =
      faithful.responses _ ∙ ap (λ r. (process_request L manager r n).0) (faithful.requests request)

  queries_of :
      (name : Text) (n : LibnlEnv L)
      → IsShortName name
      → ((process_request L manager (query_request interface_exists name) n).0
          ≡ (check_interface_exists L manager name n).0)
        × ((process_request L manager (query_request interface_is_up name) n).0
            ≡ (check_interface_is_up L manager name n).0)
  unfolding process_request query_request
  queries_of name n short =
      let whole = (interface_name_whole name false 0 interface_exists short).1 in
      (
        ap (λ s. (check_interface_exists L manager s n).0) whole,
        ap (λ s. (check_interface_is_up L manager s n).0) whole,
      )

  answers_are :
      (name : Text) (n : LibnlEnv L)
      → IsShortName name
      → IsFaithful ours theirs
      → is_negative (L.cache_refill manager.nl_socket manager.link_cache n.world).0 ≡ false
      → (daemon_answer (query_request interface_exists name) n
          ≡ query_response (pos 0) (is_some (K.find n.world name)) false)
        × (daemon_answer (query_request interface_is_up name) n
            ≡ query_response
                (pos 0)
                (is_some (K.find n.world name))
                (is_up_in (K.find n.world name)))
  answers_are name n short faithful fresh =
      let a = queries_answer L manager K law name n in
      let q = queries_of name n short in
      (
        answer_is (query_request interface_exists name) n faithful ∙ q.0 ∙ a.0 ∙ rw fresh refl,
        answer_is (query_request interface_is_up name) n faithful ∙ q.1 ∙ a.1 ∙ rw fresh refl,
      )

  -- When the daemon's answers arrive and its cache can be refilled, the client's two queries give
  -- what the kernel's table says of the interface.
  pub queries_end_to_end :
      (name : Text) (this : NetlinkClient) (e : Env P) (n : LibnlEnv L)
      → IsShortName name
      → IsFaithful ours theirs
      → is_negative (L.cache_refill manager.nl_socket manager.link_cache n.world).0 ≡ false
      → (send_request P ours pid (query_request interface_exists name) this e).0.0
        ≡ ok (daemon_answer (query_request interface_exists name) n)
      → (send_request P ours pid (query_request interface_is_up name) this e).0.0
        ≡ ok (daemon_answer (query_request interface_is_up name) n)
      → ((client_exists P ours pid name this e).0.0 ≡ ok (is_some (K.find n.world name)))
        × ((client_is_up P ours pid name this e).0.0 ≡ ok (is_up_in (K.find n.world name)))
  unfolding query_response
  queries_end_to_end name this e n short faithful fresh exists_sent up_sent =
      let a = answers_are name n short faithful fresh in
      let s = K.find n.world name in
      (
        (client_queries_lem P ours pid (pos 0) name this e (is_some s)).0.1
            (rw (exists_sent, a.0) (refl, refl)),
        (client_queries_lem P ours pid (pos 0) name this e (is_up_in s)).1.1
            (rw (up_sent, a.1) (refl, refl)),
      )

  module _ {W : Type 0} (system : Text → W → ℤ × W) where
    -- When the daemon's answer arrives and the client's operation succeeds, the daemon has found the
    -- interface and put it into the state asked for, with the bitrate if it is a CAN interface that
    -- came up, and no other interface has changed.
    pub set_state_end_to_end :
        (name : Text) (up : Bool) (bitrate : ℕ) (this : NetlinkClient) (e : Env P) (w : W)
        (n : LibnlEnv L)
        → IsShortName name
        → IsFaithful ours theirs
        → (send_request P ours pid (request_for name up bitrate) this e).0.0
          ≡ ok (daemon_answer (request_for name up bitrate) n)
        → is_ok (client_set_state P ours pid system name up bitrate this e w).0.0 ≡ true
        → (is_some (K.find n.world name) ≡ true)
          × IsUpdate name
              (some up)
              (if up && starts_with name (text "can") then some bitrate else none)
              (K.find n.world)
              (K.find (process_request L manager (request_for name up bitrate) n).1.world)
    unfolding state_request
    set_state_end_to_end name up bitrate this e w n short faithful sent done =
        let request = request_for name up bitrate in
        let answered : (process_request L manager request n).0.result ≡ pos 0 = ground (
          arith,
          client_set_state_lem system (pos 0) P ours pid name up bitrate this e w,
          answer_is request n faithful,
          sent,
          done,
        ) in
        let f = process_request-effect L manager K law request n refl answered in
        let whole = (interface_name_whole name up bitrate interface_exists short).0 in
        (ground (arith, whole, f.0), λ k. ground (arith, whole, f.1 k))
