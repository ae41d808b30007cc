-- ===== src/Client.antt =====
-- src/Interface/NetlinkClient.cpp: the client's side of the daemon's channels. The calls of UnixSocket
-- run on `Posix`; `std::system` runs on a shell of its own. Each socket lives in a `unique_ptr` and is
-- closed where its scope ends. That an allocation throws is not modelled.
pub mod Shell
pub mod Requests
pub mod EndToEnd
pub mod Expired
use hy_can.Util.Error.{netlink_bring_up_error, error, Expected, ok, unexpected}
use hy_can.Message.{ClientRegisterRequest, ClientRegisterResponse, NetlinkRequest, NetlinkResponse}
use hy_can.UnixSocket.{send, initialize, client, UnixSocket, unix_socket, close, recv}
use hy_can.UnixSocket.Syscalls.{M, pure, ◌>>=◌, ◌>>◌, Posix}
use hy_can.Base.{
  Text, text, c_str, ℤ, pos, is_negative, is_zero, int_eq, if◌then◌else◌, ℕ, Bool, true, false, [],
}

pub record NetlinkClient : Type 0 where
  pub client_channel_name : Text
  pub registered : Bool

abbrev pub new_client : NetlinkClient
new_client = record { client_channel_name = []; registered = false }

-- `sizeof` and the bytes of the structures that are exchanged.
pub record ClientLayout : Type 0 where
  pub register_response_size : ℕ
  pub response_size : ℕ
  pub encode_register_request : ClientRegisterRequest → Text
  pub encode_request : NetlinkRequest → Text
  pub decode_register_response : Text → ClientRegisterResponse
  pub decode_response : Text → NetlinkResponse

bring_up_error : {A : Type 0} → Text → Expected A
bring_up_error message = unexpected (error netlink_bring_up_error message)

unfoldable pub registered_with :
    ClientRegisterResponse → NetlinkClient → Expected (Unit {0}) × NetlinkClient
unfolding bring_up_error
registered_with response this =
    if is_zero response.result
    then (
      ok tt,
      record { client_channel_name = c_str response.client_channel_name; registered = true },
    )
    else (bring_up_error (text "Daemon failed to register client"), this)

module _ (P : Posix) (layout : ClientLayout) where
  -- The end of a scope with a socket: it is closed, and the result goes on.
  leave : {A : Type 0} → UnixSocket → A → M P A
  leave socket result = do _ ← close P socket; pure result

  receive_registration : UnixSocket → NetlinkClient → M P (Expected (Unit {0}) × NetlinkClient)
  unfolding leave bring_up_error registered_with
  receive_registration socket this = do
    received ← recv P socket layout.register_response_size 5000
    leave socket (
        if int_eq received.0 (pos layout.register_response_size)
        then registered_with (layout.decode_register_response received.1) this
        else (bring_up_error (text "Failed to receive registration response from daemon"), this))

  register_through : ℤ → UnixSocket → NetlinkClient → M P (Expected (Unit {0}) × NetlinkClient)
  unfolding leave bring_up_error receive_registration
  register_through pid socket this = do
    sent ← send P socket (layout.encode_register_request (record { client_pid = pid }))
    if is_negative sent
        then leave socket
            (bring_up_error (text "Failed to send registration request to daemon"), this)
        else receive_registration socket this

  unfoldable pub ensure_registered : ℤ → NetlinkClient → M P (Expected (Unit {0}) × NetlinkClient)
  unfolding leave bring_up_error register_through
  ensure_registered pid this = if this.registered then pure (ok tt, this) else (do
    r ← initialize P (unix_socket (text "daemon") client)
    if r.0
        then register_through pid r.1 this
        else leave r.1 (bring_up_error (text "Failed to connect to daemon for registration"), this))

  receive_response : UnixSocket → M P (Expected NetlinkResponse)
  unfolding leave bring_up_error
  receive_response socket = do
    received ← recv P socket layout.response_size 5000
    leave socket (
        if int_eq received.0 (pos layout.response_size)
        then ok (layout.decode_response received.1)
        else bring_up_error (text "Failed to receive response from daemon"))

  ask : UnixSocket → NetlinkRequest → M P (Expected NetlinkResponse)
  unfolding leave bring_up_error receive_response
  ask socket request = do
    sent ← send P socket (layout.encode_request request)
    if is_negative sent
        then leave socket (bring_up_error (text "Failed to send request to daemon"))
        else receive_response socket

  pub request_on : Text → NetlinkRequest → M P (Expected NetlinkResponse)
  unfolding leave bring_up_error ask
  request_on channel request = do
    r ← initialize P (unix_socket channel client)
    if r.0
        then ask r.1 request
        else leave r.1 (bring_up_error (text "Failed to connect to daemon client channel"))

  -- After the registration.
  request_if_registered :
      NetlinkRequest
      → Expected (Unit {0}) × NetlinkClient
      → M P (Expected NetlinkResponse × NetlinkClient)
  unfolding request_on
  request_if_registered request (unexpected e, this) = pure (unexpected e, this)
  request_if_registered request (ok _, this) = do
    response ← request_on this.client_channel_name request
    pure (response, this)

  unfoldable pub send_request :
      ℤ → NetlinkRequest → NetlinkClient → M P (Expected NetlinkResponse × NetlinkClient)
  unfolding request_if_registered
  send_request pid request this = do
    registration ← ensure_registered pid this
    request_if_registered request registration
