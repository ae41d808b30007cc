-- ===== src/Client/Requests.antt =====
-- What the client's registration and requests do on every path.
use hy_can.Util.Error.{Expected, is_ok}
use hy_can.Message.{ClientRegisterResponse, NetlinkRequest}
use hy_can.Client.{
  NetlinkClient, ClientLayout, registered_with, ensure_registered, send_request, bring_up_error,
  leave, receive_registration, register_through, receive_response, ask, request_on,
  request_if_registered,
}
use hy_can.UnixSocket.Ownership.{
  owned, Accounts, unix_socket-IsClosed, close-IsClosed, initialize_lem, recv-Accounts,
  send-Accounts,
}
use hy_can.UnixSocket.{send, initialize, client, UnixSocket, unix_socket, recv}
use hy_can.UnixSocket.Syscalls.{Env, Posix}
use hy_can.Base.{Text, text, ℤ, ◌≡◌, refl, ◌⊎◌, true, false, arith}

-- How a registration ends: the client is registered, or the call failed and left it as it was.
abbrev pub IsRegistration : NetlinkClient → Expected (Unit {0}) × NetlinkClient → Type 0
IsRegistration this r =
    ((is_ok r.0 ≡ true) × (r.1.registered ≡ true)) ⊎ ((is_ok r.0 ≡ false) × (r.1 ≡ this))

module _ (P : Posix) (layout : ClientLayout) where
  -- A registered client stays as it is through every request and uses the channel it was given,
  -- whether or not the daemon still serves that channel.
  pub registered_for_good :
      (pid : ℤ) (request : NetlinkRequest) (this : NetlinkClient) (e : Env P)
      → this.registered ≡ true
      → let r = send_request P layout pid request this e in
        let direct = request_on P layout this.client_channel_name request e in
        (r.0.1 ≡ this) × (r.0.0 ≡ direct.0) × (r.1 ≡ direct.1)
  unfolding send_request request_if_registered ensure_registered
  registered_for_good pid request this e h = rw h (refl, refl, refl)

module _ (d : ℤ) (P : Posix) (layout : ClientLayout) where
  leave-Accounts :
      {A : Type 0} (socket : UnixSocket) (result : A) (e : Env P)
      → let r = leave P layout socket result e in
        (r.0 ≡ result) × Accounts d e (owned d socket) r.1 0
  unfolding leave
  leave-Accounts socket result e = (refl, (close-IsClosed d P socket e).1)

  registered_with_lem :
      (response : ClientRegisterResponse) (this : NetlinkClient)
      → IsRegistration this (registered_with response this)
  unfolding registered_with bring_up_error
  registered_with_lem response this = ground arith

  receive_registration_lem :
      (socket : UnixSocket) (this : NetlinkClient) (e : Env P)
      → let r = receive_registration P layout socket this e in
        IsRegistration this r.0 × Accounts d e (owned d socket) r.1 0
  unfolding receive_registration bring_up_error leave
  receive_registration_lem socket this e =
      let v = recv P socket layout.register_response_size 5000 e in
      ground (
        arith,
        recv-Accounts d P socket layout.register_response_size 5000 e,
        registered_with_lem (layout.decode_register_response v.0.1) this,
        close-IsClosed d P socket v.1,
      )

  register_through_lem :
      (pid : ℤ) (socket : UnixSocket) (this : NetlinkClient) (e : Env P)
      → let r = register_through P layout pid socket this e in
        IsRegistration this r.0 × Accounts d e (owned d socket) r.1 0
  unfolding register_through bring_up_error leave
  register_through_lem pid socket this e =
      let bytes = layout.encode_register_request (record { client_pid = pid }) in
      let s = send P socket bytes e in
      ground (
        arith,
        send-Accounts d P socket bytes e,
        receive_registration_lem socket this s.1,
        close-IsClosed d P socket s.1,
      )

  -- A registration leaves a registered client, or it fails and leaves the client as it was; on every
  -- path it has closed what it opened.
  pub ensure_registered_lem :
      (pid : ℤ) (this : NetlinkClient) (e : Env P)
      → let r = ensure_registered P layout pid this e in
        IsRegistration this r.0 × Accounts d e 0 r.1 0
  unfolding ensure_registered bring_up_error leave
  ensure_registered_lem pid this e =
      let s = unix_socket (text "daemon") client in
      let i = initialize P s e in
      ground (
        arith,
        initialize_lem d P s e (unix_socket-IsClosed (text "daemon") client),
        register_through_lem pid i.0.1 this i.1,
        close-IsClosed d P i.0.1 i.1,
      )

  receive_response-Accounts :
      (socket : UnixSocket) (e : Env P)
      → Accounts d e (owned d socket) (receive_response P layout socket e).1 0
  unfolding receive_response leave
  receive_response-Accounts socket e =
      let v = recv P socket layout.response_size 5000 e in
      ground
        (arith, recv-Accounts d P socket layout.response_size 5000 e, close-IsClosed d P socket v.1)

  request_on-Accounts :
      (channel : Text) (request : NetlinkRequest) (e : Env P)
      → Accounts d e 0 (request_on P layout channel request e).1 0
  unfolding request_on ask leave
  request_on-Accounts channel request e =
      let s = unix_socket channel client in
      let i = initialize P s e in
      let sent = send P i.0.1 (layout.encode_request request) i.1 in
      ground (
        arith,
        initialize_lem d P s e (unix_socket-IsClosed channel client),
        send-Accounts d P i.0.1 (layout.encode_request request) i.1,
        receive_response-Accounts i.0.1 sent.1,
        close-IsClosed d P i.0.1 i.1,
        close-IsClosed d P i.0.1 sent.1,
      )

  -- A request, whatever fails, closes what it opened; and a response means that the client is
  -- registered.
  pub send_request_lem :
      (pid : ℤ) (request : NetlinkRequest) (this : NetlinkClient) (e : Env P)
      → let r = send_request P layout pid request this e in
        Accounts d e 0 r.1 0 × ((is_ok r.0.0 ≡ false) ⊎ (r.0.1.registered ≡ true))
  unfolding send_request request_if_registered
  send_request_lem pid request this e =
      let g = ensure_registered P layout pid this e in
      ground (
        arith,
        ensure_registered_lem pid this e,
        request_on-Accounts g.0.1.client_channel_name request g.1,
      )
