-- ===== src/Daemon/Worker.antt =====
-- One round of the loop of `client_session_worker`, and of the loop of `run`, in Daemon.cpp. The
-- layout of the structures in memory is a parameter; the work on a request is a function of the
-- state that it passes on.
pub mod Rounds
pub mod Table
pub mod MainLoop
use hy_can.Message.{ClientRegisterRequest, ClientRegisterResponse, NetlinkRequest, NetlinkResponse}
use hy_can.Daemon.Sessions.{ClientSession, Sessions, handle_client_registration}
use hy_can.UnixSocket.{send, UnixSocket, close, accept, recv}
use hy_can.UnixSocket.Syscalls.{M, pure, ◌>>=◌, ◌>>◌, Posix}
use hy_can.Base.{is_some, Text, pos, int_eq, if◌then◌else◌, ℕ, Bool, Option, none, some}

-- `sizeof` and the bytes of the structures that are exchanged.
pub record Layout : Type 0 where
  pub register_request_size : ℕ
  pub request_size : ℕ
  pub decode_register_request : Text → ClientRegisterRequest
  pub decode_request : Text → NetlinkRequest
  pub encode_register_response : ClientRegisterResponse → Text
  pub encode_response : NetlinkResponse → Text

module _ (P : Posix) (layout : Layout) where
  module _ {S : Type 0} (process : NetlinkRequest → S → NetlinkResponse × S) where
    -- A complete request: it is processed and answered. The connection is closed at the end.
    serve : UnixSocket → Text → S → M P (Option NetlinkResponse × S)
    serve connection bytes state e =
        let r = process (layout.decode_request bytes) state in
        let sent = send P connection (layout.encode_response r.0) e in
        let closed = close P connection sent.1 in ((some r.0, r.1), closed.1)

    refuse : UnixSocket → S → M P (Option NetlinkResponse × S)
    refuse connection state e = let closed = close P connection e in ((none, state), closed.1)

    -- With a connection at hand: a request of another size is not processed.
    receive_request : UnixSocket → S → M P (Option NetlinkResponse × S)
    unfolding serve refuse
    receive_request connection state = do
      received ← recv P connection layout.request_size 1000
      if int_eq received.0 (pos layout.request_size)
          then serve connection received.1 state
          else refuse connection state

    with_connection : Option UnixSocket → S → M P (Option NetlinkResponse × S)
    unfolding receive_request
    with_connection none state = pure (none, state)
    with_connection (some connection) state = receive_request connection state

    -- A round: the session, the response that was sent, if any, and the state.
    unfoldable pub worker_round :
        ℕ → ClientSession → S → M P (ClientSession × Option NetlinkResponse × S)
    unfolding with_connection
    worker_round now session state = do
      connection ← accept P session.socket 1000
      r ← with_connection connection state
      pure ((if is_some r.0 then record session { last_activity = now } else session), r.0, r.1)

  -- The registration with a connection at hand.
  receive_registration :
      ℕ → Bool → UnixSocket → Sessions → M P (Option ClientRegisterResponse × Sessions)
  receive_registration now can_spawn connection sessions = do
    received ← recv P connection layout.register_request_size 1000
    r ←
        if int_eq received.0 (pos layout.register_request_size)
        then handle_client_registration P layout.encode_register_response
            (layout.decode_register_request received.1) connection now can_spawn sessions
        else pure (none, sessions)
    _ ← close P connection
    pure r

  main_with_connection :
      ℕ → Bool → Option UnixSocket → Sessions → M P (Option ClientRegisterResponse × Sessions)
  unfolding receive_registration
  main_with_connection now can_spawn none sessions = pure (none, sessions)
  main_with_connection now can_spawn (some connection) sessions =
      receive_registration now can_spawn connection sessions

  -- A round of the loop of `run`.
  unfoldable pub main_round :
      ℕ → Bool → UnixSocket → Sessions → M P (Option ClientRegisterResponse × Sessions)
  unfolding main_with_connection
  main_round now can_spawn main_socket sessions = do
    connection ← accept P main_socket 1000
    main_with_connection now can_spawn connection sessions
