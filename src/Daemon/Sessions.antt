-- ===== src/Daemon/Sessions.antt =====
-- The sessions of Daemon.cpp: registration, the cleanup worker and the final cleanup. Each holds
-- `sessions_mutex_` from its first line to its last, so it is one step. Times are nanoseconds of the
-- steady clock. A worker thread that is joined has been told to stop, so the join ends.
pub mod Channels
pub mod Registration
pub mod Cleanup
pub mod Table
pub mod Ledger
use hy_can.Message.{ClientRegisterRequest, ClientRegisterResponse, register_response}
use hy_can.UnixSocket.{send, initialize, server, UnixSocket, unix_socket, close}
use hy_can.UnixSocket.Syscalls.{M, pure, ◌>>=◌, ◌>>◌, Posix}
use hy_can.Base.{
  Text, text, show_int, ℤ, pos, int_eq, ltb, if◌then◌else◌, ℕ, ◌-◌, Bool, true, false, not, ◌||◌,
  Option, none, some, List, [], ◌∷◌, ◌++◌,
}

pub record ClientSession : Type 0 where
  pub client_pid : ℤ
  pub channel_name : Text
  pub socket : UnixSocket
  -- `worker_thread` is set.
  pub has_worker : Bool
  pub last_activity : ℕ
  pub running : Bool

-- `client_sessions_`: the session of a key is the first entry with that key.
abbrev pub Sessions : Type 0
Sessions = List (ℤ × ClientSession)

unfoldable pub find_session : ℤ → Sessions → Option ClientSession
find_session pid [] = none
find_session pid ((k, s) ∷ m) = if int_eq k pid then some s else find_session pid m

-- `client_sessions_[pid]->last_activity = now`
unfoldable pub touch : ℤ → ℕ → Sessions → Sessions
touch pid now [] = []
touch pid now ((k, s) ∷ m) =
    if int_eq k pid then (k, record s { last_activity = now }) ∷ m else (k, s) ∷ touch pid now m

unfoldable pub generate_client_channel_name : ℤ → Text
generate_client_channel_name client_pid = text "HyCAN_Client_" ++ show_int client_pid

-- The constructor of ClientSession, with the socket that the caller gives it.
unfoldable pub new_session : ℤ → ℕ → ClientSession
unfolding generate_client_channel_name
new_session pid now = record {
  client_pid = pid;
  channel_name = generate_client_channel_name pid;
  socket = unix_socket (generate_client_channel_name pid) server;
  has_worker = false;
  last_activity = now;
  running = true;
}

-- `session_timeout`, five minutes.
abbrev pub session_timeout : ℕ
session_timeout = 300_000_000_000

-- The test of the cleanup worker; `alive` is `is_process_alive`.
abbrev pub is_stale : (ℤ → Bool) → ℕ → ClientSession → Bool
is_stale alive now s = not (alive s.client_pid) || ltb session_timeout (now - s.last_activity)

module _ (P : Posix) where
  -- The reply, with its bytes; `encode` is the layout of the structure in memory.
  reply : (ClientRegisterResponse → Text) → UnixSocket → Text → M P (Option ClientRegisterResponse)
  reply encode registration_socket channel_name = do
    let response = register_response (pos 0) channel_name
    _ ← send P registration_socket (encode response)
    pure (some response)

  -- The end of the `try` block: the session is stored, and the thread may not start.
  store_session :
      (ClientRegisterResponse → Text)
      → UnixSocket
      → Bool
      → ClientSession
      → Sessions
      → M P (Option ClientRegisterResponse × Sessions)
  unfolding reply
  store_session encode registration_socket can_spawn session m =
      if can_spawn
      then (do
        response ← reply encode registration_socket session.channel_name
        pure (response, (session.client_pid, record session { has_worker = true }) ∷ m))
      else pure (none, (session.client_pid, session) ∷ m)

  -- A new client. If the socket cannot be set up, the session is destroyed, and its socket with it.
  register_new :
      (ClientRegisterResponse → Text)
      → UnixSocket
      → Bool
      → ClientSession
      → Sessions
      → M P (Option ClientRegisterResponse × Sessions)
  unfolding store_session
  register_new encode registration_socket can_spawn session m = do
    r ← initialize P session.socket
    if r.0
        then store_session encode registration_socket can_spawn (record session { socket = r.1 }) m
        else (do _ ← close P r.1; pure (none, m))

  -- `handle_client_registration`: the response that was sent, if any, and the new sessions.
  unfoldable pub handle_client_registration :
      (ClientRegisterResponse → Text)
      → ClientRegisterRequest
      → UnixSocket
      → ℕ
      → Bool
      → Sessions
      → M P (Option ClientRegisterResponse × Sessions)
  unfolding reply register_new new_session
  handle_client_registration encode request registration_socket now can_spawn m =
      elim (find_session request.client_pid m) [
        | some session ↦ (do
          response ← reply encode registration_socket session.channel_name
          pure (response, touch request.client_pid now m))
        | none ↦
            register_new encode registration_socket can_spawn (new_session request.client_pid now) m
      ]

  -- One pass of `session_cleanup_worker` over the sessions. Erasing an entry destroys its socket.
  unfoldable pub cleanup_pass : (ℤ → Bool) → ℕ → Sessions → M P Sessions
  cleanup_pass alive now [] e = ([], e)
  cleanup_pass alive now ((pid, s) ∷ m) e =
      let closed = close P s.socket e in
      let rest = cleanup_pass alive now m (if is_stale alive now s then closed.1 else e) in
      if is_stale alive now s then rest else ((pid, s) ∷ rest.0, rest.1)

  -- `cleanup_sessions`
  unfoldable pub cleanup_sessions : Sessions → M P Sessions
  cleanup_sessions [] = pure []
  cleanup_sessions ((pid, s) ∷ m) = do _ ← close P s.socket; cleanup_sessions m
