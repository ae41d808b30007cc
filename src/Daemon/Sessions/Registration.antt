-- ===== src/Daemon/Sessions/Registration.antt =====
-- What `handle_client_registration` does to the sessions, on every path.

pub mod Workerless
use hy_can.UnixSocket.{initialize, server, UnixSocket, unix_socket}
use hy_can.Message.{ClientRegisterRequest, ClientRegisterResponse, register_response}
use hy_can.Daemon.Sessions.{
  ClientSession, Sessions, find_session, touch, generate_client_channel_name, new_session,
  handle_client_registration, store_session, register_new,
}
use hy_can.UnixSocket.Ownership.{
  initialize-path, owned, IsClosed, IsOpen, Accounts, unix_socket-IsClosed, close-IsClosed,
  initialize_lem,
}
use hy_can.UnixSocket.Syscalls.{Env, Posix}
use hy_can.Base.{
  text, ◌++◌, Text, ℤ, pos, int_eq, All, Bool-cases, Option-cases, ℕ, ◌+◌, ◌≡◌, refl, ◌⊎◌, inl, inr,
  Bool, true, false, none, some, [], ◌∷◌, arith,
}

-- The socket of a channel: open, and bound to the path that the clients of the process connect to.
abbrev pub IsListening : ℤ → UnixSocket → Type 0
IsListening pid s =
    IsOpen s
    × (s.mode ≡ server)
    × (s.socket_path ≡ text "/run/hycan_" ++ generate_client_channel_name pid)

-- A session as the daemon keeps it: for its own process, listening on its own channel.
pub record IsSession (entry : ℤ × ClientSession) : Type 0 where
  pub own_pid : entry.1.client_pid ≡ entry.0
  pub own_channel : entry.1.channel_name ≡ generate_client_channel_name entry.0
  pub listening : IsListening entry.0 entry.1.socket
  pub is_running : entry.1.running ≡ true

-- No process has two sessions.
abbrev pub AreDistinct : Sessions → Type 0
AreDistinct [] = Unit {0}
AreDistinct ((pid, s) ∷ m) = (find_session pid m ≡ none) × AreDistinct m

pub record IsValid (m : Sessions) : Type 0 where
  pub sessions : All IsSession m
  pub distinct : AreDistinct m

find-touch :
    (pid k : ℤ) (now : ℕ) (m : Sessions)
    → find_session k m ≡ none
    → find_session k (touch pid now m) ≡ none
unfolding find_session touch
find-touch pid k now [] h = refl
find-touch pid k now ((j, s) ∷ m) h = ground (arith, find-touch pid k now m)

pub touch-AreDistinct :
    (pid : ℤ) (now : ℕ) (m : Sessions) → AreDistinct m → AreDistinct (touch pid now m)
unfolding touch
touch-AreDistinct pid now [] h = tt
touch-AreDistinct pid now ((j, s) ∷ m) h =
    ground (arith, h.0, h.1, find-touch pid j now m h.0, touch-AreDistinct pid now m h.1)

pub touch-All :
    (pid : ℤ) (now : ℕ) (m : Sessions) → All IsSession m → All IsSession (touch pid now m)
unfolding touch
touch-All pid now [] h = tt
touch-All pid now ((j, s) ∷ m) h = elim (Bool-cases (int_eq j pid)) [
  | inl same ↦ rw same (
    record {
      own_pid = h.0.own_pid;
      own_channel = h.0.own_channel;
      listening = h.0.listening;
      is_running = h.0.is_running;
    },
    h.1,
  )
  | inr other ↦ rw other (h.0, touch-All pid now m h.1)
]

module _ (P : Posix) (encode : ClientRegisterResponse → Text) where
  store_session-IsValid :
      (r : UnixSocket) (can_spawn : Bool) (pid : ℤ) (now : ℕ) (sock : UnixSocket) (m : Sessions)
      (e : Env P)
      → find_session pid m ≡ none
      → IsListening pid sock
      → IsValid m
      → IsValid
          (store_session P encode r can_spawn
            (record (new_session pid now) { socket = sock })
            m
            e).0.1
  unfolding store_session new_session
  store_session-IsValid r true pid now sock m e fresh opened v = record {
    sessions = (
      record { own_pid = refl; own_channel = refl; listening = opened; is_running = refl },
      v.sessions,
    );
    distinct = (fresh, v.distinct);
  }
  store_session-IsValid r false pid now sock m e fresh opened v = record {
    sessions = (
      record { own_pid = refl; own_channel = refl; listening = opened; is_running = refl },
      v.sessions,
    );
    distinct = (fresh, v.distinct);
  }

  -- The socket of a new session is set up, or it is not.
  abbrev pub init_of : ℤ → ℕ → Env P → (Bool × UnixSocket) × Env P
  init_of pid now e = initialize P (new_session pid now).socket e

  pub init_of_lem :
      (d pid : ℤ) (now : ℕ) (e : Env P)
      → let i = init_of pid now e in
        (((i.0.0 ≡ true) × IsListening pid i.0.1) ⊎ ((i.0.0 ≡ false) × IsClosed i.0.1))
        × Accounts d e 0 i.1 (owned d i.0.1)
  unfolding new_session unix_socket
  init_of_lem d pid now e =
      let fresh = unix_socket (generate_client_channel_name pid) server in
      let made =
        initialize_lem d P fresh e
          (unix_socket-IsClosed (generate_client_channel_name pid) server) in
      let path = initialize-path P fresh e in
      (
        elim made.0 [
          | inl (done, opened) ↦ inl (done, (opened, path.0, path.1))
          | inr failed ↦ inr failed
        ],
        made.1,
      )

  register_new-IsValid :
      (r : UnixSocket) (can_spawn : Bool) (pid : ℤ) (now : ℕ) (m : Sessions) (e : Env P)
      → find_session pid m ≡ none
      → IsValid m
      → IsValid (register_new P encode r can_spawn (new_session pid now) m e).0.1
  unfolding register_new
  register_new-IsValid r can_spawn pid now m e fresh v =
      let i = init_of pid now e in
      elim (init_of_lem (pos 0) pid now e).0 [
        | inl (done, opened) ↦
            rw done (store_session-IsValid r can_spawn pid now i.0.1 m i.1 fresh opened v)
        | inr (failed, closed) ↦ rw failed v
      ]

  -- Every registration, of a new client or a known one and whatever fails, keeps the sessions valid.
  pub handle_client_registration-IsValid :
      (request : ClientRegisterRequest) (r : UnixSocket) (now : ℕ) (can_spawn : Bool) (m : Sessions)
      (e : Env P)
      → IsValid m
      → IsValid (handle_client_registration P encode request r now can_spawn m e).0.1
  unfolding handle_client_registration
  handle_client_registration-IsValid request r now can_spawn m e v =
      elim (Option-cases (find_session request.client_pid m)) [
        | inl fresh ↦
            rw (fresh, handle_client_registration)
              (register_new-IsValid r can_spawn request.client_pid now m e fresh v)
        | inr (s, known) ↦
            rw (known, handle_client_registration)
              (record {
                sessions = touch-All request.client_pid now m v.sessions;
                distinct = touch-AreDistinct request.client_pid now m v.distinct;
              })
      ]

  -- A new client whose channel cannot be set up gets no answer, its descriptor is closed, and the
  -- sessions are as they were.
  pub registration_refused :
      (d : ℤ) (request : ClientRegisterRequest) (r : UnixSocket) (now : ℕ) (can_spawn : Bool)
      (m : Sessions) (e : Env P)
      → find_session request.client_pid m ≡ none
      → (init_of request.client_pid now e).0.0 ≡ false
      → let s = handle_client_registration P encode request r now can_spawn m e in
        (s.0 ≡ (none, m)) × Accounts d e 0 s.1 0
  unfolding handle_client_registration register_new
  registration_refused d request r now can_spawn m e fresh refused =
      let i = init_of request.client_pid now e in
      let c = close-IsClosed d P i.0.1 i.1 in
      ground (arith, init_of_lem d request.client_pid now e, c)

  -- A client that has a session is told its channel again, and only the time of its last activity
  -- changes.
  pub registration_known :
      (request : ClientRegisterRequest) (r : UnixSocket) (now : ℕ) (can_spawn : Bool) (m : Sessions)
      (e : Env P) (s : ClientSession)
      → find_session request.client_pid m ≡ some s
      → (handle_client_registration P encode request r now can_spawn m e).0
        ≡ (some (register_response (pos 0) s.channel_name), touch request.client_pid now m)
  unfolding handle_client_registration
  registration_known request r now can_spawn m e s known = rw (known, handle_client_registration)
