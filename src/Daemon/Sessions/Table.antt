-- ===== src/Daemon/Sessions/Table.antt =====
-- The sessions of the daemon as a table with at most one session for each process: how they are kept and
-- in which order is forgotten.
use hy_can.Message.{ClientRegisterRequest, ClientRegisterResponse}
use hy_can.Daemon.Sessions.Cleanup.{is_kept, fresh_sessions, find-fresh_sessions}
use hy_can.Daemon.Sessions.{
  ClientSession, Sessions, find_session, touch, new_session, handle_client_registration,
  store_session, register_new,
}
use hy_can.Base.{
  pos, List, ◌⊎◌, Text, ℤ, int_eq, int_eq_iff, if◌then◌else◌, Bool-cases, Option-cases, ℕ, ◌≡◌,
  refl, ap, fun_ext, inl, inr, Bool, true, false, Option, none, some, [], ◌∷◌, arith,
}
use hy_can.UnixSocket.Syscalls.{Env, Posix}
use hy_can.UnixSocket.{UnixSocket}
use hy_can.Daemon.Sessions.Registration.{
  IsListening, IsSession, AreDistinct, IsValid, init_of, init_of_lem,
}

abbrev pub Table : Type 0
Table = ℤ → Option ClientSession

abbrev pub view : Sessions → Table
view m k = find_session k m

abbrev pub put : ℤ → ClientSession → Table → Table
put pid s t k = if int_eq pid k then some s else t k

abbrev pub keep_if : (ClientSession → Bool) → Option ClientSession → Option ClientSession
keep_if test none = none
keep_if test (some s) = if test s then some s else none

-- What moves the daemon: the main loop at a time, the worker of a process at a time, and the cleanup
-- worker at a time, when these processes are alive.
pub data Cause : Type 0 where
  main_at : ℕ → Cause
  worker_at : ℕ → ℤ → Cause
  cleanup_at : (ℤ → Bool) → ℕ → Cause

-- The session of the process was active.
abbrev pub IsActive : ℕ → ℤ → Table → Table → Type 0
IsActive now pid t u =
    (s : ClientSession) × (t pid ≡ some s) × (u ≡ put pid (record s { last_activity = now }) t)

-- A process that had no session has one of its own.
abbrev pub IsAdded : ℕ → ℤ → Table → Table → Type 0
IsAdded now pid t u =
    (s : ClientSession) × (t pid ≡ none)
    × IsSession (pid, s)
    × (s.last_activity ≡ now)
    × (u ≡ put pid s t)

-- What each of them may do to the table: the main loop adds a session or finds it active, a worker finds
-- its own session active, and the cleanup drops exactly those that are not kept.
abbrev pub Change : Cause → Table → Table → Type 0
Change (main_at now) t u = (u ≡ t) ⊎ (pid : ℤ) × (IsAdded now pid t u ⊎ IsActive now pid t u)
Change (worker_at now pid) t u = (u ≡ t) ⊎ IsActive now pid t u
Change (cleanup_at alive now) t u = u ≡ (λ k. keep_if (is_kept alive now) (t k))

-- The changes by these causes, the latest first.
abbrev pub Changes : List Cause → Table → Table → Type 0
Changes [] t u = u ≡ t
Changes (c ∷ causes) t u = (v : Table) × Changes causes t v × Change c v u

find_same : (j k : ℤ) (m : Sessions) → int_eq j k ≡ true → find_session j m ≡ find_session k m
find_same j k m same = ap (λ i. find_session i m) ((int_eq_iff j k).0 same)

view-touch :
    (pid : ℤ) (now : ℕ) (s : ClientSession) (m : Sessions) (k : ℤ)
    → find_session pid m ≡ some s
    → find_session k (touch pid now m) ≡ put pid (record s { last_activity = now }) (view m) k
unfolding find_session touch
view-touch pid now s [] k h = absurd (ground arith)
view-touch pid now s ((j, s') ∷ m) k h = elim (Bool-cases (int_eq j pid)) [
  | inl same ↦ ground (arith, h, same, int_eq_iff j pid)
  | inr other ↦ ground (
    arith,
    h,
    other,
    view-touch pid now s m k,
    int_eq_iff j k,
    int_eq_iff pid k,
    int_eq_iff j pid,
  )
]

view-fresh_sessions :
    (alive : ℤ → Bool) (now : ℕ) (m : Sessions) (k : ℤ)
    → AreDistinct m
    → find_session k (fresh_sessions alive now m) ≡ keep_if (is_kept alive now) (find_session k m)
unfolding find_session
view-fresh_sessions alive now [] k h = refl
view-fresh_sessions alive now ((j, s) ∷ m) k h = ground (
  arith,
  h.0,
  view-fresh_sessions alive now m k h.1,
  find-fresh_sessions alive now j m,
  find_same j k (fresh_sessions alive now m),
)

-- A pass over a table of valid sessions.
pub fresh_sessions-Change :
    (alive : ℤ → Bool) (now : ℕ) (m : Sessions)
    → IsValid m
    → Change (cleanup_at alive now) (view m) (view (fresh_sessions alive now m))
fresh_sessions-Change alive now m valid =
    fun_ext (λ k. view-fresh_sessions alive now m k valid.distinct)

pub touch-IsActive :
    (pid : ℤ) (now : ℕ) (s : ClientSession) (m : Sessions)
    → find_session pid m ≡ some s
    → IsActive now pid (view m) (view (touch pid now m))
touch-IsActive pid now s m known = (s, known, fun_ext (λ k. view-touch pid now s m k known))

add-IsAdded :
    (pid : ℤ) (now : ℕ) (s : ClientSession) (m : Sessions)
    → find_session pid m ≡ none
    → IsSession (pid, s)
    → s.last_activity ≡ now
    → IsAdded now pid (view m) (view ((pid, s) ∷ m))
unfolding find_session
add-IsAdded pid now s m fresh own active = (s, fresh, own, active, refl)

module _ (P : Posix) (encode : ClientRegisterResponse → Text) where
  store_session-Change :
      (r : UnixSocket) (can_spawn : Bool) (pid : ℤ) (now : ℕ) (sock : UnixSocket) (m : Sessions)
      (e : Env P)
      → find_session pid m ≡ none
      → IsListening pid sock
      → Change (main_at now) (view m) (
          view
            (store_session P encode r can_spawn
              (record (new_session pid now) { socket = sock })
              m
              e).0.1)
  unfolding store_session new_session
  store_session-Change r true pid now sock m e fresh opened = inr (
    pid,
    inl (
        add-IsAdded pid now _ m fresh
          (record { own_pid = refl; own_channel = refl; listening = opened; is_running = refl })
          refl),
  )
  store_session-Change r false pid now sock m e fresh opened = inr (
    pid,
    inl (
        add-IsAdded pid now _ m fresh
          (record { own_pid = refl; own_channel = refl; listening = opened; is_running = refl })
          refl),
  )

  register_new-Change :
      (r : UnixSocket) (can_spawn : Bool) (pid : ℤ) (now : ℕ) (m : Sessions) (e : Env P)
      → find_session pid m ≡ none
      → Change
          (main_at now)
          (view m)
          (view (register_new P encode r can_spawn (new_session pid now) m e).0.1)
  unfolding register_new
  register_new-Change r can_spawn pid now m e fresh =
      let i = init_of P encode pid now e in
      elim (init_of_lem P encode (pos 0) pid now e).0 [
        | inl (done, opened) ↦
            rw done (store_session-Change r can_spawn pid now i.0.1 m i.1 fresh opened)
        | inr (wrong, closed) ↦ rw wrong (inl refl)
      ]

  pub handle_client_registration-Change :
      (request : ClientRegisterRequest) (r : UnixSocket) (now : ℕ) (can_spawn : Bool) (m : Sessions)
      (e : Env P)
      → Change
          (main_at now)
          (view m)
          (view (handle_client_registration P encode request r now can_spawn m e).0.1)
  unfolding handle_client_registration
  handle_client_registration-Change request r now can_spawn m e =
      elim (Option-cases (find_session request.client_pid m)) [
        | inl fresh ↦
            rw (fresh, handle_client_registration)
              (register_new-Change r can_spawn request.client_pid now m e fresh)
        | inr (s, known) ↦
            rw (known, handle_client_registration)
              (inr (request.client_pid, inr (touch-IsActive request.client_pid now s m known)))
      ]
