-- ===== src/Daemon/Sessions/Registration/Workerless.antt =====
-- A registration whose worker thread cannot be started: the `catch` of handle_client_registration in
-- src/Daemon/Daemon.cpp.
use hy_can.UnixSocket.{UnixSocket}
use hy_can.Message.{ClientRegisterRequest, ClientRegisterResponse, register_response}
use hy_can.Daemon.Sessions.Registration.{init_of, registration_known}
use hy_can.Daemon.Sessions.{
  ClientSession, Sessions, find_session, touch, generate_client_channel_name, new_session,
  handle_client_registration, store_session, register_new,
}
use hy_can.Base.{
  Text, ℤ, pos, int_eq_iff, ℕ, ◌≡◌, refl, ap, ◌∙◌, Bool, true, false, none, some, ◌∷◌, arith,
}
use hy_can.UnixSocket.Syscalls.{Env, Posix}

module _ (P : Posix) (encode : ClientRegisterResponse → Text) where
  -- The entry that stays when the worker thread cannot be started.
  abbrev workerless : ℤ → ℕ → Env P → ClientSession
  workerless pid now e = record (new_session pid now) { socket = (init_of P encode pid now e).0.1 }

  first_registration :
      (request : ClientRegisterRequest) (r : UnixSocket) (now : ℕ) (m : Sessions) (e : Env P)
      → find_session request.client_pid m ≡ none
      → (init_of P encode request.client_pid now e).0.0 ≡ true
      → (handle_client_registration P encode request r now false m e).0
        ≡ (none, (request.client_pid, workerless request.client_pid now e) ∷ m)
  unfolding handle_client_registration register_new store_session new_session
  first_registration request r now m e fresh done = ground arith

  find-cons_self :
      (pid : ℤ) (s : ClientSession) (m : Sessions) → find_session pid ((pid, s) ∷ m) ≡ some s
  unfolding find_session
  find-cons_self pid s m = ground (arith, int_eq_iff pid pid)

  touch-cons_self :
      (pid : ℤ) (now : ℕ) (s : ClientSession) (m : Sessions)
      → touch pid now ((pid, s) ∷ m) ≡ (pid, record s { last_activity = now }) ∷ m
  unfolding touch
  touch-cons_self pid now s m = ground (arith, int_eq_iff pid pid)

  -- When the worker thread of a new client cannot be started, the client gets no answer, but its
  -- session stays without a worker; the next registration of the same process is answered by a
  -- success, and the session still has no worker to serve it.
  pub registration_without_worker :
      (request : ClientRegisterRequest) (r r' : UnixSocket) (now later : ℕ) (again : Bool)
      (m : Sessions) (e e' : Env P)
      → find_session request.client_pid m ≡ none
      → (init_of P encode request.client_pid now e).0.0 ≡ true
      → let first = handle_client_registration P encode request r now false m e in
        let second = handle_client_registration P encode request r' later again first.0.1 e' in
        let name = generate_client_channel_name request.client_pid in
        (first.0.0 ≡ none)
        × (second.0.0 ≡ some (register_response (pos 0) name))
        × ((s : ClientSession) × (find_session request.client_pid second.0.1 ≡ some s)
            × (s.has_worker ≡ false))
  unfolding new_session
  registration_without_worker request r r' now later again m e e' fresh done =
      let pid = request.client_pid in
      let s = workerless pid now e in
      let m' : Sessions = (pid, s) ∷ m in
      let one = first_registration request r now m e fresh done in
      let two =
        registration_known P encode request r' later again m' e' s (find-cons_self pid s m) in
      let same = touch-cons_self pid later s m in
      rw one (
        refl,
        ap (λ p. p.0) two,
        (
          record s { last_activity = later },
          ap (λ p. find_session pid p.1) two ∙ ap (find_session pid) same ∙ find-cons_self pid _ m,
          refl,
        ),
      )
