-- ===== src/Daemon/Sessions/Ledger.antt =====
-- The descriptors that a registration opens.
use hy_can.Message.{ClientRegisterRequest, ClientRegisterResponse}
use hy_can.Daemon.Sessions.Registration.{init_of, init_of_lem}
use hy_can.Daemon.Sessions.Cleanup.{owned_all}
use hy_can.Daemon.Sessions.{
  ClientSession, Sessions, find_session, touch, new_session, handle_client_registration, reply,
  store_session, register_new,
}
use hy_can.UnixSocket.Ownership.{owned, Accounts, close-IsClosed}
use hy_can.UnixSocket.{send, UnixSocket}
use hy_can.UnixSocket.Syscalls.{Env, Posix}
use hy_can.Base.{
  Text, ℤ, Bool-cases, Option-cases, ℕ, ◌+◌, ◌≡◌, refl, inl, inr, Bool, true, false, [], ◌∷◌, arith,
}

pub owned_all-touch :
    (d pid : ℤ) (now : ℕ) (m : Sessions) → owned_all d (touch pid now m) ≡ owned_all d m
unfolding touch
owned_all-touch d pid now [] = refl
owned_all-touch d pid now ((k, s) ∷ m) = ground (arith, owned_all-touch d pid now m)

module _ (d : ℤ) (P : Posix) (encode : ClientRegisterResponse → Text) where
  reply-Accounts :
      (r : UnixSocket) (name : Text) (e : Env P)
      → ((reply P encode r name e).1.opened d ≡ e.opened d)
        × ((reply P encode r name e).1.closed d ≡ e.closed d)
  unfolding reply send
  reply-Accounts r name e = ground arith

  store_session-Accounts :
      (r : UnixSocket) (can_spawn : Bool) (session : ClientSession) (m : Sessions) (e : Env P)
      → let s = store_session P encode r can_spawn session m e in
        Accounts d e (owned d session.socket + owned_all d m) s.1 (owned_all d s.0.1)
  unfolding store_session
  store_session-Accounts r true session m e =
      ground (arith, reply-Accounts r session.channel_name e)
  store_session-Accounts r false session m e = ground arith

  register_new-Accounts :
      (r : UnixSocket) (can_spawn : Bool) (pid : ℤ) (now : ℕ) (m : Sessions) (e : Env P)
      → let s = register_new P encode r can_spawn (new_session pid now) m e in
        Accounts d e (owned_all d m) s.1 (owned_all d s.0.1)
  unfolding register_new
  register_new-Accounts r can_spawn pid now m e =
      let i = init_of P encode pid now e in
      let books = (init_of_lem P encode d pid now e).1 in
      let stored = record (new_session pid now) { socket = i.0.1 } in
      elim (Bool-cases i.0.0) [
        | inl done ↦ rw done (omega (arith, books, store_session-Accounts r can_spawn stored m i.1))
        | inr failed ↦ rw failed (omega (arith, books, (close-IsClosed d P i.0.1 i.1).1))
      ]

  -- Every registration accounts for each descriptor: those of the sessions are held, and all others
  -- that it opened have been closed.
  pub handle_client_registration-Accounts :
      (request : ClientRegisterRequest) (r : UnixSocket) (now : ℕ) (can_spawn : Bool) (m : Sessions)
      (e : Env P)
      → let s = handle_client_registration P encode request r now can_spawn m e in
        Accounts d e (owned_all d m) s.1 (owned_all d s.0.1)
  unfolding handle_client_registration
  handle_client_registration-Accounts request r now can_spawn m e =
      elim (Option-cases (find_session request.client_pid m)) [
        | inl fresh ↦
            rw (fresh, handle_client_registration)
              (register_new-Accounts r can_spawn request.client_pid now m e)
        | inr (s, known) ↦
            rw (known, handle_client_registration)
              (omega (
                arith,
                owned_all-touch d request.client_pid now m,
                (reply-Accounts r s.channel_name e).0,
                (reply-Accounts r s.channel_name e).1,
              ))
      ]
