-- ===== src/Daemon/Worker/MainLoop.antt =====
-- A round of the loop of `run` in Daemon.cpp.
use hy_can.UnixSocket.{UnixSocket, accept, recv}
use hy_can.Daemon.Worker.{Layout, main_round, receive_registration, main_with_connection}
use hy_can.Daemon.Sessions.Registration.{IsValid, handle_client_registration-IsValid}
use hy_can.Daemon.Sessions.Ledger.{handle_client_registration-Accounts}
use hy_can.Daemon.Sessions.Cleanup.{owned_all}
use hy_can.Daemon.Sessions.{Sessions, handle_client_registration}
use hy_can.UnixSocket.Ownership.{
  owned, Accounts, owned_result, close-IsClosed, accept_lem, recv-Accounts,
}
use hy_can.UnixSocket.Syscalls.{Env, Posix}
use hy_can.Base.{ℤ, pos, int_eq, Bool-cases, ℕ, ◌+◌, inl, inr, Bool, Option, none, some, arith}

module _ (d : ℤ) (P : Posix) (layout : Layout) where
  receive_registration_lem :
      (now : ℕ) (can_spawn : Bool) (connection : UnixSocket) (m : Sessions) (e : Env P)
      → IsValid m
      → let r = receive_registration P layout now can_spawn connection m e in
        IsValid r.0.1 × Accounts d e (owned d connection + owned_all d m) r.1 (owned_all d r.0.1)
  unfolding receive_registration
  receive_registration_lem now can_spawn connection m e valid =
      let v = recv P connection layout.register_request_size 1000 e in
      let books = recv-Accounts d P connection layout.register_request_size 1000 e in
      let request = layout.decode_register_request v.0.1 in
      let encode = layout.encode_register_response in
      let h = handle_client_registration P encode request connection now can_spawn m v.1 in
      elim (Bool-cases (int_eq v.0.0 (pos layout.register_request_size))) [
        | inl whole ↦ rw whole (
          handle_client_registration-IsValid P encode request connection now can_spawn m v.1 valid,
          omega (
            arith,
            books,
            handle_client_registration-Accounts d P encode request connection now can_spawn m v.1,
            (close-IsClosed d P connection h.1).1,
          ),
        )
        | inr part ↦ rw part (valid, omega (arith, books, (close-IsClosed d P connection v.1).1))
      ]

  main_with_connection_lem :
      (now : ℕ) (can_spawn : Bool) (connection : Option UnixSocket) (m : Sessions) (e : Env P)
      → IsValid m
      → let r = main_with_connection P layout now can_spawn connection m e in
        IsValid r.0.1
        × Accounts d e (owned_result d connection + owned_all d m) r.1 (owned_all d r.0.1)
  unfolding main_with_connection
  main_with_connection_lem now can_spawn none m e valid = (valid, omega arith)
  main_with_connection_lem now can_spawn (some connection) m e valid =
      receive_registration_lem now can_spawn connection m e valid

  -- A round of the main loop keeps the sessions valid, whatever arrives, and it leaves open exactly
  -- the descriptors of the sessions: every connection that it accepts is closed.
  pub main_round_lem :
      (now : ℕ) (can_spawn : Bool) (main_socket : UnixSocket) (m : Sessions) (e : Env P)
      → IsValid m
      → let r = main_round P layout now can_spawn main_socket m e in
        IsValid r.0.1 × Accounts d e (owned_all d m) r.1 (owned_all d r.0.1)
  unfolding main_round
  main_round_lem now can_spawn main_socket m e valid =
      let c = accept P main_socket 1000 e in
      let w = main_with_connection_lem now can_spawn c.0 m c.1 valid in
      (w.0, omega (arith, w.1, (accept_lem d P main_socket 1000 e).1))
