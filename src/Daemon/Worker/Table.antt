-- ===== src/Daemon/Worker/Table.antt =====
-- A round of the main loop, seen from the table of sessions.
use hy_can.Daemon.Worker.{Layout, main_round, receive_registration, main_with_connection}
use hy_can.Daemon.Sessions.Table.{view, main_at, Change, handle_client_registration-Change}
use hy_can.Daemon.Sessions.{Sessions}
use hy_can.Base.{refl, pos, int_eq, Bool-cases, ℕ, inl, inr, Bool, Option, none, some}
use hy_can.UnixSocket.Syscalls.{Env, Posix}
use hy_can.UnixSocket.{UnixSocket, accept, recv}

module _ (P : Posix) (layout : Layout) where
  receive_registration-Change :
      (now : ℕ) (can_spawn : Bool) (connection : UnixSocket) (m : Sessions) (e : Env P)
      → Change
          (main_at now)
          (view m)
          (view (receive_registration P layout now can_spawn connection m e).0.1)
  unfolding receive_registration
  receive_registration-Change now can_spawn connection m e =
      let v = recv P connection layout.register_request_size 1000 e in
      let request = layout.decode_register_request v.0.1 in
      let encode = layout.encode_register_response in
      elim (Bool-cases (int_eq v.0.0 (pos layout.register_request_size))) [
        | inl whole ↦
            rw whole
              (handle_client_registration-Change P encode request connection now can_spawn m v.1)
        | inr part ↦ rw part (inl refl)
      ]

  main_with_connection-Change :
      (now : ℕ) (can_spawn : Bool) (connection : Option UnixSocket) (m : Sessions) (e : Env P)
      → Change
          (main_at now)
          (view m)
          (view (main_with_connection P layout now can_spawn connection m e).0.1)
  unfolding main_with_connection
  main_with_connection-Change now can_spawn none m e = inl refl
  main_with_connection-Change now can_spawn (some connection) m e =
      receive_registration-Change now can_spawn connection m e

  pub main_round-Change :
      (now : ℕ) (can_spawn : Bool) (main_socket : UnixSocket) (m : Sessions) (e : Env P)
      → Change (main_at now) (view m) (view (main_round P layout now can_spawn main_socket m e).0.1)
  unfolding main_round
  main_round-Change now can_spawn main_socket m e =
      let c = accept P main_socket 1000 e in main_with_connection-Change now can_spawn c.0 m c.1
