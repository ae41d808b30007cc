-- ===== src/Daemon/Life/Reachable.antt =====
-- What holds of the daemon after any interleaving of its rounds.
use hy_can.UnixSocket.Ownership.{Accounts}
use hy_can.UnixSocket.{UnixSocket}
use hy_can.Netlink.Requests.Balance.{process_request-Balanced}
use hy_can.Netlink.Requests.{process_request}
use hy_can.Netlink.Manager.{NetlinkManager}
use hy_can.Netlink.Libnl.{Libnl, LibnlEnv}
use hy_can.Netlink.Balance.{Balanced, Balanced-refl, Balanced-trans}
use hy_can.Message.{NetlinkResponse}
use hy_can.Daemon.Worker.Rounds.{IsRound, worker_round_lem}
use hy_can.Daemon.Worker.MainLoop.{main_round_lem}
use hy_can.Daemon.Worker.{Layout, worker_round}
use hy_can.Daemon.Sessions.Registration.{
  IsSession, AreDistinct, IsValid, touch-AreDistinct, touch-All,
}
use hy_can.Daemon.Sessions.Ledger.{owned_all-touch}
use hy_can.Daemon.Sessions.Cleanup.{
  find-fresh_sessions, owned_all, is_kept, fresh_sessions, cleanup_pass_lem, cleanup_sessions_lem,
}
use hy_can.Daemon.Sessions.{ClientSession, Sessions, touch}
use hy_can.Daemon.Life.{
  DaemonState, first_state, main_step, worker_step, cleanup_step, Step, main_moves, worker_moves,
  cleanup_moves, Reach, at_first, later, shut_down,
}
use hy_can.Base.{
  pos, none, some, is_some, ℤ, All, Bool-cases, ℕ, ◌≡◌, refl, inl, inr, Bool, Option, [], ◌∷◌,
  arith,
}
use hy_can.UnixSocket.Syscalls.{Env, Posix}

fresh_sessions-AreDistinct :
    (alive : ℤ → Bool) (now : ℕ) (m : Sessions)
    → AreDistinct m
    → AreDistinct (fresh_sessions alive now m)
fresh_sessions-AreDistinct alive now [] h = tt
fresh_sessions-AreDistinct alive now ((j, s) ∷ m) h = elim (Bool-cases (is_kept alive now s)) [
  | inl kept ↦
      rw kept (find-fresh_sessions alive now j m h.0, fresh_sessions-AreDistinct alive now m h.1)
  | inr gone ↦ rw gone (fresh_sessions-AreDistinct alive now m h.1)
]

fresh_sessions-All :
    (alive : ℤ → Bool) (now : ℕ) (m : Sessions)
    → All IsSession m
    → All IsSession (fresh_sessions alive now m)
fresh_sessions-All alive now [] h = tt
fresh_sessions-All alive now ((j, s) ∷ m) h = elim (Bool-cases (is_kept alive now s)) [
  | inl kept ↦ rw kept (h.0, fresh_sessions-All alive now m h.1)
  | inr gone ↦ rw gone (fresh_sessions-All alive now m h.1)
]

touch-IsValid : (pid : ℤ) (now : ℕ) (m : Sessions) → IsValid m → IsValid (touch pid now m)
touch-IsValid pid now m v = record {
  sessions = touch-All pid now m v.sessions;
  distinct = touch-AreDistinct pid now m v.distinct;
}

module _ (P : Posix) (layout : Layout) (L : Libnl) (manager : NetlinkManager L) where
  -- The sessions are valid, the descriptors that are open are those of the sessions, and every object
  -- of libnl has been given back.
  pub record IsSound (first s : DaemonState P layout L manager) : Type 0 where
    pub valid : IsValid s.sessions
    pub descriptors :
        (d : ℤ) → Accounts d first.env (owned_all d first.sessions) s.env (owned_all d s.sessions)
    pub balanced : Balanced first.netlink s.netlink

  main_step-IsSound :
      (first s : DaemonState P layout L manager) (now : ℕ) (can_spawn : Bool) (socket : UnixSocket)
      → IsSound first s
      → IsSound first (main_step P layout L manager now can_spawn socket s)
  unfolding main_step
  main_step-IsSound first s now can_spawn socket h =
      let round =
        λ (d : ℤ). main_round_lem d P layout now can_spawn socket s.sessions s.env h.valid in
      record {
        valid = (round (pos 0)).0;
        descriptors = λ d. omega (arith, h.descriptors d, (round d).1);
        balanced = h.balanced;
      }

  cleanup_step-IsSound :
      (first s : DaemonState P layout L manager) (alive : ℤ → Bool) (now : ℕ)
      → IsSound first s
      → IsSound first (cleanup_step P layout L manager alive now s)
  unfolding cleanup_step
  cleanup_step-IsSound first s alive now h =
      let r = cleanup_pass_lem (pos 0) P alive now s.sessions s.env in
      record {
        valid = rw r.0 (record {
          sessions = fresh_sessions-All alive now s.sessions h.valid.sessions;
          distinct = fresh_sessions-AreDistinct alive now s.sessions h.valid.distinct;
        });
        descriptors = λ d. omega (
          arith,
          h.descriptors d,
          (cleanup_pass_lem d P alive now s.sessions s.env).1,
          (cleanup_pass_lem d P alive now s.sessions s.env).2,
        );
        balanced = h.balanced;
      }

  round-Balanced :
      (n : LibnlEnv L) (c : Option UnixSocket × Env P) (x : Option NetlinkResponse × LibnlEnv L)
      → IsRound P layout (process_request L manager) n c x
      → Balanced n x.1
  round-Balanced n (none, e) x h = rw h.1 (Balanced-refl n)
  round-Balanced n (some connection, e) x (inl h) = rw h.2 (process_request-Balanced L manager _ n)
  round-Balanced n (some connection, e) x (inr h) = rw h.2 (Balanced-refl n)

  worker_step-IsSound :
      (first s : DaemonState P layout L manager) (now : ℕ) (pid : ℤ) (session : ClientSession)
      → IsSound first s
      → IsSound first (worker_step P layout L manager now pid session s)
  unfolding worker_step
  worker_step-IsSound first s now pid session h =
      let r = worker_round P layout (process_request L manager) now session s.netlink s.env in
      let w = λ (d : ℤ).
        worker_round_lem d P layout (process_request L manager) now session s.netlink s.env in
      let balanced =
        Balanced-trans h.balanced (round-Balanced s.netlink _ (r.0.1, r.0.2) (w (pos 0)).0) in
      elim (Bool-cases (is_some r.0.1)) [
        | inl served ↦ rw served (record {
          valid = touch-IsValid pid now s.sessions h.valid;
          descriptors =
              λ d. omega (arith, h.descriptors d, (w d).2, owned_all-touch d pid now s.sessions);
          balanced = balanced;
        })
        | inr unserved ↦ rw unserved (record {
          valid = h.valid;
          descriptors = λ d. omega (arith, h.descriptors d, (w d).2);
          balanced = balanced;
        })
      ]

  Step-IsSound :
      (first s t : DaemonState P layout L manager)
      → IsSound first s
      → Step P layout L manager s t
      → IsSound first t
  Step-IsSound first s _ h (main_moves now can_spawn socket) =
      main_step-IsSound first s now can_spawn socket h
  Step-IsSound first s _ h (worker_moves now pid session found has) =
      worker_step-IsSound first s now pid session h
  Step-IsSound first s _ h (cleanup_moves alive now) = cleanup_step-IsSound first s alive now h

  first_state-IsSound :
      (e : Env P) (n : LibnlEnv L)
      → IsSound (first_state P layout L manager e n) (first_state P layout L manager e n)
  first_state-IsSound e n = record {
    valid = record { sessions = tt; distinct = tt };
    descriptors = λ d. refl;
    balanced = Balanced-refl n;
  }

  -- However the rounds of the main loop, of the workers and of the cleanup interleave, and whatever
  -- each of them meets: the sessions stay valid, each descriptor is open as often as the sessions hold it,
  -- and every object of libnl that was taken has been given back.
  pub Reach-IsSound :
      (e : Env P) (n : LibnlEnv L) (s : DaemonState P layout L manager)
      → Reach P layout L manager (first_state P layout L manager e n) s
      → IsSound (first_state P layout L manager e n) s
  Reach-IsSound e n _ at_first = first_state-IsSound e n
  Reach-IsSound e n _ (later {s} {t} reached step) =
      Step-IsSound (first_state P layout L manager e n) s t (Reach-IsSound e n s reached) step

  -- After any interleaving of rounds and the final cleanup, no session is left, and every descriptor
  -- that the daemon opened after its main socket has been closed.
  pub shut_down_lem :
      (d : ℤ) (e : Env P) (n : LibnlEnv L) (s : DaemonState P layout L manager)
      → Reach P layout L manager (first_state P layout L manager e n) s
      → let end = shut_down P layout L manager s in (end.sessions ≡ []) × Accounts d e 0 end.env 0
  unfolding shut_down
  shut_down_lem d e n s reached =
      let c = cleanup_sessions_lem d P s.sessions s.env in
      (c.0, omega (arith, c.1, (Reach-IsSound e n s reached).descriptors d))
