-- ===== src/Daemon/Life.antt =====
-- The threads of the daemon, whose rounds interleave: the loop of `run`, the worker of each session
-- and the cleanup worker of src/Daemon/Daemon.cpp. A round is one step. What two threads share is under
-- a lock for the whole of its use, `sessions_mutex_` or the mutex of the NetlinkManager, but for the
-- time of a session's last activity.
pub mod Reachable
pub mod Table
pub mod Isolation
use hy_can.UnixSocket.{UnixSocket}
use hy_can.Netlink.Requests.{process_request}
use hy_can.Netlink.Manager.{NetlinkManager}
use hy_can.Netlink.Libnl.{Libnl, LibnlEnv}
use hy_can.Daemon.Worker.{Layout, worker_round, main_round}
use hy_can.Daemon.Sessions.{
  ClientSession, Sessions, find_session, touch, cleanup_pass, cleanup_sessions,
}
use hy_can.Base.{is_some, ℤ, if◌then◌else◌, ℕ, ◌≡◌, Bool, true, some, []}
use hy_can.UnixSocket.Syscalls.{Env, Posix}

module _ (P : Posix) (layout : Layout) (L : Libnl) (manager : NetlinkManager L) where
  pub record DaemonState : Type 0 where
    pub sessions : Sessions
    pub env : Env P
    pub netlink : LibnlEnv L

  -- The daemon before its first round, with the descriptors of its main socket opened.
  abbrev pub first_state : Env P → LibnlEnv L → DaemonState
  first_state e n = record { sessions = []; env = e; netlink = n }

  -- A round of `run`.
  unfoldable pub main_step : ℕ → Bool → UnixSocket → DaemonState → DaemonState
  main_step now can_spawn main_socket s =
      let r = main_round P layout now can_spawn main_socket s.sessions s.env in
      record s { sessions = r.0.1; env = r.1 }

  -- A round of the worker of `session`; the map holds the session that the worker changes.
  unfoldable pub worker_step : ℕ → ℤ → ClientSession → DaemonState → DaemonState
  worker_step now pid session s =
      let r = worker_round P layout (process_request L manager) now session s.netlink s.env in
      record {
        sessions = if is_some r.0.1 then touch pid now s.sessions else s.sessions;
        env = r.1;
        netlink = r.0.2;
      }

  -- A pass of `session_cleanup_worker`.
  unfoldable pub cleanup_step : (ℤ → Bool) → ℕ → DaemonState → DaemonState
  cleanup_step alive now s =
      let r = cleanup_pass P alive now s.sessions s.env in record s { sessions = r.0; env = r.1 }

  -- A worker runs only for a session that is in the map and has one.
  pub data Step (s : DaemonState) : DaemonState → Type 0 where
    main_moves :
        (now : ℕ) (can_spawn : Bool) (socket : UnixSocket)
        → Step s (main_step now can_spawn socket s)
    worker_moves :
        (now : ℕ) (pid : ℤ) (session : ClientSession)
        → find_session pid s.sessions ≡ some session
        → session.has_worker ≡ true
        → Step s (worker_step now pid session s)
    cleanup_moves : (alive : ℤ → Bool) (now : ℕ) → Step s (cleanup_step alive now s)

  pub data Reach (first : DaemonState) : DaemonState → Type 0 where
    at_first : Reach first first
    later : {s t : DaemonState} → Reach first s → Step s t → Reach first t

  -- The end of `run`: the final cleanup.
  unfoldable pub shut_down : DaemonState → DaemonState
  shut_down s =
      let r = cleanup_sessions P s.sessions s.env in record s { sessions = r.0; env = r.1 }
