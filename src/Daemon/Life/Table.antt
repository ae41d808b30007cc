-- ===== src/Daemon/Life/Table.antt =====
-- The daemon as a table of sessions, under every interleaving of its rounds.
use hy_can.Netlink.Requests.{process_request}
use hy_can.Base.{◌∷◌, [], pos, List, refl, Bool-cases, is_some, inl, inr, none}
use hy_can.Netlink.Manager.{NetlinkManager}
use hy_can.Netlink.Libnl.{Libnl, LibnlEnv}
use hy_can.Daemon.Worker.Table.{main_round-Change}
use hy_can.Daemon.Worker.{worker_round, Layout}
use hy_can.Daemon.Sessions.Table.{
  view, Cause, main_at, worker_at, cleanup_at, Change, Changes, touch-IsActive,
  fresh_sessions-Change,
}
use hy_can.Daemon.Sessions.Registration.{IsValid}
use hy_can.Daemon.Sessions.Cleanup.{cleanup_pass_lem}
use hy_can.Daemon.Sessions.{find_session}
use hy_can.Daemon.Life.Reachable.{Reach-IsSound}
use hy_can.UnixSocket.Syscalls.{Env, Posix}
use hy_can.Daemon.Life.{
  first_state, main_step, worker_step, cleanup_step, Step, Reach, main_moves, worker_moves,
  cleanup_moves, at_first, later, DaemonState,
}

module _ (P : Posix) (layout : Layout) (L : Libnl) (manager : NetlinkManager L) where
  -- What a step, and the steps of a run, are caused by.
  abbrev pub cause_of : {s t : DaemonState P layout L manager} → Step P layout L manager s t → Cause
  cause_of (main_moves now can_spawn socket) = main_at now
  cause_of (worker_moves now pid session known has_worker) = worker_at now pid
  cause_of (cleanup_moves alive now) = cleanup_at alive now

  abbrev pub causes_of :
      {s t : DaemonState P layout L manager} → Reach P layout L manager s t → List Cause
  causes_of at_first = []
  causes_of (later reached step) = cause_of step ∷ causes_of reached

  Step-Change :
      (s t : DaemonState P layout L manager)
      → IsValid s.sessions
      → (step : Step P layout L manager s t)
      → Change (cause_of step) (view s.sessions) (view t.sessions)
  unfolding main_step worker_step cleanup_step
  Step-Change s _ valid (main_moves now can_spawn socket) =
      main_round-Change P layout now can_spawn socket s.sessions s.env
  Step-Change s _ valid (worker_moves now pid session known has_worker) =
      let r = worker_round P layout (process_request L manager) now session s.netlink s.env in
      elim (Bool-cases (is_some r.0.1)) [
        | inl answered ↦ rw answered (inr (touch-IsActive pid now session s.sessions known))
        | inr quiet ↦ rw quiet (inl refl)
      ]
  Step-Change s _ valid (cleanup_moves alive now) =
      rw (cleanup_pass_lem (pos 0) P alive now s.sessions s.env).0
        (fresh_sessions-Change alive now s.sessions valid)

  -- Whatever rounds the daemon has made, in whatever order, its sessions are the table that began empty
  -- and that each round has changed as its cause may: a round of the main loop gave a process that had
  -- no session one of its own, found a session active, or left the table alone; a round of a worker
  -- found its session active or left the table alone; and a cleanup dropped exactly the sessions whose
  -- process was not alive then or that had been idle for five minutes at that time.
  pub Reach_refines :
      (e : Env P) (n : LibnlEnv L) (s : DaemonState P layout L manager)
      (reached : Reach P layout L manager (first_state P layout L manager e n) s)
      → Changes (causes_of reached) (λ k. none) (view s.sessions)
  unfolding find_session
  Reach_refines e n _ at_first = refl
  Reach_refines e n _ (later {s} {t} reached step) = (
    view s.sessions,
    Reach_refines e n s reached,
    Step-Change s t (Reach-IsSound P layout L manager e n s reached).valid step,
  )
