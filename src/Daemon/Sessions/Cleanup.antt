-- ===== src/Daemon/Sessions/Cleanup.antt =====
-- Which sessions a cleanup removes, and what becomes of their descriptors.
use hy_can.UnixSocket.{close}
use hy_can.Daemon.Sessions.{
  find_session, ClientSession, Sessions, is_stale, cleanup_pass, cleanup_sessions,
}
use hy_can.UnixSocket.Ownership.{close-opened, owned, Accounts, close-IsClosed}
use hy_can.UnixSocket.Syscalls.{Env, Posix}
use hy_can.Base.{
  refl, none, ℤ, leb, if◌then◌else◌, ℕ, ◌+◌, ◌*◌, ◌≡◌, Bool, not, ◌&&◌, [], ◌∷◌, arith,
}

-- How often the sessions hold the descriptor `d`.
abbrev pub owned_all : ℤ → Sessions → ℕ
owned_all d [] = 0
owned_all d ((pid, s) ∷ m) = owned d s.socket + owned_all d m

-- The process of the session is alive, and it was active in the last five minutes.
abbrev pub is_kept : (ℤ → Bool) → ℕ → ClientSession → Bool
is_kept alive now s = alive s.client_pid && leb now (s.last_activity + 5 * 60 * 1_000_000_000)

-- The specification: the sessions that are kept, in their order.
abbrev pub fresh_sessions : (ℤ → Bool) → ℕ → Sessions → Sessions
fresh_sessions alive now [] = []
fresh_sessions alive now ((pid, s) ∷ m) =
    let rest = fresh_sessions alive now m in if is_kept alive now s then (pid, s) ∷ rest else rest

pub find-fresh_sessions :
    (alive : ℤ → Bool) (now : ℕ) (k : ℤ) (m : Sessions)
    → find_session k m ≡ none
    → find_session k (fresh_sessions alive now m) ≡ none
unfolding find_session
find-fresh_sessions alive now k [] h = refl
find-fresh_sessions alive now k ((j, s) ∷ m) h =
    ground (arith, h, find-fresh_sessions alive now k m)

is_stale-is_kept :
    (alive : ℤ → Bool) (now : ℕ) (s : ClientSession)
    → is_stale alive now s ≡ not (is_kept alive now s)
is_stale-is_kept alive now s = ground arith

module _ (d : ℤ) (P : Posix) where
  -- A pass of the cleanup worker keeps exactly the sessions whose process is alive and that were
  -- active in the last five minutes, and it closes each descriptor exactly as often as one of the
  -- others held it.
  pub cleanup_pass_lem :
      (alive : ℤ → Bool) (now : ℕ) (m : Sessions) (e : Env P)
      → let r = cleanup_pass P alive now m e in
        (r.0 ≡ fresh_sessions alive now m)
        × (r.1.opened d ≡ e.opened d)
        × (owned_all d m + e.closed d ≡ owned_all d r.0 + r.1.closed d)
  unfolding cleanup_pass
  cleanup_pass_lem alive now [] e = ground arith
  cleanup_pass_lem alive now ((pid, s) ∷ m) e =
      let c = close P s.socket e in
      ground (
        arith,
        is_stale-is_kept alive now s,
        close-IsClosed d P s.socket e,
        close-opened d P s.socket e,
        cleanup_pass_lem alive now m c.1,
        cleanup_pass_lem alive now m e,
      )

  -- The final cleanup leaves no session, and closes every descriptor that the sessions held.
  pub cleanup_sessions_lem :
      (m : Sessions) (e : Env P)
      → let r = cleanup_sessions P m e in (r.0 ≡ []) × Accounts d e (owned_all d m) r.1 0
  unfolding cleanup_sessions
  cleanup_sessions_lem [] e = ground arith
  cleanup_sessions_lem ((pid, s) ∷ m) e =
      let c = close P s.socket e in
      ground (arith, close-IsClosed d P s.socket e, cleanup_sessions_lem m c.1)
