-- ===== src/Can/Dispatcher/Lifecycle.antt =====
-- `Dispatcher::start` and `Dispatcher::stop` of src/Interface/Dispatcher.cpp, and how many reaper
-- threads there are. A stop waits in its join for the thread that it told to end; whether that thread ends
-- is what the machine says, and Wakeup.antt is about when it does. That a thread cannot be created is not modelled: `start` is `noexcept`.
pub mod Construction
pub mod Frames
use hy_can.Can.Socket.Connected.{IsEnoughFuel, flush-is_some}
use hy_can.Util.Error.{epoll_error, reaper_stop_error, error, Expected, ok, unexpected, is_ok}
use hy_can.Can.Socket.{Socket, ensure_connected, flush}
use hy_can.Can.Network.{◌>>◌, Network, Env, M, pure, ◌>>=◌, call, read_errno}
use hy_can.Base.{
  inr, inl, Bool-cases, ◌⊎◌, is_some, text, ℤ, is_minus_one, if◌then◌else◌, ℕ, suc, ◌+◌, ◌≡◌, Bool,
  true, false, not, ◌||◌, Option, none, some, ◌++◌, arith,
}

-- `epoll_ctl(epoll_fd, EPOLL_CTL_ADD, fd, …)`, and the `write` of eight bytes to an eventfd.
pub record Poll (N : Network) : Type 0 where
  -- `epoll_create(256)` and `eventfd(0, 0)`.
  pub epoll_create : N.World → ℤ × N.World
  pub eventfd : N.World → ℤ × N.World
  pub epoll_add : ℤ → ℤ → N.World → ℤ × N.World
  pub event_write : ℤ → N.World → ℤ × N.World
  -- Whether the reaper that a stop waits for ends.
  pub reaper_ends : N.World → Bool

-- The fields of the Dispatcher that its thread depends on, and the threads started and joined.
pub record Line : Type 0 where
  pub socket : Socket
  pub thread_event_fd : ℤ
  pub epoll_fd : ℤ
  -- `reap_thread.joinable()`
  pub joinable : Bool
  pub started : ℕ
  pub joined : ℕ

module _ (N : Network) (poll : Poll N) where
  epoll_failed : M N (Expected (Unit {0}))
  epoll_failed = do
    code ← read_errno
    pure (
        unexpected
          (error epoll_error (text "Failed to EPOLL_CTL_ADD thread_event_fd: " ++ N.strerror code)))

  unfoldable pub epoll_fd_add_sock_fd : Line → ℤ → M N (Expected (Unit {0}))
  unfolding epoll_failed
  epoll_fd_add_sock_fd d fd = do
    r ← call (poll.epoll_add d.epoll_fd fd)
    if is_minus_one r then epoll_failed else pure (ok tt)

  spawn : Line → Line
  spawn d = if d.joinable then d else record d { joinable = true; started = suc d.started }

  -- The thread is created once the flush has succeeded; `none` is the fuel of the flush at its end.
  spawn_if_flushed : Option (Expected (Unit {0})) → Line → Option (Expected (Unit {0})) × Line
  unfolding spawn
  spawn_if_flushed none d = (none, d)
  spawn_if_flushed (some (unexpected e)) d = (some (unexpected e), d)
  spawn_if_flushed (some (ok _)) d = (some (ok tt), spawn d)

  flush_if_added : ℕ → Expected (Unit {0}) → Line → M N (Option (Expected (Unit {0})) × Line)
  unfolding spawn_if_flushed
  flush_if_added fuel (unexpected e) d = pure (some (unexpected e), d)
  flush_if_added fuel (ok _) d = do
    flushed ← flush N fuel d.socket
    pure (spawn_if_flushed flushed d)

  add_if_connected : ℕ → Expected (Unit {0}) → Line → M N (Option (Expected (Unit {0})) × Line)
  unfolding flush_if_added
  add_if_connected fuel (unexpected e) d = pure (some (unexpected e), d)
  add_if_connected fuel (ok _) d = do
    added ← epoll_fd_add_sock_fd d d.socket.sock_fd
    flush_if_added fuel added d

  unfoldable pub start : ℕ → Line → M N (Option (Expected (Unit {0})) × Line)
  unfolding add_if_connected
  start fuel d = do
    r ← ensure_connected N d.socket
    add_if_connected fuel r.0 (record d { socket = r.1 })

  stop_failed : Line → M N (Option (Expected (Unit {0})) × Line)
  stop_failed d = do
    code ← read_errno
    pure (
      some (
          unexpected (
            error reaper_stop_error
              (text "Failed to write one bytes to the specified socket: " ++ N.strerror code))),
      d,
    )

  -- `reap_thread.join(); return {};`, and `none` if the thread does not end.
  join : Line → M N (Option (Expected (Unit {0})) × Line)
  join d e =
      if poll.reaper_ends e.world
      then ((some (ok tt), record d { joinable = false; joined = suc d.joined }), e)
      else ((none, d), e)

  -- A thread whose eventfd cannot be written stays joinable.
  unfoldable pub stop : Line → M N (Option (Expected (Unit {0})) × Line)
  unfolding stop_failed join
  stop d = if not d.joinable then pure (some (ok tt), d) else (do
    r ← call (poll.event_write d.thread_event_fd)
    if is_minus_one r then stop_failed d else join d)

  -- Every thread that was started has been joined, but the one in the field.
  abbrev pub IsOneThread : Line → Type 0
  IsOneThread d = d.started ≡ d.joined + (if d.joinable then 1 else 0)

  -- The call returned, and with a success.
  abbrev pub is_success : Option (Expected (Unit {0})) → Bool
  is_success none = false
  is_success (some r) = is_ok r

  -- A start keeps the count of threads, and when it succeeds there is a reaper: the one there was or
  -- a new one. When it fails it neither starts nor ends a thread.
  pub start_lem :
      (fuel : ℕ) (d : Line) (e : Env N)
      → IsOneThread d
      → let r = (start fuel d e).0 in
        IsOneThread r.1 × (r.1.joinable ≡ d.joinable || is_success r.0) × (r.1.joined ≡ d.joined)
  unfolding start add_if_connected flush_if_added spawn_if_flushed spawn
  start_lem fuel d e h = ground arith

  pub start-is_some :
      (fuel : ℕ) (d : Line) (e : Env N) → IsEnoughFuel N fuel → is_some (start fuel d e).0.0 ≡ true
  unfolding start add_if_connected flush_if_added spawn_if_flushed epoll_fd_add_sock_fd epoll_failed
  start-is_some fuel d e h =
      let c = ensure_connected N d.socket e in
      let added = epoll_fd_add_sock_fd (record d { socket = c.0.1 }) c.0.1.sock_fd c.1 in
      ground (arith, flush-is_some N fuel c.0.1 added.1 h)

  -- A stop keeps the count of threads, and when it succeeds there is no reaper left; when it fails
  -- or does not return, the reaper stays to be joined.
  pub stop_lem :
      (d : Line) (e : Env N)
      → IsOneThread d
      → let r = (stop d e).0 in
        IsOneThread r.1
        × (r.1.joinable ≡ not (is_success r.0))
        × (r.1.started ≡ d.started)
        × (r.1.socket ≡ d.socket)
  unfolding stop stop_failed
  stop_lem d e h = ground arith

  -- A stop that does not return waits for a reaper that does not end.
  pub stop-returns :
      (d : Line) (e : Env N)
      → (is_some (stop d e).0.0 ≡ true)
        ⊎ ((stop d e).0.0 ≡ none) × (w : N.World) × (poll.reaper_ends w ≡ false)
  unfolding stop stop_failed join
  stop-returns d e =
      let w = (poll.event_write d.thread_event_fd e.world).1 in
      elim (Bool-cases (poll.reaper_ends w)) [
        | inl ends ↦ inl (ground (arith, ends))
        | inr stays ↦ elim (Bool-cases (is_some (stop d e).0.0)) [
          | inl returns ↦ inl returns
          | inr waits ↦ inr (ground (arith, waits), w, stays)
        ]
      ]
