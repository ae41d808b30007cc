-- ===== src/Can/Dispatcher/Lifecycle/Construction.antt =====
-- The constructor and the destructor of Dispatcher in src/Interface/Dispatcher.cpp, as far as
-- descriptors go; the core that the thread is put on is chosen in Can/Dispatcher/RealTime. An exception destroys the members, which
-- are all constructed by then.
use hy_can.Can.Dispatcher.Lifecycle.Frames.{stop_succeeds}
use hy_can.Can.Dispatcher.Lifecycle.{stop_lem, stop-returns, join, stop_failed}
use hy_can.Base.{inr, inl, ◌⊎◌, true, is_some, arith}
use hy_can.Util.Error.{Expected, is_ok}
use hy_can.Can.Socket.{Socket, new_socket, destroy}
use hy_can.Can.Dispatcher.Lifecycle.{Poll, Line, epoll_fd_add_sock_fd, stop, IsOneThread}
use hy_can.Base.{
  pos, int_eq, count_fd, in_hand, Text, ℤ, is_minus_one, if◌then◌else◌, ℕ, ◌+◌, ◌≡◌, false, Option,
  none, some,
}
use hy_can.Can.Network.{Network, M, pure, ◌>>=◌, ◌>>◌, close_fd, CanEnv}

module _ (N : Network) (poll : Poll N) where
  -- A call that returns a new descriptor, or -1.
  open_with : (N.World → ℤ × N.World) → M N ℤ
  open_with f e =
      let r = f e.world in
      (
        r.0,
        record e {
          world = r.1;
          opened = if is_minus_one r.0 then e.opened else count_fd r.0 e.opened;
        },
      )

  -- `throw`: the one member with a destructor that closes something is the socket.
  throws : Socket → M N (Option Line)
  throws s = do destroy N s; pure none

  new_line : Socket → ℤ → ℤ → Line
  new_line s epoll event = record {
    socket = s;
    thread_event_fd = event;
    epoll_fd = epoll;
    joinable = false;
    started = 0;
    joined = 0;
  }

  add_event : Line → M N (Option Line)
  unfolding throws
  add_event d = do
    r ← epoll_fd_add_sock_fd N poll d d.thread_event_fd
    if is_ok r then pure (some d) else throws d.socket

  with_epoll : Socket → ℤ → M N (Option Line)
  unfolding throws new_line add_event open_with
  with_epoll s epoll = do
    event ← open_with poll.eventfd
    if is_minus_one event then throws s else add_event (new_line s epoll event)

  -- The constructor; `none` is an exception.
  unfoldable pub construct : Text → M N (Option Line)
  unfolding throws with_epoll open_with new_socket
  construct interface_name = do
    epoll ← open_with poll.epoll_create
    if is_minus_one epoll
        then throws (new_socket interface_name)
        else with_epoll (new_socket interface_name) epoll

  close_unless_minus_one : ℤ → M N (Unit {0})
  close_unless_minus_one fd = if is_minus_one fd then pure tt else close_fd fd

  -- What follows the stop, if it returns: the two descriptors, and the socket with the members.
  close_all : Option (Expected (Unit {0})) → Line → M N (Option Line)
  unfolding close_unless_minus_one
  close_all none d = pure none
  close_all (some result) d = do
    close_unless_minus_one d.epoll_fd
    close_unless_minus_one d.thread_event_fd
    destroy N d.socket
    pure (some d)

  -- The destructor: the result of the stop is not looked at; `none` is a stop that does not return.
  unfoldable pub destruct : Line → M N (Option Line)
  unfolding close_all
  destruct d = do stopped ← stop N poll d; close_all stopped.0 stopped.1

  -- How often the constructor has opened `fd` when it throws.
  abbrev pub lost : ℤ → CanEnv N → ℕ
  lost fd e =
      let epoll = poll.epoll_create e.world in
      if is_minus_one epoll.0 then 0 else in_hand epoll.0 fd + in_hand (poll.eventfd epoll.1).0 fd

  -- What a constructor leaves of the descriptor `fd`: an object with two descriptors, or an exception.
  abbrev pub IsConstruction : ℤ → CanEnv N → CanEnv N → Option Line → Type 0
  IsConstruction fd e e' none =
      (e'.opened fd ≡ e.opened fd + lost fd e) × (e'.closed fd ≡ count_fd (pos 0) e.closed fd)
  IsConstruction fd e e' (some d) =
      IsOneThread N poll d
      × (is_minus_one d.epoll_fd ≡ false)
      × (is_minus_one d.thread_event_fd ≡ false)
      × (e'.opened fd ≡ e.opened fd + (in_hand d.epoll_fd fd + in_hand d.thread_event_fd fd))
      × (e'.closed fd ≡ e.closed fd)

  -- What the destructor closes of `fd`: both descriptors of the object, if it has them, and the one of its
  -- socket.
  abbrev pub held_by : ℤ → Line → ℕ
  held_by fd d =
      in_hand d.epoll_fd fd
      + in_hand d.thread_event_fd fd
      + (if int_eq d.socket.sock_fd fd then 1 else 0)

  stop_keeps :
      (fd : ℤ) (d : Line) (e : CanEnv N)
      → let r = stop N poll d e in
        (r.1.opened ≡ e.opened) × (r.1.closed ≡ e.closed) × (held_by fd r.0.1 ≡ held_by fd d)
  unfolding stop stop_failed join
  stop_keeps fd d e = ground arith

  close_all_lem :
      (fd : ℤ) (x : Option (Expected (Unit {0}))) (d : Line) (e : CanEnv N)
      → is_some (close_all x d e).0 ≡ true
      → let r = close_all x d e in
        (r.1.opened fd ≡ e.opened fd) × (r.1.closed fd ≡ e.closed fd + held_by fd d)
  unfolding close_all close_unless_minus_one destroy
  close_all_lem fd none d e returned = ground (arith, returned)
  close_all_lem fd (some result) d e returned = ground arith

  pub destruct_lem :
      (fd : ℤ) (d : Line) (e : CanEnv N)
      → is_some (destruct d e).0 ≡ true
      → let r = destruct d e in
        (r.1.opened fd ≡ e.opened fd) × (r.1.closed fd ≡ e.closed fd + held_by fd d)
  unfolding destruct
  destruct_lem fd d e returned =
      let s = stop N poll d e in
      ground (arith, stop_keeps fd d e, close_all_lem fd s.0.0 s.0.1 s.1 returned)

  -- When the eventfd can be written, no thread outlives the object, or the destructor waits for a reaper
  -- that does not end.
  pub destruct-joins :
      (d : Line) (e : CanEnv N)
      → IsOneThread N poll d
      → ((fd : ℤ) (w : N.World) → is_minus_one (poll.event_write fd w).0 ≡ false)
      → ((q : Line) × ((destruct d e).0 ≡ some q) × (q.joinable ≡ false) × (q.started ≡ q.joined))
        ⊎ ((destruct d e).0 ≡ none) × (w : N.World) × (poll.reaper_ends w ≡ false)
  unfolding destruct
  destruct-joins d e one writes = elim (stop-returns N poll d e) [
    | inl returned ↦
        let good = stop_succeeds N poll d e (writes d.thread_event_fd e.world) returned in
        let kept = stop_lem N poll d e one in
        inl (
          (stop N poll d e).0.1,
          ground (arith, returned),
          ground (arith, good, kept),
          ground (arith, good, kept),
        )
    | inr (waits, w, stays) ↦ inr (ground (arith, waits), w, stays)
  ]
