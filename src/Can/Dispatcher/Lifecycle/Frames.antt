-- ===== src/Can/Dispatcher/Lifecycle/Frames.antt =====
-- The dispatcher writes no frame; and a stop that returns succeeds when its write does.
use hy_can.Base.{is_some, is_minus_one, true, false, ℕ, ◌≡◌, arith}
use hy_can.Can.Socket.Connected.{flush-sent}
use hy_can.Can.Sender.Delivery.{ensure_connected-sent}
use hy_can.Can.Network.{Network, CanEnv}
use hy_can.Can.Dispatcher.Lifecycle.{
  is_success, join, join, epoll_fd_add_sock_fd, epoll_failed, flush_if_added, add_if_connected,
  stop_failed, Poll, Line, start, stop,
}
use hy_can.Can.Socket.{ensure_connected}

module _ (N : Network) (poll : Poll N) where
  pub start-sent : (fuel : ℕ) (d : Line) (e : CanEnv N) → (start N poll fuel d e).1.sent ≡ e.sent
  unfolding start add_if_connected flush_if_added epoll_fd_add_sock_fd epoll_failed
  start-sent fuel d e =
      let c = ensure_connected N d.socket e in
      let added = epoll_fd_add_sock_fd N poll (record d { socket = c.0.1 }) c.0.1.sock_fd c.1 in
      ground (arith, ensure_connected-sent N d.socket e, flush-sent N fuel c.0.1 added.1)

  pub stop-sent : (d : Line) (e : CanEnv N) → (stop N poll d e).1.sent ≡ e.sent
  unfolding stop stop_failed join
  stop-sent d e = ground arith

  pub stop_succeeds :
      (d : Line) (e : CanEnv N)
      → is_minus_one (poll.event_write d.thread_event_fd e.world).0 ≡ false
      → is_some (stop N poll d e).0.0 ≡ true
      → is_success N poll (stop N poll d e).0.0 ≡ true
  unfolding stop stop_failed join
  stop_succeeds d e h returned = ground (arith, h, returned)
