-- ===== src/Can/Socket.antt =====
-- src/Interface/Socket.cpp and include/HyCAN/Interface/Socket.hpp
pub mod Connected
use hy_can.Util.Error.{
  ErrorCode, can_socket_create_error, can_interface_index_error, can_socket_bind_error,
  can_invalid_socket_error, can_flush_error, error, Expected, ok, unexpected,
}
use hy_can.Message.{ifnamsiz}
use hy_can.Can.Network.{
  Network, Env, M, pure, ◌>>=◌, ◌>>◌, call, open_socket, close_fd, read_errno, eagain, enetdown,
}
use hy_can.Base.{
  Text, text, c_str, ℤ, pos, is_negative, is_minus_one, is_nonpositive, minus_one, length, take,
  replicate, ◌==◌, if◌then◌else◌, ℕ, zero, suc, ◌-◌, min, Bool, not, ◌&&◌, ◌||◌, Option, none, some,
  ◌++◌,
}

-- `interface_name` is a view of the name that the Interface object keeps.
pub record Socket : Type 0 where
  pub sock_fd : ℤ
  pub interface_name : Text

-- The constructor: `sock_fd` is 0, as `int sock_fd{}` says.
unfoldable pub new_socket : Text → Socket
new_socket interface_name = record { sock_fd = pos 0; interface_name = interface_name }

-- `sock_fd > 0`
abbrev pub has_fd : Socket → Bool
has_fd s = not (is_nonpositive s.sock_fd)

-- The name in `ifr`: the buffer is zeroed, at most 15 bytes are copied, and a NUL follows them.
unfoldable pub ifr_name : Text → Text
ifr_name name = take 15 name ++ replicate (ifnamsiz - min (length name) 15) 0

module _ (N : Network) where
  unfoldable pub destroy : Socket → M N (Unit {0})
  destroy s = close_fd s.sock_fd

  close_if_any : Socket → M N (Unit {0})
  close_if_any s = if has_fd s then close_fd s.sock_fd else pure tt

  -- `return unexpected(Error{code, format("… {}", strerror(errno))})`
  fail_with : ErrorCode → Text → M N (Expected (Unit {0}))
  fail_with c m = do code ← read_errno; pure (unexpected (error c (m ++ N.strerror code)))

  -- `close(sock_fd); sock_fd = -1; return unexpected(…);`
  drop : Socket → ErrorCode → Text → M N (Expected (Unit {0}) × Socket)
  unfolding fail_with
  drop s c m = do close_fd s.sock_fd; r ← fail_with c m; pure (r, record s { sock_fd = minus_one })

  bind_to : Socket → ℕ → M N (Expected (Unit {0}) × Socket)
  unfolding drop
  bind_to s index = do
    bound ← call (N.bind s.sock_fd index)
    if is_minus_one bound
        then drop s can_socket_bind_error (text "Failed to bind CAN socket: ")
        else (λ e. ((ok tt, s), record e { world = N.set_nonblocking s.sock_fd e.world }))

  find_index : Socket → M N (Expected (Unit {0}) × Socket)
  unfolding drop bind_to
  find_index s = do
    index ← call (N.interface_index s.sock_fd (c_str (ifr_name s.interface_name)))
    if is_minus_one index.0
        then drop s can_interface_index_error (
            text "Failed to get CAN interface '"
            ++ (c_str (ifr_name s.interface_name) ++ text "' index: "))
        else bind_to s index.1

  unfoldable pub ensure_connected : Socket → M N (Expected (Unit {0}) × Socket)
  unfolding close_if_any find_index fail_with
  ensure_connected s = do
    close_if_any s
    fd ← open_socket
    if is_minus_one fd
        then (do
          r ← fail_with can_socket_create_error (text "Failed to create CAN socket: ")
          pure (r, record s { sock_fd = minus_one }))
        else find_index (record s { sock_fd = fd })

  abbrev is_drained : ℕ → Bool
  is_drained code = code == eagain || code == enetdown

  -- The error exit of the loop of `flush`.
  flush_end : ℤ → M N (Expected (Unit {0}))
  unfolding fail_with
  flush_end nbytes = do
    code ← read_errno
    if is_minus_one nbytes && is_drained code
        then pure (ok tt)
        else fail_with can_flush_error (text "Failed to flush linux buffer: ")

  -- The loop of `flush`, with fuel; `none` means that the fuel ran out.
  unfoldable pub flush_loop : ℕ → ℤ → M N (Option (Expected (Unit {0})))
  unfolding flush_end
  flush_loop zero fd e = (none, e)
  flush_loop (suc fuel) fd e =
      let r = N.read fd e.world in
      let e' : Env N = record e { world = r.1 } in
      let again = flush_loop fuel fd e' in
      let last = flush_end r.0 e' in
      if not (is_nonpositive r.0) then again else (some last.0, last.1)

  unfoldable pub flush : ℕ → Socket → M N (Option (Expected (Unit {0})))
  unfolding flush_loop
  flush fuel s =
      if is_negative s.sock_fd
      then pure (
          some (
            unexpected (
              error can_invalid_socket_error (text "Cannot flush with invalid socket descriptor"))))
      else flush_loop fuel s.sock_fd

  -- The move constructor: the new object, and the one moved from.
  unfoldable pub move : Socket → Socket × Socket
  move other = (other, record other { sock_fd = minus_one })

  -- Move assignment from another object.
  unfoldable pub move_assign : Socket → Socket → M N (Socket × Socket)
  unfolding move close_if_any
  move_assign this other = do close_if_any this; pure (move other)
