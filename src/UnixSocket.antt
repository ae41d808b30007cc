-- ===== src/UnixSocket.antt =====
-- src/Daemon/UnixSocket/UnixSocket.cpp and include/HyCAN/Daemon/UnixSocket/UnixSocket.hpp
pub mod Syscalls
pub mod Ownership
pub mod Transfer
use hy_can.UnixSocket.Syscalls.{
  pure, M, ◌>>=◌, ◌>>◌, call, timeval_of, Posix, open_call, close_call, unlink,
}
use hy_can.Base.{
  Text, text, c_str, ℤ, pos, is_minus_one, is_nonpositive, minus_one, to_nat, length, take,
  replicate, leb, ◌==◌, if◌then◌else◌, ℕ, Bool, true, false, not, ◌&&◌, ◌||◌, Option, none, some,
  [], ◌∷◌, ◌++◌,
}

pub data Mode : Type 0 where
  server client : Mode

pub record UnixSocket : Type 0 where
  pub socket_fd : ℤ
  pub socket_path : Text
  pub mode : Mode
  pub connected : Bool

abbrev pub is_server : Mode → Bool
is_server server = true
is_server client = false

-- `sizeof(sockaddr_un::sun_path)`
abbrev pub sun_path_size : ℕ
sun_path_size = 108

-- The public constructor.
unfoldable pub unix_socket : Text → Mode → UnixSocket
unix_socket path mode = record {
  socket_fd = minus_one;
  socket_path = text "/run/hycan_" ++ path;
  mode = mode;
  connected = false;
}

-- The constructor for accepted connections.
unfoldable pub accepted_socket : ℤ → Text → UnixSocket
accepted_socket fd path = record {
  socket_fd = fd;
  socket_path = path;
  mode = client;
  connected = true;
}

-- `setup_address`: the path that is put in the address, if it fits with its NUL.
unfoldable pub setup_address : UnixSocket → Option Text
setup_address s =
    if leb sun_path_size (length s.socket_path) then none else some (c_str s.socket_path)

-- The move constructor: the new object, and the one moved from. A `std::string` that was moved
-- from is empty.
unfoldable pub move : UnixSocket → UnixSocket × UnixSocket
move other = (other, record other { socket_fd = minus_one; socket_path = []; connected = false })

abbrev is_empty : Text → Bool
is_empty [] = true
is_empty (c ∷ cs) = false

module _ (P : Posix) where
  -- `::close` of the descriptor that the object holds.
  close_fd : UnixSocket → M P (Unit {0})
  close_fd s = if is_minus_one s.socket_fd then pure tt else close_call s.socket_fd

  unlink_path : UnixSocket → M P (Unit {0})
  unlink_path s =
      if is_server s.mode && not (is_empty s.socket_path)
      then unlink (c_str s.socket_path)
      else pure tt

  unfoldable pub close : UnixSocket → M P UnixSocket
  unfolding close_fd unlink_path
  close s = do
    close_fd s
    unlink_path s
    pure (record s { socket_fd = minus_one; connected = false })

  -- `close(); return false;`
  give_up : UnixSocket → M P (Bool × UnixSocket)
  unfolding close
  give_up s = do s' ← close s; pure (false, s')

  listen_on : UnixSocket → M P (Bool × UnixSocket)
  unfolding give_up
  listen_on s = do
    listening ← call (P.listen s.socket_fd 5)
    if is_minus_one listening then give_up s else (do
      _ ← call (P.chmod (c_str s.socket_path) 0o666)
      pure (true, record s { connected = true }))

  bind_to : UnixSocket → Text → M P (Bool × UnixSocket)
  unfolding listen_on give_up
  bind_to s address = do
    unlink (c_str s.socket_path)
    bound ← call (P.bind s.socket_fd address)
    if is_minus_one bound then give_up s else listen_on s

  connect_to : UnixSocket → Text → M P (Bool × UnixSocket)
  unfolding give_up
  connect_to s address = do
    result ← call (P.connect s.socket_fd address)
    if is_minus_one result then give_up s else pure (true, record s { connected = true })

  initialize_with : UnixSocket → Option Text → M P (Bool × UnixSocket)
  unfolding give_up bind_to connect_to
  initialize_with s none = give_up s
  initialize_with s (some address) =
      if is_server s.mode then bind_to s address else connect_to s address

  unfoldable pub initialize : UnixSocket → M P (Bool × UnixSocket)
  unfolding initialize_with setup_address
  initialize s = do
    fd ← open_call P.socket
    let opened = record s { socket_fd = fd }
    if is_minus_one fd then pure (false, opened) else initialize_with opened (setup_address opened)

  -- `select` on the one descriptor, if there is a timeout; 1 if there is none.
  wait_readable : ℤ → ℕ → M P ℤ
  wait_readable fd timeout_ms =
      if timeout_ms == 0 then pure (pos 1) else call (P.select fd (timeval_of timeout_ms))

  accept_now : UnixSocket → M P (Option UnixSocket)
  unfolding accepted_socket
  accept_now s = do
    client_fd ← open_call (P.accept s.socket_fd)
    if is_minus_one client_fd
        then pure none
        else pure (some (accepted_socket client_fd s.socket_path))

  unfoldable pub accept : UnixSocket → ℕ → M P (Option UnixSocket)
  unfolding wait_readable accept_now
  accept s timeout_ms = if not (is_server s.mode) || not s.connected then pure none else (do
    ready ← wait_readable s.socket_fd timeout_ms
    if is_nonpositive ready then pure none else accept_now s)

  abbrev unusable : UnixSocket → Bool
  unusable s = not s.connected || is_minus_one s.socket_fd

  unfoldable pub send : UnixSocket → Text → M P ℤ
  send s bytes = if unusable s then pure minus_one else call (P.send s.socket_fd bytes)

  -- The result and what was written into the buffer.
  unfoldable pub recv : UnixSocket → ℕ → ℕ → M P (ℤ × Text)
  unfolding wait_readable
  recv s size timeout_ms = if unusable s then pure (minus_one, []) else (do
    ready ← wait_readable s.socket_fd timeout_ms
    if is_nonpositive ready then pure (ready, []) else call (P.recv s.socket_fd size))

  -- `buffer.resize(bytes_received)` of the buffer of `max_size` bytes that begins with what was
  -- received.
  unfoldable pub recv_vector : UnixSocket → ℕ → ℕ → M P Text
  recv_vector s max_size timeout_ms = do
    received ← recv s max_size timeout_ms
    if is_nonpositive received.0
        then pure []
        else pure (take (to_nat received.0) (received.1 ++ replicate max_size 0))

  -- Move assignment: this object, and the one moved from.
  unfoldable pub move_assign : UnixSocket → UnixSocket → M P (UnixSocket × UnixSocket)
  unfolding move
  move_assign this other = do _ ← close this; pure (move other)
