-- ===== src/Can/Sender.antt =====
-- include/HyCAN/Interface/Sender.hpp and src/Interface/Sender.cpp. The conversion of the caller's
-- type to a `can_frame` is a parameter; for a `can_frame` it is the identity.
pub mod Delivery
use hy_can.Util.Error.{
  can_socket_write_error, can_socket_buffer_full, error, Expected, ok, unexpected,
}
use hy_can.Can.Socket.{new_socket, Socket, ensure_connected}
use hy_can.Can.Network.{
  CanFrame, Network, M, pure, ◌>>=◌, ◌>>◌, write_frame, read_errno, enxio, ebadf, eagain, enodev,
  epipe, enetdown, enobufs,
}
use hy_can.Base.{
  Text, text, show_nat, is_minus_one, is_nonpositive, ◌==◌, if◌then◌else◌, ℕ, Bool, not, ◌||◌, ◌++◌,
}

pub record Sender : Type 0 where
  pub socket : Socket
  pub interface_name : Text

unfoldable pub new_sender : Text → Sender
unfolding new_socket
new_sender interface_name = record {
  socket = new_socket interface_name;
  interface_name = interface_name;
}

-- The errors after which `send` connects again.
abbrev pub is_fatal : ℕ → Bool
is_fatal code =
    code == ebadf || (code == enetdown || (code == epipe || (code == enxio || code == enodev)))

abbrev pub is_full : ℕ → Bool
is_full code = code == eagain || code == enobufs

module _ (N : Network) where
  -- The error that `send` returns for the error number of a write.
  write_error : ℕ → Expected (Unit {0})
  write_error code =
      if is_full code
      then unexpected (error can_socket_buffer_full (text "CAN socket buffer full"))
      else unexpected (
          error can_socket_write_error (
            text "Failed to send CAN message: "
            ++ (N.strerror code ++ (text " (errno: " ++ (show_nat code ++ text ")")))))

  -- The write after a connection.
  write_again : CanFrame → Expected (Unit {0}) × Socket → M N (Expected (Unit {0}) × Socket)
  unfolding write_error
  write_again frame (unexpected err, s) = pure (unexpected err, s)
  write_again frame (ok _, s) = do
    result ← write_frame s.sock_fd frame
    code ← read_errno
    if is_minus_one result then pure (write_error code, s) else pure (ok tt, s)

  -- The first write, and one more on a new connection after a fatal error.
  write_first : CanFrame → Expected (Unit {0}) × Socket → M N (Expected (Unit {0}) × Socket)
  unfolding write_again write_error
  write_first frame (unexpected err, s) = pure (unexpected err, s)
  write_first frame (ok _, s) = do
    result ← write_frame s.sock_fd frame
    code ← read_errno
    if not (is_minus_one result)
        then pure (ok tt, s)
        else if is_fatal code
        then (do connected ← ensure_connected N s; write_again frame connected)
        else pure (write_error code, s)

  unfoldable pub send :
      {T : Type 0} → (T → CanFrame) → T → Sender → M N (Expected (Unit {0}) × Sender)
  unfolding write_first
  send to_frame frame sender = do
    connected ←
        if is_nonpositive sender.socket.sock_fd
        then ensure_connected N sender.socket
        else pure (ok tt, sender.socket)
    r ← write_first (to_frame frame) connected
    pure (r.0, record sender { socket = r.1 })
