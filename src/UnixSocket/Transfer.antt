-- ===== src/UnixSocket/Transfer.antt =====
-- Moves, and what `send` and `recv` make of an object and of the kernel's answers.
use hy_can.UnixSocket.Ownership.{owned, IsClosed, Accounts}
use hy_can.UnixSocket.{UnixSocket, move, close, recv, recv_vector, move_assign}
use hy_can.UnixSocket.Syscalls.{timeval_of, Env, Posix}
use hy_can.Base.{
  Text, is_nonpositive, replicate, take-length-append, ◌⊎◌, true, [], ℤ, pos, length, ℕ, ◌+◌, ◌≤◌,
  ◌≡◌, arith,
}

-- A move hands the descriptor over: the new object is the old one, and the old one is closed, holds
-- nothing, and its destructor closes no descriptor and unlinks no path.
pub move-close :
    (P : Posix) (s : UnixSocket) (e : Env P)
    → ((move s).0 ≡ s) × IsClosed (move s).1 × ((close P (move s).1 e).1 ≡ e)
unfolding move close
move-close P s e = ground arith

-- What a count of received bytes says: that many bytes, or none on a timeout or an error.
abbrev pub IsReceived : ℕ → ℤ × Text → Type 0
IsReceived size r =
    ((r.0 ≡ pos (length r.1)) ⊎ ((is_nonpositive r.0 ≡ true) × (r.1 ≡ []))) × (length r.1 ≤ size)

module _ (d : ℤ) (P : Posix) where
  -- A move assignment closes what the target held, and no descriptor is lost or held twice.
  pub move_assign-Accounts :
      (this other : UnixSocket) (e : Env P)
      → let r = move_assign P this other e in
        (r.0.0 ≡ other)
        × IsClosed r.0.1
        × Accounts d e (owned d this + owned d other) r.1 (owned d r.0.0 + owned d r.0.1)
  unfolding move_assign close
  move_assign-Accounts this other e = ground arith

module _ (P : Posix) where
  recv-IsReceived :
      (s : UnixSocket) (size timeout_ms : ℕ) (e : Env P)
      → ((fd : ℤ) (n : ℕ) (w : P.World) → IsReceived n (P.recv fd n w).0)
      → IsReceived size (recv P s size timeout_ms e).0
  unfolding recv
  recv-IsReceived s size timeout_ms e k = ground (
    arith,
    k s.socket_fd size e.world,
    k s.socket_fd size (P.select s.socket_fd (timeval_of timeout_ms) e.world).1,
  )

  -- `recv_vector` returns exactly the bytes that `recv` received, and at most `max_size` of them, if
  -- the kernel returns the number of bytes that it wrote, and no more than it was asked for.
  pub recv_vector_lem :
      (s : UnixSocket) (max_size timeout_ms : ℕ) (e : Env P)
      → ((fd : ℤ) (n : ℕ) (w : P.World) → IsReceived n (P.recv fd n w).0)
      → let v = (recv_vector P s max_size timeout_ms e).0 in
        (v ≡ (recv P s max_size timeout_ms e).0.1) × (length v ≤ max_size)
  unfolding recv_vector
  recv_vector_lem s max_size timeout_ms e k =
      let r = (recv P s max_size timeout_ms e).0 in
      ground (
        arith,
        recv-IsReceived s max_size timeout_ms e k,
        take-length-append r.1 (replicate max_size 0),
      )
