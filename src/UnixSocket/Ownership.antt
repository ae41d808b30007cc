-- ===== src/UnixSocket/Ownership.antt =====
-- The descriptor that a UnixSocket holds: the invariant of the class and the books of the calls.
use hy_can.UnixSocket.{
  send, initialize, Mode, server, client, UnixSocket, unix_socket, close, accept, recv,
}
use hy_can.UnixSocket.Syscalls.{Env, Posix}
use hy_can.Base.{
  ℤ, in_hand, Text, is_minus_one, minus_one, ℕ, ◌+◌, ◌≡◌, refl, ◌⊎◌, true, false, Option, none,
  some, arith,
}

-- How often the object holds the descriptor `d`.
abbrev pub owned : ℤ → UnixSocket → ℕ
owned d s = in_hand s.socket_fd d

-- The object is closed: it holds nothing and is not connected.
abbrev pub IsClosed : UnixSocket → Type 0
IsClosed s = (s.socket_fd ≡ minus_one) × (s.connected ≡ false)

-- The object is connected and holds a descriptor.
abbrev pub IsOpen : UnixSocket → Type 0
IsOpen s = (is_minus_one s.socket_fd ≡ false) × (s.connected ≡ true)

-- The books of the descriptor `d`: between the two environments it was closed as often as it was
-- opened, but for `before` times that it was held at the start and `after` times at the end.
abbrev pub Accounts : ℤ → {P : Posix} → Env P → ℕ → Env P → ℕ → Type 0
Accounts d e before e' after =
    e'.opened d + (before + e.closed d) ≡ e.opened d + (after + e'.closed d)

-- What `accept` returned, if anything.
abbrev pub owned_result : ℤ → Option UnixSocket → ℕ
owned_result d none = 0
owned_result d (some s) = owned d s

-- A client that `accept` returned on the server `s`.
abbrev pub IsClientOf : UnixSocket → Option UnixSocket → Type 0
IsClientOf s none = Unit {0}
IsClientOf s (some c) =
    IsOpen c
    × (c.mode ≡ client)
    × (c.socket_path ≡ s.socket_path)
    × (s.mode ≡ server)
    × (s.connected ≡ true)

pub unix_socket-IsClosed : (path : Text) (mode : Mode) → IsClosed (unix_socket path mode)
unfolding unix_socket
unix_socket-IsClosed path mode = (refl, refl)

module _ (P : Posix) where
  pub initialize-path :
      (s : UnixSocket) (e : Env P)
      → let r = initialize P s e in (r.0.1.mode ≡ s.mode) × (r.0.1.socket_path ≡ s.socket_path)
  unfolding initialize
  initialize-path s e = ground arith

module _ (d : ℤ) (P : Posix) where
  -- `close` closes its descriptor once, and no other, if there is one, and leaves a closed object.
  pub close-IsClosed :
      (s : UnixSocket) (e : Env P)
      → IsClosed (close P s e).0 × Accounts d e (owned d s) (close P s e).1 0
  unfolding close
  close-IsClosed s e = ground arith

  pub close-opened : (s : UnixSocket) (e : Env P) → (close P s e).1.opened d ≡ e.opened d
  unfolding close
  close-opened s e = ground arith

  -- On an object that holds no descriptor, `initialize` either succeeds with a connected object
  -- that holds one, or it fails with a closed one; on every path each descriptor was closed
  -- as often as it was opened, but the one that it holds.
  pub initialize_lem :
      (s : UnixSocket) (e : Env P)
      → IsClosed s
      → let r = initialize P s e in
        (((r.0.0 ≡ true) × IsOpen r.0.1) ⊎ ((r.0.0 ≡ false) × IsClosed r.0.1))
        × Accounts d e 0 r.1 (owned d r.0.1)
  unfolding initialize
  initialize_lem s e c = ground arith

  -- `accept` gives nothing on a socket that is no open server, and otherwise nothing or a client
  -- that is open; the descriptor of that client is all that it has opened.
  pub accept_lem :
      (s : UnixSocket) (timeout_ms : ℕ) (e : Env P)
      → let r = accept P s timeout_ms e in
        IsClientOf s r.0 × Accounts d e 0 r.1 (owned_result d r.0)
  unfolding accept
  accept_lem s timeout_ms e = ground arith

  pub recv-Accounts :
      (s : UnixSocket) (n t : ℕ) (e : Env P)
      → ((recv P s n t e).1.opened d ≡ e.opened d) × ((recv P s n t e).1.closed d ≡ e.closed d)
  unfolding recv
  recv-Accounts s n t e = ground arith

  pub send-Accounts :
      (s : UnixSocket) (b : Text) (e : Env P)
      → ((send P s b e).1.opened d ≡ e.opened d) × ((send P s b e).1.closed d ≡ e.closed d)
  unfolding send
  send-Accounts s b e = ground arith
