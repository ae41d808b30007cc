-- ===== src/Can/Network.antt =====
-- The kernel's calls on CAN sockets that Socket.cpp and Sender.hpp make. Each descriptor has
-- a count of how often it was opened and closed.
use hy_can.Base.{count_fd, ◌∷◌, Text, ℤ, is_minus_one, if◌then◌else◌, ℕ, suc, List}

-- `can_frame`
pub record CanFrame : Type 0 where
  pub can_id : ℕ
  pub len : ℕ
  pub bytes : List ℕ

pub record Network : Type 1 where
  pub World : Type 0
  pub socket : World → ℤ × World
  -- `ioctl(fd, SIOCGIFINDEX, &ifr)`: the result, and the index that it stores.
  pub interface_index : ℤ → Text → World → (ℤ × ℕ) × World
  pub bind : ℤ → ℕ → World → ℤ × World
  -- The two `fcntl` calls that make the descriptor non-blocking.
  pub set_nonblocking : ℤ → World → World
  -- `read` of one frame, and `write` of one.
  pub read : ℤ → World → ℤ × World
  pub write : ℤ → CanFrame → World → ℤ × World
  pub close : ℤ → World → World
  pub errno : World → ℕ
  pub strerror : ℕ → Text

pub record Env (N : Network) : Type 0 where
  pub world : N.World
  pub opened : ℤ → ℕ
  pub closed : ℤ → ℕ
  -- The frames whose `write` did not fail, the latest first, and the number of calls of `write`.
  pub sent : List CanFrame
  pub writes : ℕ

abbrev pub M : Network → Type 0 → Type 0
M N A = Env N → A × Env N

abbrev pub pure : {N : Network} {A : Type 0} → A → M N A
pure a e = (a, e)

infixl 5 ◌>>=◌ ◌>>◌
abbrev pub ◌>>=◌ : {N : Network} {A B : Type 0} → M N A → (A → M N B) → M N B
◌>>=◌ m f e = let r = m e in f r.0 r.1

abbrev pub ◌>>◌ : {N : Network} {A B : Type 0} → M N A → M N B → M N B
m >> k = m >>= λ _. k

abbrev pub call : {N : Network} {A : Type 0} → (N.World → A × N.World) → M N A
call f e = let r = f e.world in (r.0, record e { world = r.1 })

-- `socket(PF_CAN, SOCK_RAW, CAN_RAW)`
abbrev pub open_socket : {N : Network} → M N ℤ
open_socket {N} e =
    let r = N.socket e.world in
    (
      r.0,
      record e {
        world = r.1;
        opened = if is_minus_one r.0 then e.opened else count_fd r.0 e.opened;
      },
    )

abbrev pub close_fd : {N : Network} → ℤ → M N (Unit {0})
close_fd {N} fd e = (tt, record e { world = N.close fd e.world; closed = count_fd fd e.closed })

-- `write(fd, &frame, sizeof(frame))`
abbrev pub write_frame : {N : Network} → ℤ → CanFrame → M N ℤ
write_frame {N} fd frame e =
    let r = N.write fd frame e.world in
    (
      r.0,
      record e {
        world = r.1;
        sent = if is_minus_one r.0 then e.sent else frame ∷ e.sent;
        writes = suc e.writes;
      },
    )

-- The last error of a call, and its text.
abbrev pub read_errno : {N : Network} → M N ℕ
read_errno {N} e = (N.errno e.world, e)

-- The error numbers of Linux; `EWOULDBLOCK` is `EAGAIN`.
abbrev pub eintr : ℕ
eintr = 4

abbrev pub enxio : ℕ
enxio = 6

abbrev pub ebadf : ℕ
ebadf = 9

abbrev pub eagain : ℕ
eagain = 11

abbrev pub enodev : ℕ
enodev = 19

abbrev pub epipe : ℕ
epipe = 32

abbrev pub enetdown : ℕ
enetdown = 100

abbrev pub enobufs : ℕ
enobufs = 105

-- The environment under the name that modules which have two kinds of them use.
abbrev pub CanEnv : Network → Type 0
CanEnv N = Env N
