-- ===== src/UnixSocket/Syscalls.antt =====
-- The system calls on descriptors and paths that UnixSocket.cpp makes, and the state they pass on.
use hy_can.Base.{count_fd, Text, ℤ, is_minus_one, if◌then◌else◌, ℕ, ◌*◌, ◌/◌, ◌%◌, List, ◌∷◌}

-- `timeval`
pub record Timeval : Type 0 where
  pub tv_sec : ℕ
  pub tv_usec : ℕ

abbrev pub timeval_of : ℕ → Timeval
timeval_of timeout_ms = record { tv_sec = timeout_ms / 1000; tv_usec = (timeout_ms % 1000) * 1000 }

pub record Posix : Type 1 where
  pub World : Type 0
  pub socket : World → ℤ × World
  pub bind : ℤ → Text → World → ℤ × World
  pub listen : ℤ → ℕ → World → ℤ × World
  pub chmod : Text → ℕ → World → ℤ × World
  pub connect : ℤ → Text → World → ℤ × World
  pub unlink : Text → World → World
  pub close : ℤ → World → World
  pub select : ℤ → Timeval → World → ℤ × World
  pub accept : ℤ → World → ℤ × World
  pub send : ℤ → Text → World → ℤ × World
  pub recv : ℤ → ℕ → World → (ℤ × Text) × World

-- The world, how often each descriptor was opened and closed, and the paths that were unlinked, the
-- latest first.
pub record Env (P : Posix) : Type 0 where
  pub world : P.World
  pub opened : ℤ → ℕ
  pub closed : ℤ → ℕ
  pub unlinked : List Text

abbrev pub M : Posix → Type 0 → Type 0
M P A = Env P → A × Env P

abbrev pub pure : {P : Posix} {A : Type 0} → A → M P A
pure a e = (a, e)

infixl 5 ◌>>=◌ ◌>>◌
abbrev pub ◌>>=◌ : {P : Posix} {A B : Type 0} → M P A → (A → M P B) → M P B
◌>>=◌ m f e = let r = m e in f r.0 r.1

abbrev pub ◌>>◌ : {P : Posix} {A B : Type 0} → M P A → M P B → M P B
m >> k = m >>= λ _. k

abbrev pub call : {P : Posix} {A : Type 0} → (P.World → A × P.World) → M P A
call f e = let r = f e.world in (r.0, record e { world = r.1 })

-- A call that returns a new descriptor, or -1.
abbrev pub open_call : {P : Posix} → (P.World → ℤ × P.World) → M P ℤ
open_call f e =
    let r = f e.world in
    (
      r.0,
      record e {
        world = r.1;
        opened = if is_minus_one r.0 then e.opened else count_fd r.0 e.opened;
      },
    )

abbrev pub close_call : {P : Posix} → ℤ → M P (Unit {0})
close_call {P} fd e = (tt, record e { world = P.close fd e.world; closed = count_fd fd e.closed })

abbrev pub unlink : {P : Posix} → Text → M P (Unit {0})
unlink {P} path e = (tt, record e { world = P.unlink path e.world; unlinked = path ∷ e.unlinked })
