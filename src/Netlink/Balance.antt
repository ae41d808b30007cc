-- ===== src/Netlink/Balance.antt =====
-- The books of a call: what it has taken from libnl, it has given back.
use hy_can.Base.{ℕ, refl, ◌+◌, ◌≡◌, arith}
use hy_can.Netlink.Libnl.{Libnl, Env}

-- Between the two environments every link object, socket and cache was given back as often as it was
-- taken, each by its address.
pub record Balanced {L : Libnl} (e e' : Env L) : Type 0 where
  pub links : (a : ℕ) → e'.links_taken a + e.links_put a ≡ e.links_taken a + e'.links_put a
  pub sockets :
      (a : ℕ) → e'.sockets_taken a + e.sockets_freed a ≡ e.sockets_taken a + e'.sockets_freed a
  pub caches : (a : ℕ) → e'.caches_taken a + e.caches_freed a ≡ e.caches_taken a + e'.caches_freed a

pub Balanced-refl : {L : Libnl} (e : Env L) → Balanced e e
Balanced-refl e = record { links = λ a. refl; sockets = λ a. refl; caches = λ a. refl }

pub Balanced-trans : {L : Libnl} {a b c : Env L} → Balanced a b → Balanced b c → Balanced a c
Balanced-trans p q = record {
  links = λ a. omega (arith, p.links a, q.links a);
  sockets = λ a. omega (arith, p.sockets a, q.sockets a);
  caches = λ a. omega (arith, p.caches a, q.caches a);
}
