-- ===== src/Netlink/Manager/Lifecycle.antt =====
-- `initialize` and `cleanup` of NetlinkManager.

use hy_can.Netlink.Manager.{NetlinkManager, empty_manager, initialize, cleanup}
use hy_can.Netlink.Libnl.{Libnl, Env}
use hy_can.Netlink.Balance.{Balanced}
use hy_can.Base.{
  ◌==◌, if◌then◌else◌, refl, is_negative, Option-cases, ℕ, ◌+◌, ◌≡◌, inl, inr, true, none, some,
  arith,
}

module _ (L : Libnl) where
  -- How often the manager holds the object of address `a`.
  abbrev pub held_socket : NetlinkManager L → ℕ → ℕ
  held_socket m a = elim m.nl_socket [ none ↦ 0 | some s ↦ if L.sock_address s == a then 1 else 0 ]

  abbrev pub held_cache : NetlinkManager L → ℕ → ℕ
  held_cache m a = elim m.link_cache [ none ↦ 0 | some c ↦ if L.cache_address c == a then 1 else 0 ]

  -- The socket and the cache that the manager points to are all that is owed.
  pub record Owes (m : NetlinkManager L) (e e' : Env L) : Type 0 where
    pub links : (a : ℕ) → e'.links_taken a + e.links_put a ≡ e.links_taken a + e'.links_put a
    pub sockets :
        (a : ℕ)
        → e'.sockets_taken a + e.sockets_freed a
          ≡ held_socket m a + (e.sockets_taken a + e'.sockets_freed a)
    pub caches :
        (a : ℕ)
        → e'.caches_taken a + e.caches_freed a
          ≡ held_cache m a + (e.caches_taken a + e'.caches_freed a)

  -- Whether it succeeds or fails, `initialize` owes what its two pointers hold and nothing else, if
  -- a cache that could not be allocated is not there.
  pub initialize-Owes :
      ((s : L.Sock) (w : L.World)
        → is_negative (L.alloc_cache s w).0.0 ≡ true
        → (L.alloc_cache s w).0.1 ≡ none)
      → (e : Env L) → Owes (initialize L e).0.1 e (initialize L e).1
  unfolding initialize
  initialize-Owes no_cache e = elim (Option-cases (L.socket_alloc e.world)) [
    | inl q ↦ record {
      links = λ a. ground arith;
      sockets = λ a. ground arith;
      caches = λ a. ground arith;
    }
    | inr (s, q) ↦
        let lost = no_cache s (L.connect s e.world).1 in
        record {
          links = λ a. ground (arith, lost);
          sockets = λ a. ground (arith, lost);
          caches = λ a. ground (arith, lost);
        }
  ]

  -- `cleanup` pays what the manager holds, and forgets both pointers.
  pub cleanup-Balanced :
      (m : NetlinkManager L) (e e' : Env L)
      → Owes m e e'
      → Balanced e (cleanup L m e').1 × ((cleanup L m e').0 ≡ empty_manager L)
  unfolding cleanup
  cleanup-Balanced m e e' o = (
    record {
      links = λ a. ground (arith, o.links a);
      sockets = λ a. ground (arith, o.sockets a);
      caches = λ a. ground (arith, o.caches a);
    },
    refl,
  )
