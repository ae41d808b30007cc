-- ===== src/Daemon/Process/Clean.antt =====
-- What the daemon's process leaves outside itself when it ends.
use hy_can.Netlink.Manager.Lifecycle.{Owes, initialize-Owes, cleanup-Balanced}
use hy_can.Netlink.Libnl.{Libnl, LibnlEnv}
use hy_can.Netlink.Balance.{Balanced}
use hy_can.Daemon.Worker.{Layout}
use hy_can.Daemon.Process.{
  Daemon, Outside, construct_daemon, destruct_daemon, Run, Program, throw_with, with_manager,
  refused, served, no_daemon, ran,
}
use hy_can.Daemon.Life.Reachable.{Reach-IsSound, shut_down_lem}
use hy_can.Daemon.Life.{shut_down}
use hy_can.UnixSocket.Ownership.{
  owned, IsOpen, Accounts, unix_socket-IsClosed, close-IsClosed, initialize_lem,
}
use hy_can.Base.{
  pos, ℤ, ℤ, ℤ, ℤ, is_some, text, is_negative, if◌then◌else◌, Bool-cases, ℕ, subst, ◌≡◌, refl, inl,
  inr, Bool, true, ◌&&◌, Option, none, some, arith,
}
use hy_can.Netlink.Manager.{NetlinkManager, initialize as manager_initialize}
use hy_can.UnixSocket.{server, unix_socket, initialize}
use hy_can.UnixSocket.Syscalls.{Posix}

module _ (P : Posix) (L : Libnl) where
  -- A cache that could not be allocated is not there.
  abbrev pub HasNoLostCache : Type 0
  HasNoLostCache =
      (s : L.Sock) (w : L.World)
      → is_negative (L.alloc_cache s w).0.0 ≡ true
      → (L.alloc_cache s w).0.1 ≡ none

  -- Nothing outside is held that was not held before.
  pub record IsClean (o o' : Outside P L) : Type 0 where
    pub descriptors : (d : ℤ) → Accounts d o.env 0 o'.env 0
    pub balanced : Balanced o.netlink o'.netlink

  -- What a constructed daemon holds: its main socket, and the socket and the cache of its manager.
  pub record Holds (d : Daemon P L) (o o' : Outside P L) : Type 0 where
    pub socket : (fd : ℤ) → Accounts fd o.env 0 o'.env (owned fd d.main_socket)
    pub manager : Owes L d.manager o.netlink o'.netlink
    pub listening : IsOpen d.main_socket

  abbrev pub IsConstructed : Outside P L → Outside P L → Option (Daemon P L) → Type 0
  IsConstructed o o' none = IsClean o o'
  IsConstructed o o' (some d) = Holds d o o'

  with_manager_lem :
      (can_spawn : Bool) (manager : NetlinkManager L) (o p : Outside P L)
      → p.env ≡ o.env
      → Owes L manager o.netlink p.netlink
      → let r = with_manager P L can_spawn manager p in IsConstructed o r.1 r.0
  unfolding with_manager throw_with
  with_manager_lem can_spawn manager o p same owes =
      let socket = unix_socket (text "daemon") server in
      let i = initialize P socket p.env in
      let books =
        λ (d : ℤ). initialize_lem d P socket p.env (unix_socket-IsClosed (text "daemon") server) in
      let c = λ (d : ℤ). close-IsClosed d P i.0.1 i.1 in
      let m = cleanup-Balanced L manager o.netlink p.netlink owes in
      elim (Bool-cases (i.0.0 && can_spawn)) [
        | inl done ↦ rw done (record {
          socket = λ d. ground (arith, books d, same);
          manager = owes;
          listening = ground (arith, books (pos 0), done);
        })
        | inr failed ↦
            rw failed
              (record { descriptors = λ d. ground (arith, books d, c d, same); balanced = m.0 })
      ]

  construct_daemon_lem :
      (can_spawn : Bool) (o : Outside P L)
      → HasNoLostCache
      → let r = construct_daemon P L can_spawn o in IsConstructed o r.1 r.0
  unfolding construct_daemon
  construct_daemon_lem can_spawn o no_lost =
      let i = manager_initialize L o.netlink in
      let owes = initialize-Owes L no_lost o.netlink in
      let m = cleanup-Balanced L i.0.1 o.netlink i.1 owes in
      elim (Bool-cases (is_negative i.0.0)) [
        | inl negative ↦ rw negative (record { descriptors = λ d. refl; balanced = m.0 })
        | inr done ↦
            rw done (with_manager_lem can_spawn i.0.1 o (record o { netlink = i.1 }) refl owes)
      ]

  IsConstructed-none :
      (o q : Outside P L) (x : Option (Daemon P L)) → x ≡ none → IsConstructed o q x → IsClean o q
  IsConstructed-none o q none e h = h
  IsConstructed-none o q (some d) e h = cc

  IsConstructed-some :
      (o q : Outside P L) (x : Option (Daemon P L)) (d : Daemon P L)
      → x ≡ some d
      → IsConstructed o q x
      → Holds d o q
  IsConstructed-some o q none d e h = cc
  IsConstructed-some o q (some b) d e h = let same : b ≡ d = cc in subst (λ a. Holds a o q) same h

  destruct_daemon_lem :
      (d : Daemon P L) (o p : Outside P L) → Holds d o p → IsClean o (destruct_daemon P L d p)
  unfolding destruct_daemon
  destruct_daemon_lem d o p h = record {
    descriptors = λ fd. omega (arith, h.socket fd, (close-IsClosed fd P d.main_socket p.env).1);
    balanced = (cleanup-Balanced L d.manager o.netlink p.netlink h.manager).0;
  }

  Owes-trans :
      (manager : NetlinkManager L) (a b c : LibnlEnv L)
      → Owes L manager a b
      → Balanced b c
      → Owes L manager a c
  Owes-trans manager a b c h k = record {
    links = λ x. omega (arith, h.links x, k.links x);
    sockets = λ x. omega (arith, h.sockets x, k.sockets x);
    caches = λ x. omega (arith, h.caches x, k.caches x);
  }

  Run-Holds :
      (layout : Layout) (d : Daemon P L) (is_root : Bool) (code : ℕ) (o p q : Outside P L)
      → Holds d o p
      → Run P L layout d p is_root code q
      → Holds d o q
  unfolding shut_down
  Run-Holds layout d _ _ o p _ h refused = h
  Run-Holds layout d _ _ o p _ h (served s reached) =
      let sound = Reach-IsSound P layout L d.manager p.env p.netlink s reached in
      let ended = λ (fd : ℤ). shut_down_lem P layout L d.manager fd p.env p.netlink s reached in
      record {
        socket = λ fd. omega (arith, h.socket fd, (ended fd).1);
        manager = Owes-trans d.manager o.netlink p.netlink _ h.manager sound.balanced;
        listening = h.listening;
      }

  Run-code :
      (layout : Layout) (d : Daemon P L) (is_root : Bool) (code : ℕ) (o p : Outside P L)
      → Run P L layout d o is_root code p
      → code ≡ (if is_root then 0 else 1)
  Run-code layout d _ _ o _ refused = refl
  Run-code layout d _ _ o _ (served s reached) = refl

  -- Whatever the machine answers and however the rounds interleave: when `main` returns, each
  -- descriptor was closed as often as the process opened it, and each object of libnl was given back as
  -- often as it was taken, if libnl leaves no cache behind that it could not allocate. The exit code is 0 when
  -- the daemon was constructed and runs as root, and otherwise 1.
  pub main-IsClean :
      (layout : Layout) (is_root can_spawn : Bool) (code : ℕ) (o o' : Outside P L)
      → HasNoLostCache
      → Program P L layout is_root can_spawn o code o'
      → IsClean o o'
        × (code ≡ (if is_some (construct_daemon P L can_spawn o).0 && is_root then 0 else 1))
  main-IsClean layout is_root can_spawn _ o _ no_lost (no_daemon thrown) =
      let c = construct_daemon_lem can_spawn o no_lost in
      (IsConstructed-none o _ _ thrown c, rw thrown)
  main-IsClean layout is_root can_spawn _ o _ no_lost (ran d code o' made run) =
      let p = construct_daemon P L can_spawn o in
      let c = construct_daemon_lem can_spawn o no_lost in
      let h = IsConstructed-some o p.1 p.0 d made c in
      (
        destruct_daemon_lem d o o' (Run-Holds layout d is_root code o p.1 o' h run),
        rw made (Run-code layout d is_root code p.1 o' run),
      )
