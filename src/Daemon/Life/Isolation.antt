-- ===== src/Daemon/Life/Isolation.antt =====
-- The sockets of the sessions under every interleaving of the daemon's rounds.
use hy_can.UnixSocket.Syscalls.{Posix, Env}
use hy_can.Netlink.Manager.{NetlinkManager}
use hy_can.Daemon.Worker.{Layout}
use hy_can.Daemon.Sessions.Registration.{IsListening, IsSession}
use hy_can.Daemon.Sessions.Channels.{append-cancel, generate-injective}
use hy_can.Daemon.Sessions.{ClientSession, Sessions, find_session}
use hy_can.Daemon.Life.Reachable.{Reach-IsSound}
use hy_can.Daemon.Life.{DaemonState, first_state, Reach}
use hy_can.Netlink.Libnl.{Libnl, LibnlEnv}
use hy_can.Base.{
  ◌≢◌, text, ℤ, int_eq, int_eq_iff, All, Bool-cases, subst, ◌≡◌, sym, ◌∙◌, ◌⊎◌, inl, inr, some, [],
  ◌∷◌, arith,
}

find-All :
    (pid : ℤ) (session : ClientSession) (m : Sessions)
    → All IsSession m
    → find_session pid m ≡ some session
    → IsSession (pid, session)
unfolding find_session
find-All pid session [] valid found = absurd (ground (arith, found))
find-All pid session ((j, s) ∷ m) valid found = elim (Bool-cases (int_eq j pid)) [
  | inl same ↦
      let here : j ≡ pid = (int_eq_iff j pid).0 same in
      let is_session : s ≡ session = ground (arith, found, same) in
      subst (λ i. IsSession (i, session)) here (subst (λ x. IsSession (j, x)) is_session valid.0)
  | inr other ↦ find-All pid session m valid.1 (ground (arith, found, other))
]

module _ (P : Posix) (layout : Layout) (L : Libnl) (manager : NetlinkManager L) where
  -- Whatever rounds the daemon has made, in whatever order: a session listens with an open socket on the
  -- path of its own process's channel, and no session of another process has its path, its channel
  -- or its process.
  pub Reach-isolated :
      (e : Env P) (n : LibnlEnv L) (s : DaemonState P layout L manager)
      → Reach P layout L manager (first_state P layout L manager e n) s
      → (p q : ℤ) (a b : ClientSession) → find_session p s.sessions ≡ some a
      → find_session q s.sessions ≡ some b
      → IsListening p a.socket
        × (a.client_pid ≡ p)
        × ((p ≡ q)
            ⊎ (a.socket.socket_path ≢ b.socket.socket_path) × (a.channel_name ≢ b.channel_name))
  Reach-isolated e n s reached p q a b found found' =
      let valid = (Reach-IsSound P layout L manager e n s reached).valid.sessions in
      let h = find-All p a s.sessions valid found in
      let h' = find-All q b s.sessions valid found' in
      (
        h.listening,
        h.own_pid,
        elim (Bool-cases (int_eq p q)) [
          | inl same ↦ inl ((int_eq_iff p q).0 same)
          | inr other ↦
              let apart : p ≢ q = λ e. ground (arith, other, (int_eq_iff p q).1 e) in
              inr (
                λ path. apart (
                    generate-injective p q (
                      append-cancel (text "/run/hycan_") _ _
                        (sym h.listening.2 ∙ path ∙ h'.listening.2))),
                λ channel.
                    apart (generate-injective p q (sym h.own_channel ∙ channel ∙ h'.own_channel)),
              )
        ],
      )
