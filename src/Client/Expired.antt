-- ===== src/Client/Expired.antt =====
-- A client whose session was dropped: the cleanup worker of src/Daemon/Daemon.cpp closes the socket of the
-- channel, and NetlinkClient of src/Interface/NetlinkClient.cpp goes on with the channel.
use hy_can.Util.Error.{Expected, is_ok}
use hy_can.Message.{NetlinkResponse, NetlinkRequest}
use hy_can.Client.Requests.{registered_for_good}
use hy_can.UnixSocket.{server, setup_address, initialize, client, UnixSocket, unix_socket, close}
use hy_can.Daemon.Sessions.Registration.{IsValid, IsListening, IsSession}
use hy_can.Daemon.Sessions.{
  ClientSession, Sessions, find_session, generate_client_channel_name, is_stale, cleanup_pass,
}
use hy_can.Client.{ClientLayout, request_on, send_request, bring_up_error, leave, NetlinkClient}
use hy_can.UnixSocket.Syscalls.{Env, Posix}
use hy_can.Base.{
  int_eq_iff, List, subst, refl, ◌∙◌, Text, text, c_str, ℤ, is_minus_one, int_eq, All, Bool-cases,
  ℕ, ◌≡◌, inl, inr, Bool, true, false, some, [], ◌∷◌, ◌++◌, arith,
}

-- As unlink(2) and connect(2) document them: a path that was unlinked is one at which nobody listens, until
-- a socket is bound to it, and `connect` to such a path fails.
pub record PathLaws (P : Posix) : Type 0 where
  pub listens : P.World → Text → Bool
  pub unlink-listens : (p : Text) (w : P.World) → listens (P.unlink p w) p ≡ false
  pub unlink_keeps :
      (p q : Text) (w : P.World) → listens w q ≡ false → listens (P.unlink p w) q ≡ false
  pub close_keeps :
      (fd : ℤ) (q : Text) (w : P.World) → listens w q ≡ false → listens (P.close fd w) q ≡ false
  pub socket_keeps :
      (q : Text) (w : P.World) → listens w q ≡ false → listens (P.socket w).1 q ≡ false
  pub connect_keeps :
      (fd : ℤ) (p q : Text) (w : P.World)
      → listens w q ≡ false
      → listens (P.connect fd p w).1 q ≡ false
  pub connect-refused :
      (fd : ℤ) (p : Text) (w : P.World)
      → listens w p ≡ false
      → is_minus_one (P.connect fd p w).0 ≡ true

abbrev pub channel_path : ℤ → Text
channel_path pid = c_str (text "/run/hycan_" ++ generate_client_channel_name pid)

-- A client that has registered and was given its channel.
abbrev pub registered_client : ℤ → NetlinkClient
registered_client pid = record {
  client_channel_name = generate_client_channel_name pid;
  registered = true;
}

module _ (P : Posix) (laws : PathLaws P) where
  abbrev pub IsGone : Text → Env P → Type 0
  IsGone q e = laws.listens e.world q ≡ false

  close-IsGone : (s : UnixSocket) (q : Text) (e : Env P) → IsGone q e → IsGone q (close P s e).1
  unfolding close
  close-IsGone s q e h = ground (
    arith,
    laws.close_keeps s.socket_fd q e.world h,
    laws.unlink_keeps (c_str s.socket_path) q e.world h,
    laws.unlink_keeps (c_str s.socket_path) q (P.close s.socket_fd e.world),
  )

  close_unlinks :
      (s : UnixSocket) (e : Env P) (c : ℕ) (cs : Text)
      → s.mode ≡ server
      → s.socket_path ≡ c ∷ cs
      → IsGone (c_str s.socket_path) (close P s e).1
  unfolding close
  close_unlinks s e c cs is_for_server path = ground (
    arith,
    laws.unlink-listens (c_str s.socket_path) e.world,
    laws.unlink-listens (c_str s.socket_path) (P.close s.socket_fd e.world),
  )

  channel_path-cons :
      (pid : ℤ)
      → (c : ℕ) × (cs : Text) × (text "/run/hycan_" ++ generate_client_channel_name pid ≡ c ∷ cs)
  unfolding text
  channel_path-cons pid = (_, _, refl)

  -- The socket of a channel unlinks its path.
  close-listening :
      (pid : ℤ) (s : UnixSocket) (e : Env P)
      → IsListening pid s
      → IsGone (channel_path pid) (close P s e).1
  close-listening pid s e h =
      let (c, cs, path) = channel_path-cons pid in
      subst (λ p. IsGone (c_str p) (close P s e).1) h.2 (close_unlinks s e c cs h.1 (h.2 ∙ path))

  cleanup_pass-IsGone :
      (alive : ℤ → Bool) (now : ℕ) (q : Text) (m : Sessions) (e : Env P)
      → IsGone q e
      → IsGone q (cleanup_pass P alive now m e).1
  unfolding cleanup_pass
  cleanup_pass-IsGone alive now q [] e h = h
  cleanup_pass-IsGone alive now q ((j, s) ∷ m) e h = ground (
    arith,
    close-IsGone s.socket q e h,
    cleanup_pass-IsGone alive now q m e h,
    cleanup_pass-IsGone alive now q m (close P s.socket e).1,
  )

  cleanup_pass-dropped :
      (alive : ℤ → Bool) (now : ℕ) (pid : ℤ) (session : ClientSession) (m : Sessions) (e : Env P)
      → All IsSession m
      → find_session pid m ≡ some session
      → is_stale alive now session ≡ true
      → IsGone (channel_path pid) (cleanup_pass P alive now m e).1
  unfolding cleanup_pass find_session
  cleanup_pass-dropped alive now pid session [] e valid found stale = absurd (ground (arith, found))
  cleanup_pass-dropped alive now pid session ((j, s) ∷ m) e valid found stale =
      elim (Bool-cases (int_eq j pid)) [
        | inl same ↦
            let here : j ≡ pid = (int_eq_iff j pid).0 same in
            let own : IsListening pid s.socket =
              subst (λ i. IsListening i s.socket) here valid.0.listening in
            let is_session : s ≡ session = ground (arith, found, same) in
            let gone =
              cleanup_pass-IsGone alive now (channel_path pid) m (close P s.socket e).1
                (close-listening pid s.socket e own) in
            ground (arith, gone, is_session, stale)
        | inr other ↦ ground (
          arith,
          found,
          other,
          cleanup_pass-dropped alive now pid session m e valid.1,
          cleanup_pass-dropped alive now pid session m (close P s.socket e).1 valid.1,
        )
      ]

  initialize-refused :
      (name : Text) (e : Env P)
      → IsGone (c_str (text "/run/hycan_" ++ name)) e
      → let r = initialize P (unix_socket name client) e in
        (r.0.0 ≡ false) × IsGone (c_str (text "/run/hycan_" ++ name)) r.1
  unfolding initialize setup_address unix_socket
  initialize-refused name e h =
      let q = c_str (text "/run/hycan_" ++ name) in
      let made = P.socket e.world in
      let joins = P.connect made.0 q made.1 in
      let kept = laws.socket_keeps q e.world h in
      ground (
        arith,
        kept,
        laws.connect-refused made.0 q made.1 kept,
        laws.connect_keeps made.0 q q made.1 kept,
        laws.close_keeps made.0 q made.1 kept,
        laws.close_keeps made.0 q joins.1,
      )

  module _ (layout : ClientLayout) (pid : ℤ) where
    request-refused :
        (request : NetlinkRequest) (e : Env P)
        → IsGone (channel_path pid) e
        → let r = send_request P layout pid request (registered_client pid) e in
          (is_ok r.0.0 ≡ false) × (r.0.1 ≡ registered_client pid) × IsGone (channel_path pid) r.1
    unfolding request_on leave bring_up_error
    request-refused request e h =
        let name = generate_client_channel_name pid in
        let i = initialize P (unix_socket name client) e in
        let refused = initialize-refused name e h in
        let direct = registered_for_good P layout pid request (registered_client pid) e refl in
        ground (arith, direct, refused, close-IsGone i.0.1 (channel_path pid) i.1 refused.1)

    -- The requests of a client, one after the other, and what each comes to.
    unfoldable pub ask_all :
        List NetlinkRequest
        → NetlinkClient
        → Env P
        → List (Expected NetlinkResponse) × NetlinkClient × Env P
    ask_all [] this e = ([], this, e)
    ask_all (request ∷ requests) this e =
        let r = send_request P layout pid request this e in
        let rest = ask_all requests r.0.1 r.1 in (r.0.0 ∷ rest.0, rest.1, rest.2)

    all-refused :
        (requests : List NetlinkRequest) (e : Env P)
        → IsGone (channel_path pid) e
        → let r = ask_all requests (registered_client pid) e in
          All (λ response. is_ok response ≡ false) r.0 × (r.1 ≡ registered_client pid)
    unfolding ask_all
    all-refused [] e h = (tt, refl)
    all-refused (request ∷ requests) e h =
        let r = send_request P layout pid request (registered_client pid) e in
        let one = request-refused request e h in
        let rest = all-refused requests r.1 one.2 in rw one.1 ((one.0, rest.0), rest.1)

  -- With paths that behave as documented: once the cleanup worker has dropped the session of a process,
  -- which was dead or idle for five minutes, every request fails that the client which had registered it
  -- makes after that pass, however many they are, and the client still takes itself for registered.
  pub expired_client_fails :
      (layout : ClientLayout) (alive : ℤ → Bool) (now : ℕ) (pid : ℤ) (session : ClientSession)
      (m : Sessions) (e : Env P) (requests : List NetlinkRequest)
      → IsValid m
      → find_session pid m ≡ some session
      → is_stale alive now session ≡ true
      → let r =
          ask_all layout pid requests (registered_client pid) (cleanup_pass P alive now m e).1 in
        All (λ response. is_ok response ≡ false) r.0 × (r.1 ≡ registered_client pid)
  expired_client_fails layout alive now pid session m e requests valid found stale =
      all-refused layout pid requests (cleanup_pass P alive now m e).1
        (cleanup_pass-dropped alive now pid session m e valid.sessions found stale)
