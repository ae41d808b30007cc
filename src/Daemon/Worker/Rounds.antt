-- ===== src/Daemon/Worker/Rounds.antt =====
-- What a round of the daemon's loops does on every path.

use hy_can.Message.{NetlinkRequest, NetlinkResponse}
use hy_can.Daemon.Worker.{Layout, worker_round, serve, refuse, receive_request, with_connection}
use hy_can.Daemon.Sessions.{ClientSession}
use hy_can.UnixSocket.Ownership.{
  owned, Accounts, owned_result, close-IsClosed, accept_lem, recv-Accounts, send-Accounts,
}
use hy_can.UnixSocket.{send, UnixSocket, accept, recv}
use hy_can.UnixSocket.Syscalls.{Env, Posix}
use hy_can.Base.{
  ℤ, int_eq_iff, ◌≢◌, is_some, Text, pos, int_eq, if◌then◌else◌, Bool-cases, ℕ, ◌≡◌, refl, ◌⊎◌, inl,
  inr, Option, none, some, arith,
}

module _ (P : Posix) (layout : Layout) {S : Type 0}
    (process : NetlinkRequest → S → NetlinkResponse × S) where
  -- What comes of what was received: the request is processed if all of its bytes came, and nothing is
  -- otherwise.
  abbrev pub IsAnswered : S → ℤ × Text → Option NetlinkResponse × S → Type 0
  IsAnswered state received r =
      ((received.0 ≡ pos layout.request_size)
        × (r.0 ≡ some (process (layout.decode_request received.1) state).0)
        × (r.1 ≡ (process (layout.decode_request received.1) state).1))
      ⊎ ((received.0 ≢ pos layout.request_size) × (r.0 ≡ none) × (r.1 ≡ state))

  -- What a round comes to, by the connection that it has accepted, if any.
  abbrev pub IsRound : S → Option UnixSocket × Env P → Option NetlinkResponse × S → Type 0
  IsRound state (none, e) r = (r.0 ≡ none) × (r.1 ≡ state)
  IsRound state (some connection, e) r =
      IsAnswered state (recv P connection layout.request_size 1000 e).0 r

module _ (d : ℤ) (P : Posix) (layout : Layout) where
  module _ {S : Type 0} (process : NetlinkRequest → S → NetlinkResponse × S) where
    serve_lem :
        (connection : UnixSocket) (bytes : Text) (state : S) (e : Env P)
        → let r = serve P layout process connection bytes state e in
          (r.0 ≡ (let p = process (layout.decode_request bytes) state in (some p.0, p.1)))
          × Accounts d e (owned d connection) r.1 0
    unfolding serve
    serve_lem connection bytes state e =
        let answer = process (layout.decode_request bytes) state in
        let sent = send P connection (layout.encode_response answer.0) e in
        (
          refl,
          ground (
            arith,
            send-Accounts d P connection (layout.encode_response answer.0) e,
            close-IsClosed d P connection sent.1,
          ),
        )

    receive_request_lem :
        (connection : UnixSocket) (state : S) (e : Env P)
        → let r = receive_request P layout process connection state e in
          IsAnswered P layout process state (recv P connection layout.request_size 1000 e).0 r.0
          × Accounts d e (owned d connection) r.1 0
    unfolding receive_request refuse
    receive_request_lem connection state e =
        let v = recv P connection layout.request_size 1000 e in
        let a = recv-Accounts d P connection layout.request_size 1000 e in
        elim (Bool-cases (int_eq v.0.0 (pos layout.request_size))) [
          | inl whole ↦
              let served = serve_lem connection v.0.1 state v.1 in
              (
                inl (
                  (int_eq_iff v.0.0 (pos layout.request_size)).0 whole,
                  ground (arith, served.0),
                  ground (arith, served.0),
                ),
                ground (arith, a, served.1),
              )
          | inr part ↦ (
            inr (
              λ same. ground (arith, part, (int_eq_iff v.0.0 (pos layout.request_size)).1 same),
              ground arith,
              ground arith,
            ),
            ground (arith, a, close-IsClosed d P connection v.1),
          )
        ]

    with_connection_lem :
        (connection : Option UnixSocket) (state : S) (e : Env P)
        → let r = with_connection P layout process connection state e in
          IsRound P layout process state (connection, e) r.0
          × Accounts d e (owned_result d connection) r.1 0
    unfolding with_connection
    with_connection_lem none state e = ((refl, refl), omega arith)
    with_connection_lem (some connection) state e = receive_request_lem connection state e

    -- A round of a client's worker processes the request of the connection that it has accepted when
    -- all bytes of the request came, and processes nothing and leaves the kernel's interfaces alone
    -- when no connection came or fewer bytes did. It changes nothing of the session but the time of its
    -- last activity, and on every path each descriptor that it has opened it has closed, and no other.
    pub worker_round_lem :
        (now : ℕ) (session : ClientSession) (state : S) (e : Env P)
        → let r = worker_round P layout process now session state e in
          IsRound P layout process state (accept P session.socket 1000 e) (r.0.1, r.0.2)
          × (r.0.0 ≡ (if is_some r.0.1 then record session { last_activity = now } else session))
          × Accounts d e 0 r.1 0
    unfolding worker_round
    worker_round_lem now session state e =
        let c = accept P session.socket 1000 e in
        let w = with_connection_lem c.0 state c.1 in
        (w.0, refl, ground (arith, w.1, accept_lem d P session.socket 1000 e))
