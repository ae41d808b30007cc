-- ===== src/Daemon/Exchange/Served/Worker.antt =====
-- A turn of the worker of a channel brings it nearer to the connection, or has answered on it.
use hy_can.Daemon.Exchange.WorkerMoves.{worker_turn-IsExchange, drop_connection-IsExchange}
use hy_can.Message.{NetlinkRequest, NetlinkResponse}
use hy_can.Daemon.Exchange.Served.Turns.{
  place-IsAhead, accept-IsNearer, is_unsent, lacks_request, IsWaiting, IsServedBy, IsNearer,
  place-IsPast, receive-IsNearer, process-IsNearer, respond-IsNearer, drop-IsNearer, close_past,
}
use hy_can.Daemon.Exchange.Bookkeeping.{IsExchange, HasRequest, put_same}
use hy_can.Daemon.Exchange.{
  WorkerPlace, worker_waits, worker_accepted, worker_received, worker_responds, Channel, Exchange,
  put, worker_turn, drop_connection, accept_next, receive_from, process_next, close_with,
}
use hy_can.Base.{
  ◌≤◌, leb, if◌then◌else◌, if-cases, ℕ, suc, ◌<◌, subst, ◌≡◌, refl, sym, false, Option, none, some,
  arith,
}

module _ {S : Type 0} (process : NetlinkRequest → S → NetlinkResponse × S) where
  at_place : WorkerPlace → ℕ → Exchange S → Exchange S
  at_place place c s =
      if lacks_request place (s.channels c)
      then drop_connection process place c s
      else worker_turn process place c s

  -- `recv` times out exactly where no request comes.
  unfoldable pub worker_serves : ℕ → Exchange S → Exchange S
  unfolding at_place
  worker_serves c s = at_place (s.channels c).worker c s

  put_channel :
      (P : Channel → Type 0) (channels : ℕ → Channel) (c : ℕ) (ch' : Channel)
      → P ch'
      → P (put channels c ch' c)
  put_channel P channels c ch' h = subst P (sym (put_same channels c ch')) h

  module _ (s : Exchange S) (c k : ℕ) where
    -- What a turn keeps: the clients, and what is to be shown of the channel.
    abbrev pub Comes : (Channel → Type 0) → Exchange S → Type 0
    Comes P s' = (s'.clients ≡ s.clients) × P (s'.channels c)

    accepts :
        (P : Channel → Type 0)
        → ((s.channels c).arrived ≤ (s.channels c).taken → P (s.channels c))
        → ((s.channels c).taken < (s.channels c).arrived
            → P (record (s.channels c) {
              taken = suc (s.channels c).taken;
              worker = worker_accepted (s.channels c).taken;
            }))
        → Comes P (accept_next process c (s.channels c) s)
    unfolding accept_next
    accepts P h h' =
        let ch = s.channels c in
        if-cases (Comes P) (leb ch.arrived ch.taken) s _
          (λ empty. (refl, h (ground (arith, empty))))
          (λ more. (refl, put_channel P s.channels c _ (h' (ground (arith, more)))))

    receives :
        (P : Channel → Type 0) (j : ℕ) (request : Option NetlinkRequest)
        → is_unsent request ≡ false
        → ((r : NetlinkRequest) → P (record (s.channels c) { worker = worker_received j r }))
        → Comes P (receive_from process request c j s)
    unfolding receive_from
    receives P j none sent h = absurd (ground (arith, sent))
    receives P j (some r) sent h = (refl, put_channel P s.channels c _ (h r))

    serves_at :
        (place : WorkerPlace) (request : NetlinkRequest)
        → (s.channels c).worker ≡ place
        → k < (s.channels c).arrived
        → HasRequest (s.channels c) k request
        → IsWaiting k (s.channels c)
        → Comes (IsNearer k (s.channels c)) (at_place place c s)
    unfolding at_place worker_turn drop_connection close_with process_next
    serves_at worker_waits request e low has h =
        let ch = s.channels c in
        let at = place-IsAhead k ch worker_waits e h in
        accepts (IsNearer k ch) (λ empty. absurd (omega (arith, low, at)))
          (λ more. accept-IsNearer k ch e h)
    serves_at (worker_accepted j) request e low has h =
        let ch = s.channels c in
        if-cases (Comes (IsNearer k ch)) (is_unsent (ch.connections j).request) _ _
          (λ unsent. (
            refl,
            put_channel (IsNearer k ch) s.channels c _
                (drop-IsNearer k ch j request e unsent has h),
          ))
          (λ sent.
            receives (IsNearer k ch) j (ch.connections j).request sent
              (λ r. receive-IsNearer k ch j r e h))
    serves_at (worker_received j r) request e low has h =
        let ch = s.channels c in
        (
          refl,
          put_channel (IsNearer k ch) s.channels c _
              (process-IsNearer k ch j r (process r s.kernel).0 e h),
        )
    serves_at (worker_responds j r) request e low has h =
        let ch = s.channels c in
        (refl, put_channel (IsNearer k ch) s.channels c _ (respond-IsNearer k ch j r e h))

    stays_at :
        (place : WorkerPlace)
        → (s.channels c).worker ≡ place
        → IsServedBy k (s.channels c)
        → Comes (IsServedBy k) (at_place place c s)
    unfolding at_place worker_turn drop_connection close_with process_next
    stays_at worker_waits e h =
        let past = place-IsPast k (s.channels c) worker_waits e h in
        accepts (IsServedBy k) (λ empty. h) (λ more. ((refl, past), h.1, h.2))
    stays_at (worker_accepted j) e h =
        let ch = s.channels c in
        let past = place-IsPast k ch (worker_accepted j) e h in
        if-cases (Comes (IsServedBy k)) (is_unsent (ch.connections j).request) _ _
          (λ unsent. (
            refl,
            put_channel (IsServedBy k) s.channels c _ (close_past k ch j none past.0 past.1 h),
          ))
          (λ sent.
            receives (IsServedBy k) j (ch.connections j).request sent (λ r. (past, h.1, h.2)))
    stays_at (worker_received j r) e h =
        let past = place-IsPast k (s.channels c) (worker_received j r) e h in
        (refl, put_channel (IsServedBy k) s.channels c _ (past, h.1, h.2))
    stays_at (worker_responds j r) e h =
        let past = place-IsPast k (s.channels c) (worker_responds j r) e h in
        (
          refl,
          put_channel (IsServedBy k) s.channels c _
              (close_past k (s.channels c) j (some r) past.0 past.1 h),
        )

    pub worker_serves-IsNearer :
        (request : NetlinkRequest)
        → k < (s.channels c).arrived
        → HasRequest (s.channels c) k request
        → IsWaiting k (s.channels c)
        → Comes (IsNearer k (s.channels c)) (worker_serves c s)
    unfolding worker_serves
    worker_serves-IsNearer request low has h =
        serves_at (s.channels c).worker request refl low has h

    pub worker_serves_stays : IsServedBy k (s.channels c) → Comes (IsServedBy k) (worker_serves c s)
    unfolding worker_serves
    worker_serves_stays h = stays_at (s.channels c).worker refl h

  pub worker_serves-IsExchange :
      (first : S) (s : Exchange S) (c : ℕ)
      → IsExchange process first s
      → IsExchange process first (worker_serves c s)
  unfolding worker_serves at_place
  worker_serves-IsExchange first s c h =
      if-cases (IsExchange process first) (lacks_request (s.channels c).worker (s.channels c)) _ _
        (λ unsent. drop_connection-IsExchange process first (s.channels c).worker c s refl h)
        (λ sent. worker_turn-IsExchange process first (s.channels c).worker c s refl h)
