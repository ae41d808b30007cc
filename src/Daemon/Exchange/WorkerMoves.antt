-- ===== src/Daemon/Exchange/WorkerMoves.antt =====
-- The moves of a worker keep what holds between the history, the channels and the clients.
use hy_can.Message.{NetlinkRequest, NetlinkResponse}
use hy_can.Daemon.Exchange.Updates.{channel_change, channel-IsPlaced}
use hy_can.Daemon.Exchange.Channels.{
  close_at, close-Agrees, close-IsChannel, accept-IsChannel, work-Agrees, work-IsChannel,
}
use hy_can.Daemon.Exchange.Bookkeeping.{
  same_served, InHistory, processed_as, IsBehind, served, IsServed, HasRequest, IsChannel,
  IsExchange, put_same, put-Agrees, IsClient-keeps, IsChannel-longer, served-put,
}
use hy_can.Daemon.Exchange.{
  WorkerPlace, worker_waits, worker_accepted, worker_received, worker_responds, Channel, Processed,
  Exchange, put, accept_next, receive_from, process_next, close_with, worker_turn, drop_connection,
}
use hy_can.Base.{
  All, leb, ◌==◌, Bool-cases, if-cases, ℕ, suc, ◌≤◌, ◌<◌, subst, ◌≡◌, refl, sym, inl, inr, Option,
  none, some, List, [], ◌∷◌, arith,
}

module _ {S : Type 0} (process : NetlinkRequest → S → NetlinkResponse × S) (first : S) where
  accept_next-IsExchange :
      (s : Exchange S) (c : ℕ)
      → (s.channels c).worker ≡ worker_waits
      → IsExchange process first s
      → IsExchange process first (accept_next process c (s.channels c) s)
  unfolding accept_next
  accept_next-IsExchange s c e h =
      let ch = s.channels c in
      let good = h.good_channel c in
      if-cases (IsExchange process first) (leb ch.arrived ch.taken) s _ (λ empty. h)
        (λ more.
          channel_change process first s c
            (record ch { taken = suc ch.taken; worker = worker_accepted ch.taken }) h
            (accept-IsChannel s.history c ch good (ground (arith, more)))
            (omega (arith, same_served ch worker_waits e))
            (λ u. work-Agrees s.history c ch good u (suc ch.taken) (worker_accepted ch.taken)))

  receive_from-IsExchange :
      (request : Option NetlinkRequest) (s : Exchange S) (c k : ℕ)
      → (s.channels c).worker ≡ worker_accepted k
      → ((s.channels c).connections k).request ≡ request
      → IsExchange process first s
      → IsExchange process first (receive_from process request c k s)
  unfolding receive_from
  receive_from-IsExchange none s c k e has h = h
  receive_from-IsExchange (some request) s c k e has h =
      let ch = s.channels c in
      let good = h.good_channel c in
      channel_change process first s c (record ch { worker = worker_received k request }) h
        (work-IsChannel s.history c ch good (worker_received k request)
          (channel-IsPlaced process first s c (worker_accepted k) h e, has))
        (omega (arith, same_served ch (worker_accepted k) e))
        (λ u. work-Agrees s.history c ch good u ch.taken (worker_received k request))

  close_with-IsExchange :
      (response : Option NetlinkResponse) (s : Exchange S) (c k : ℕ)
      → suc k ≡ (s.channels c).taken
      → ((r : NetlinkResponse)
          → response ≡ some r
          → (request : NetlinkRequest) × HasRequest (s.channels c) k request
            × InHistory (processed_as c k request r) s.history)
      → served (s.channels c) ≤ (s.channels c).taken
      → IsExchange process first s
      → IsExchange process first (close_with process response c k s)
  unfolding close_with
  close_with-IsExchange response s c k last answers more h =
      let ch = s.channels c in
      let good = h.good_channel c in
      channel_change process first s c (close_at response k ch) h
        (close-IsChannel s.history c ch good k response answers) more
        (close-Agrees s.history c ch good k response)

  history-IsBehind :
      (channels : ℕ → Channel) (history : List Processed) (p : Processed)
      → All (IsServed channels) history
      → served (channels p.channel) ≤ p.number
      → All (IsBehind p) history
  history-IsBehind channels [] p h low = tt
  history-IsBehind channels (q ∷ history) p h low = (
    λ e.
        subst (λ c. served (channels c) ≤ p.number → q.number < p.number) e
          (λ le. omega (arith, h.0)) low,
    history-IsBehind channels history p h.1 low,
  )

  process_next-IsExchange :
      (s : Exchange S) (c k : ℕ) (request : NetlinkRequest)
      → (s.channels c).worker ≡ worker_received k request
      → IsExchange process first s
      → IsExchange process first (process_next process c k request s)
  unfolding process_next
  process_next-IsExchange s c k request e h =
      let ch = s.channels c in
      let r = process request s.kernel in
      let p = processed_as c k request r.0 in
      let ch' : Channel = record ch { worker = worker_responds k r.0 } in
      let at = channel-IsPlaced process first s c (worker_received k request) h e in
      let before = same_served ch (worker_received k request) e in
      let good' = IsChannel-longer p s.history c ch (h.good_channel c) in
      let new : IsChannel (p ∷ s.history) c ch' =
        work-IsChannel (p ∷ s.history) c ch good' (worker_responds k r.0)
          (at.0, request, at.1, inl refl) in
      record {
        in_order = (
          history-IsBehind s.channels s.history p h.served_before (omega (arith, before)),
          h.in_order,
        );
        served_before = (
          subst (λ (f : Channel). k < served f) (sym (put_same s.channels c ch'))
              (omega (arith, at.0)),
          served-put s.history s.channels c ch' (omega (arith, before, at.0)) h.served_before,
        );
        replayed = (s.kernel, h.replayed, refl);
        good_channel = λ x. elim (Bool-cases (c == x)) [
          | inl same ↦
              rw same (subst (λ y. IsChannel (p ∷ s.history) y ch') (ground (arith, same)) new)
          | inr other ↦ rw other (IsChannel-longer p s.history x (s.channels x) (h.good_channel x))
        ];
        good_client = λ u.
            IsClient-keeps s.history (p ∷ s.history) s.channels (put s.channels c ch') u
              (s.clients u) (λ q m. inr m)
              (put-Agrees u c s.channels ch'
                (work-Agrees s.history c ch (h.good_channel c) u ch.taken (worker_responds k r.0)))
              (h.good_client u);
      }

  pub worker_turn-IsExchange :
      (place : WorkerPlace) (c : ℕ) (s : Exchange S)
      → (s.channels c).worker ≡ place
      → IsExchange process first s
      → IsExchange process first (worker_turn process place c s)
  unfolding worker_turn
  worker_turn-IsExchange worker_waits c s e h = accept_next-IsExchange s c e h
  worker_turn-IsExchange (worker_accepted k) c s e h = receive_from-IsExchange _ s c k e refl h
  worker_turn-IsExchange (worker_received k request) c s e h =
      process_next-IsExchange s c k request e h
  worker_turn-IsExchange (worker_responds k response) c s e h =
      let (last, request, has, done) =
        channel-IsPlaced process first s c (worker_responds k response) h e in
      close_with-IsExchange (some response) s c k last
        (λ r same.
          (request, has, subst (λ q. InHistory (processed_as c k request q) s.history) (cc) done))
        (omega (arith, same_served (s.channels c) (worker_responds k response) e)) h

  pub drop_connection-IsExchange :
      (place : WorkerPlace) (c : ℕ) (s : Exchange S)
      → (s.channels c).worker ≡ place
      → IsExchange process first s
      → IsExchange process first (drop_connection process place c s)
  unfolding drop_connection
  drop_connection-IsExchange (worker_accepted k) c s e h =
      let last = channel-IsPlaced process first s c (worker_accepted k) h e in
      close_with-IsExchange none s c k last (λ r never. absurd (ground (arith, never)))
        (omega (arith, last, same_served (s.channels c) (worker_accepted k) e)) h
  drop_connection-IsExchange worker_waits c s e h = h
  drop_connection-IsExchange (worker_received k request) c s e h = h
  drop_connection-IsExchange (worker_responds k response) c s e h = h
