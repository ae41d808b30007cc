-- ===== src/Daemon/Exchange/Updates.antt =====
-- A move changes one channel, one client, or both.
use hy_can.Message.{NetlinkRequest, NetlinkResponse}
use hy_can.Daemon.Exchange.Bookkeeping.{
  served, IsPlaced, IsChannel, IsClient, IsExchange, Agrees, put-Agrees, IsClient-keeps, served-put,
}
use hy_can.Daemon.Exchange.{
  WorkerPlace, ClientPlace, Channel, Exchange, put, place_client, place_channel,
}
use hy_can.Base.{◌==◌, Bool-cases, ℕ, ◌≤◌, subst, ◌≡◌, inl, inr, false, arith}

module _ {S : Type 0} (process : NetlinkRequest → S → NetlinkResponse × S) (first : S) where
  pub put_channel :
      (s : Exchange S) (c : ℕ) (ch' : Channel)
      → IsExchange process first s
      → IsChannel s.history c ch'
      → (x : ℕ) → IsChannel s.history x (put s.channels c ch' x)
  put_channel s c ch' h good x = elim (Bool-cases (c == x)) [
    | inl same ↦ rw same (subst (λ y. IsChannel s.history y ch') (ground (arith, same)) good)
    | inr other ↦ rw other (h.good_channel x)
  ]

  -- A channel and a client change; the other clients find their connections as they were.
  pub both_change :
      (s : Exchange S) (c : ℕ) (ch' : Channel) (t : ℕ) (place : ClientPlace)
      → IsExchange process first s
      → IsChannel s.history c ch'
      → served (s.channels c) ≤ served ch'
      → ((u : ℕ) → (t == u) ≡ false → Agrees u (s.channels c) ch')
      → IsClient s.history (put s.channels c ch') t place
      → IsExchange process first
          (record s { channels = put s.channels c ch'; clients = put s.clients t place })
  both_change s c ch' t place h good more agrees own = record {
    in_order = h.in_order;
    served_before = served-put s.history s.channels c ch' more h.served_before;
    replayed = h.replayed;
    good_channel = put_channel s c ch' h good;
    good_client = λ u. elim (Bool-cases (t == u)) [
      | inl same ↦ rw same (
          subst (λ x. IsClient s.history (put s.channels c ch') x place) (ground (arith, same)) own)
      | inr other ↦ rw other (
          IsClient-keeps s.history s.history s.channels (put s.channels c ch') u (s.clients u)
            (λ p m. m) (put-Agrees u c s.channels ch' (agrees u other)) (h.good_client u))
    ];
  }

  pub channel_change :
      (s : Exchange S) (c : ℕ) (ch' : Channel)
      → IsExchange process first s
      → IsChannel s.history c ch'
      → served (s.channels c) ≤ served ch'
      → ((u : ℕ) → Agrees u (s.channels c) ch')
      → IsExchange process first (place_channel process s c ch')
  channel_change s c ch' h good more agrees = record {
    in_order = h.in_order;
    served_before = served-put s.history s.channels c ch' more h.served_before;
    replayed = h.replayed;
    good_channel = put_channel s c ch' h good;
    good_client = λ u.
        IsClient-keeps s.history s.history s.channels (put s.channels c ch') u (s.clients u)
          (λ p m. m) (put-Agrees u c s.channels ch' (agrees u)) (h.good_client u);
  }

  pub client_change :
      (s : Exchange S) (t : ℕ) (place : ClientPlace)
      → IsExchange process first s
      → IsClient s.history s.channels t place
      → IsExchange process first (place_client process s t place)
  client_change s t place h own = record {
    in_order = h.in_order;
    served_before = h.served_before;
    replayed = h.replayed;
    good_channel = h.good_channel;
    good_client = λ u. elim (Bool-cases (t == u)) [
      | inl same ↦
          rw same (subst (λ x. IsClient s.history s.channels x place) (ground (arith, same)) own)
      | inr other ↦ rw other (h.good_client u)
    ];
  }

  pub channel-IsPlaced :
      (s : Exchange S) (c : ℕ) (place : WorkerPlace)
      → IsExchange process first s
      → (s.channels c).worker ≡ place
      → IsPlaced s.history c (s.channels c) place
  channel-IsPlaced s c place h e =
      subst (IsPlaced s.history c (s.channels c)) e (h.good_channel c).placed

  pub thread-IsClient :
      (s : Exchange S) (t : ℕ) (place : ClientPlace)
      → IsExchange process first s
      → s.clients t ≡ place
      → IsClient s.history s.channels t place
  thread-IsClient s t place h e = subst (IsClient s.history s.channels t) e (h.good_client t)
