-- ===== src/Daemon/Exchange/Served/Undisturbed.antt =====
-- What the moves of other threads and other workers leave of a request that waits for its answer.
use hy_can.Message.{NetlinkRequest, NetlinkResponse}
use hy_can.Daemon.Exchange.Channels.{arrive, ask_on}
use hy_can.Daemon.Exchange.{
  ExchangeMove, client_connects, connect_fails, client_goes, client_times_out, worker_goes,
  worker_times_out, place_client, connect_channel, exchange, receive_from, WorkerPlace,
  worker_waits, worker_accepted, worker_received, worker_responds, ClientPlace, client_rests,
  client_connected, client_sent, client_answered, client_gave_up, Channel, Exchange, put,
  is_in_request, client_step, give_up_waiting, worker_turn, drop_connection, send_on, read_on,
  accept_next, process_next, close_with,
}
use hy_can.Base.{
  Bool, Option, none, some, leb, ◌==◌, Bool-cases, if-cases, ℕ, ◌<◌, subst, ◌≡◌, refl, ap, inl, inr,
  true, false, arith,
}

-- Another thread than `t` and another worker than that of the channel `c` moves.
abbrev pub IsApart : ℕ → ℕ → ExchangeMove → Type 0
IsApart t c (client_connects u d request) = Unit {0}
IsApart t c (connect_fails u request) = Unit {0}
IsApart t c (client_goes u) = (u == t) ≡ false
IsApart t c (client_times_out u) = (u == t) ≡ false
IsApart t c (worker_goes d) = (d == c) ≡ false
IsApart t c (worker_times_out d) = (d == c) ≡ false

-- The worker of the channel, what it has accepted, and the response on the connection `k`.
pub record IsUndisturbed (k : ℕ) (ch ch' : Channel) : Type 0 where
  pub worker : ch'.worker ≡ ch.worker
  pub taken : ch'.taken ≡ ch.taken
  pub response : (ch'.connections k).response ≡ (ch.connections k).response

IsUndisturbed-refl : (k : ℕ) (ch : Channel) → IsUndisturbed k ch ch
IsUndisturbed-refl k ch = record { worker = refl; taken = refl; response = refl }

put-IsUndisturbed :
    (k d : ℕ) (channels : ℕ → Channel) (ch' : Channel)
    → (c : ℕ) → ((d == c) ≡ true → IsUndisturbed k (channels d) ch')
    → IsUndisturbed k (channels c) (put channels d ch' c)
put-IsUndisturbed k d channels ch' c h = elim (Bool-cases (d == c)) [
  | inl same ↦
      rw same (subst (λ x. IsUndisturbed k (channels x) ch') (ground (arith, same)) (h same))
  | inr other ↦ rw other (IsUndisturbed-refl k (channels c))
]

arrive-IsUndisturbed : (t k : ℕ) (ch : Channel) → k < ch.arrived → IsUndisturbed k ch (arrive t ch)
arrive-IsUndisturbed t k ch low =
    let apart : (ch.arrived == k) ≡ false = ground (arith, low) in
    record { worker = refl; taken = refl; response = rw apart refl }

ask-IsUndisturbed :
    (j k : ℕ) (request : NetlinkRequest) (ch : Channel) → IsUndisturbed k ch (ask_on j request ch)
ask-IsUndisturbed j k request ch = record {
  worker = refl;
  taken = refl;
  response = elim (Bool-cases (j == k)) [
    | inl same ↦ rw same (ap (λ i. (ch.connections i).response) (ground (arith, same)))
    | inr other ↦ rw other refl
  ];
}

module _ {S : Type 0} (process : NetlinkRequest → S → NetlinkResponse × S) where
  -- The thread `t` is where it was, and the channel `c` is undisturbed.
  abbrev pub Leaves : ℕ → ℕ → ℕ → Exchange S → Exchange S → Type 0
  Leaves t c k s s' = (s'.clients t ≡ s.clients t) × IsUndisturbed k (s.channels c) (s'.channels c)

  module _ (t c k : ℕ) (request : NetlinkRequest) (s : Exchange S)
      (waits : s.clients t ≡ client_sent c k request) (low : k < (s.channels c).arrived) where
    Leaves-refl : Leaves t c k s s
    Leaves-refl = (refl, IsUndisturbed-refl k (s.channels c))

    other_place :
        (u : ℕ) (place : ClientPlace) → (u == t) ≡ false → put s.clients u place t ≡ s.clients t
    other_place u place other = rw other refl

    -- The thread is in a request, so another one is at rest.
    idle_other : (u : ℕ) → is_in_request (s.clients u) ≡ false → (u == t) ≡ false
    idle_other u idle = elim (Bool-cases (u == t)) [
      | inl same ↦
          let busy : is_in_request (s.clients u) ≡ true =
            subst (λ x. is_in_request (s.clients x) ≡ true) (ground (arith, same))
              (ap is_in_request waits) in
          absurd (ground (arith, idle, busy))
      | inr other ↦ other
    ]

    read-Leaves :
        (response : Option NetlinkResponse) (is_closed : Bool) (u d j : ℕ) (r : NetlinkRequest)
        → (u == t) ≡ false
        → Leaves t c k s (read_on process response is_closed u d j r s)
    unfolding read_on
    read-Leaves (some response) is_closed u d j r other =
        (other_place u (client_answered d j r response) other, IsUndisturbed-refl k (s.channels c))
    read-Leaves none is_closed u d j r other =
        if-cases (Leaves t c k s) is_closed (place_client process s u (client_gave_up r)) s
          (λ closed. (other_place u (client_gave_up r) other, IsUndisturbed-refl k (s.channels c)))
          (λ open_yet. Leaves-refl)

    client-Leaves :
        (place : ClientPlace) (u : ℕ)
        → (u == t) ≡ false
        → Leaves t c k s (client_step process place u s)
    unfolding client_step send_on read_on
    client-Leaves client_rests u other = Leaves-refl
    client-Leaves (client_connected d j r) u other =
        if-cases (Leaves t c k s) ((s.channels d).connections j).is_closed _ _
          (λ closed. (other_place u (client_gave_up r) other, IsUndisturbed-refl k (s.channels c)))
          (λ open_yet. (
            other_place u (client_sent d j r) other,
            put-IsUndisturbed k d s.channels (ask_on j r (s.channels d)) c
                (λ same. ask-IsUndisturbed j k r (s.channels d)),
          ))
    client-Leaves (client_sent d j r) u other =
        read-Leaves ((s.channels d).connections j).response _ u d j r other
    client-Leaves (client_answered d j r response) u other = Leaves-refl
    client-Leaves (client_gave_up r) u other = Leaves-refl

    give_up-Leaves :
        (place : ClientPlace) (u : ℕ)
        → (u == t) ≡ false
        → Leaves t c k s (give_up_waiting process place u s)
    unfolding give_up_waiting
    give_up-Leaves (client_sent d j r) u other =
        (other_place u (client_gave_up r) other, IsUndisturbed-refl k (s.channels c))
    give_up-Leaves client_rests u other = Leaves-refl
    give_up-Leaves (client_connected d j r) u other = Leaves-refl
    give_up-Leaves (client_answered d j r response) u other = Leaves-refl
    give_up-Leaves (client_gave_up r) u other = Leaves-refl

    other_channel :
        (d : ℕ) (ch' : Channel)
        → (d == c) ≡ false
        → IsUndisturbed k (s.channels c) (put s.channels d ch' c)
    other_channel d ch' other =
        put-IsUndisturbed k d s.channels ch' c (λ same. absurd (ground (arith, same, other)))

    receive-Leaves :
        (r : Option NetlinkRequest) (d j : ℕ)
        → (d == c) ≡ false
        → Leaves t c k s (receive_from process r d j s)
    unfolding receive_from
    receive-Leaves none d j other = Leaves-refl
    receive-Leaves (some r) d j other = (refl, other_channel d _ other)

    worker-Leaves :
        (place : WorkerPlace) (d : ℕ)
        → (d == c) ≡ false
        → Leaves t c k s (worker_turn process place d s)
          × Leaves t c k s (drop_connection process place d s)
    unfolding worker_turn drop_connection accept_next process_next close_with
    worker-Leaves worker_waits d other = (
      if-cases (Leaves t c k s) (leb (s.channels d).arrived (s.channels d).taken) _ _
          (λ empty. Leaves-refl) (λ more. (refl, other_channel d _ other)),
      Leaves-refl,
    )
    worker-Leaves (worker_accepted j) d other = (
      receive-Leaves ((s.channels d).connections j).request d j other,
      (refl, other_channel d _ other),
    )
    worker-Leaves (worker_received j r) d other = ((refl, other_channel d _ other), Leaves-refl)
    worker-Leaves (worker_responds j r) d other = ((refl, other_channel d _ other), Leaves-refl)

    pub exchange-Leaves : (m : ExchangeMove) → IsApart t c m → Leaves t c k s (exchange process m s)
    unfolding exchange connect_channel
    exchange-Leaves (client_connects u d r) apart =
        if-cases (Leaves t c k s) (is_in_request (s.clients u)) s _ (λ busy. Leaves-refl)
          (λ idle. (
            other_place u (client_connected d (s.channels d).arrived r) (idle_other u idle),
            put-IsUndisturbed k d s.channels (arrive u (s.channels d)) c (λ same.
                arrive-IsUndisturbed u k (s.channels d)
                  (subst (λ x. k < (s.channels x).arrived) (ground (arith, same)) low)),
          ))
    exchange-Leaves (connect_fails u r) apart =
        if-cases (Leaves t c k s) (is_in_request (s.clients u)) s
          (place_client process s u (client_gave_up r)) (λ busy. Leaves-refl)
          (λ idle. (
            other_place u (client_gave_up r) (idle_other u idle),
            IsUndisturbed-refl k (s.channels c),
          ))
    exchange-Leaves (client_goes u) apart = client-Leaves (s.clients u) u apart
    exchange-Leaves (client_times_out u) apart = give_up-Leaves (s.clients u) u apart
    exchange-Leaves (worker_goes d) apart = (worker-Leaves (s.channels d).worker d apart).0
    exchange-Leaves (worker_times_out d) apart = (worker-Leaves (s.channels d).worker d apart).1
