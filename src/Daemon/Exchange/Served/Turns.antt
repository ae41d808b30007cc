-- ===== src/Daemon/Exchange/Served/Turns.antt =====
-- A turn of a worker, and how many it needs until it has answered on a connection.
use hy_can.Message.{NetlinkRequest, NetlinkResponse}
use hy_can.Daemon.Exchange.Channels.{close_at}
use hy_can.Daemon.Exchange.Bookkeeping.{HasRequest}
use hy_can.Daemon.Exchange.{
  WorkerPlace, worker_waits, worker_accepted, worker_received, worker_responds, Channel,
}
use hy_can.Base.{
  Bool-cases, ap, ◌∙◌, inl, inr, arith, ◌==◌, ℕ, suc, ◌+◌, ◌-◌, ◌*◌, ◌≤◌, ◌<◌, subst, ◌≡◌, refl,
  ◌⊎◌, Bool, true, false, Option, none, some,
}

-- The worker waits for the request of a connection that has sent none.
abbrev pub is_unsent : Option NetlinkRequest → Bool
is_unsent none = true
is_unsent (some request) = false

abbrev pub lacks_request : WorkerPlace → Channel → Bool
lacks_request (worker_accepted j) ch = is_unsent (ch.connections j).request
lacks_request _ ch = false

-- The connection `k` waits in the queue, or the worker is at it or at an earlier one.
abbrev pub IsAhead : ℕ → ℕ → WorkerPlace → Type 0
IsAhead k taken worker_waits = taken ≤ k
IsAhead k taken (worker_accepted j) = (suc j ≡ taken) × (j ≤ k)
IsAhead k taken (worker_received j request) = (suc j ≡ taken) × (j ≤ k)
IsAhead k taken (worker_responds j response) = (suc j ≡ taken) × (j ≤ k)

-- The worker is behind it.
abbrev pub IsPast : ℕ → ℕ → WorkerPlace → Type 0
IsPast k taken worker_waits = k < taken
IsPast k taken (worker_accepted j) = (suc j ≡ taken) × (k < j)
IsPast k taken (worker_received j request) = (suc j ≡ taken) × (k < j)
IsPast k taken (worker_responds j response) = (suc j ≡ taken) × (k < j)

abbrev pub turns_left_at : ℕ → ℕ → WorkerPlace → ℕ
turns_left_at k taken worker_waits = 4 * (suc k - taken)
turns_left_at k taken (worker_accepted j) = 4 * (k - j) + 3
turns_left_at k taken (worker_received j request) = 4 * (k - j) + 2
turns_left_at k taken (worker_responds j response) = 4 * (k - j) + 1

abbrev pub turns_left : ℕ → Channel → ℕ
turns_left k ch = turns_left_at k ch.taken ch.worker

abbrev pub IsWaiting : ℕ → Channel → Type 0
IsWaiting k ch = IsAhead k ch.taken ch.worker

abbrev pub IsServedBy : ℕ → Channel → Type 0
IsServedBy k ch =
    IsPast k ch.taken ch.worker
    × (response : NetlinkResponse) × ((ch.connections k).response ≡ some response)

-- What a turn comes to on the way to the connection.
abbrev pub IsNearer : ℕ → Channel → Channel → Type 0
IsNearer k ch ch' = (IsWaiting k ch' × (turns_left k ch' < turns_left k ch)) ⊎ IsServedBy k ch'

closes_other :
    (ch : Channel) (j k : ℕ) (response : Option NetlinkResponse)
    → (j == k) ≡ false
    → ((close_at response j ch).connections k).response ≡ (ch.connections k).response
closes_other ch j k response other = rw other refl

closes_at :
    (ch : Channel) (j k : ℕ) (response : Option NetlinkResponse)
    → (j == k) ≡ true
    → ((close_at response j ch).connections k).response ≡ response
closes_at ch j k response same = rw same refl

module _ (k : ℕ) (ch : Channel) (place : WorkerPlace) (e : ch.worker ≡ place) where
  pub place-IsAhead : IsWaiting k ch → IsAhead k ch.taken place
  place-IsAhead h = subst (IsAhead k ch.taken) e h

  pub place-IsPast : IsServedBy k ch → IsPast k ch.taken place
  place-IsPast h = subst (IsPast k ch.taken) e h.0

  left_at : turns_left k ch ≡ turns_left_at k ch.taken place
  left_at = ap (turns_left_at k ch.taken) e

-- The turns of the worker of a channel, on the way to the connection `k`.
module _ (k : ℕ) (ch : Channel) where
  pub accept-IsNearer :
      ch.worker ≡ worker_waits
      → IsWaiting k ch
      → IsNearer k ch (record ch { taken = suc ch.taken; worker = worker_accepted ch.taken })
  accept-IsNearer e h =
      let low = place-IsAhead k ch worker_waits e h in
      inl ((refl, low), omega (arith, left_at k ch worker_waits e))

  pub receive-IsNearer :
      (j : ℕ) (request : NetlinkRequest)
      → ch.worker ≡ worker_accepted j
      → IsWaiting k ch
      → IsNearer k ch (record ch { worker = worker_received j request })
  receive-IsNearer j request e h = inl (
    place-IsAhead k ch (worker_accepted j) e h,
    omega (arith, left_at k ch (worker_accepted j) e),
  )

  pub process-IsNearer :
      (j : ℕ) (request : NetlinkRequest) (response : NetlinkResponse)
      → ch.worker ≡ worker_received j request
      → IsWaiting k ch
      → IsNearer k ch (record ch { worker = worker_responds j response })
  process-IsNearer j request response e h = inl (
    place-IsAhead k ch (worker_received j request) e h,
    omega (arith, left_at k ch (worker_received j request) e),
  )

  pub respond-IsNearer :
      (j : ℕ) (response : NetlinkResponse)
      → ch.worker ≡ worker_responds j response
      → IsWaiting k ch
      → IsNearer k ch (close_at (some response) j ch)
  respond-IsNearer j response e h =
      let at = place-IsAhead k ch (worker_responds j response) e h in
      elim (Bool-cases (j == k)) [
        | inl same ↦ inr (ground (arith, at, same), response, closes_at ch j k (some response) same)
        | inr other ↦ inl (
          ground (arith, at, other),
          omega (arith, at, left_at k ch (worker_responds j response) e),
        )
      ]

  pub drop-IsNearer :
      (j : ℕ) (request : NetlinkRequest)
      → ch.worker ≡ worker_accepted j
      → is_unsent (ch.connections j).request ≡ true
      → HasRequest ch k request
      → IsWaiting k ch
      → IsNearer k ch (close_at none j ch)
  drop-IsNearer j request e unsent has h =
      let at = place-IsAhead k ch (worker_accepted j) e h in
      elim (Bool-cases (j == k)) [
        | inl same ↦
            let at_k : is_unsent (ch.connections k).request ≡ true =
              subst (λ i. is_unsent (ch.connections i).request ≡ true) (ground (arith, same))
                unsent in
            absurd (ground (arith, at_k, has))
        | inr other ↦
            inl (ground (arith, at, other), omega (arith, at, left_at k ch (worker_accepted j) e))
      ]

  -- Once it is behind the connection, it leaves the response there.
  pub close_past :
      (j : ℕ) (response : Option NetlinkResponse)
      → suc j ≡ ch.taken
      → k < j
      → IsServedBy k ch
      → IsServedBy k (close_at response j ch)
  close_past j response last low h =
      (omega arith, h.1, closes_other ch j k response (ground (arith, low)) ∙ h.2)
