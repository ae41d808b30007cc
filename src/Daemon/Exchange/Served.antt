-- ===== src/Daemon/Exchange/Served.antt =====
-- A request that waits for its answer gets it, as long as the worker of its channel goes on.
pub mod Undisturbed
pub mod Turns
pub mod Worker
use hy_can.Daemon.Life.{first_state}
use hy_can.Daemon.Exchange.Served.Turns.{
  IsAhead, IsPast, turns_left_at, turns_left, IsWaiting, IsServedBy,
}
use hy_can.Base.{
  All, ◌≤◌, subst, sym, ap, ◌⊎◌, inl, inr, some, arith, ℕ, suc, ◌<◌, ◌≡◌, ◌∙◌, List, [], ◌∷◌,
}
use hy_can.Message.{NetlinkRequest, NetlinkResponse}
use hy_can.Daemon.Exchange.Updates.{thread-IsClient}
use hy_can.Daemon.Exchange.Served.Worker.{
  worker_serves-IsNearer, worker_serves_stays, worker_serves-IsExchange, worker_serves,
}
use hy_can.Daemon.Exchange.Served.Undisturbed.{IsUndisturbed, IsApart, exchange-Leaves}
use hy_can.Daemon.Exchange.Bookkeeping.{
  InHistory, processed_as, served, put_same, HasRequest, IsExchange,
}
use hy_can.Daemon.Exchange.Answers.{exchanges-IsExchange, at_first-IsExchange, exchange-IsExchange}
use hy_can.Daemon.Exchange.{
  WorkerPlace, worker_waits, worker_accepted, worker_received, worker_responds, client_answered,
  Channel, client_goes, client_step, exchanges, at_first_exchange, read_on, client_sent, Exchange,
  ExchangeMove, exchange,
}

-- A turn of the worker of the channel, or any move of another.
pub data Serving : Type 0 where
  serving_turn : Serving
  meanwhile : ExchangeMove → Serving

abbrev pub serving_turns : List Serving → ℕ
serving_turns [] = 0
serving_turns (serving_turn ∷ ms) = suc (serving_turns ms)
serving_turns (meanwhile m ∷ ms) = serving_turns ms

abbrev pub IsMeanwhile : ℕ → ℕ → Serving → Type 0
IsMeanwhile t c serving_turn = Unit {0}
IsMeanwhile t c (meanwhile m) = IsApart t c m

module _ {S : Type 0} (process : NetlinkRequest → S → NetlinkResponse × S) (first : S) (t c k : ℕ)
    (request : NetlinkRequest) where
  unfoldable pub servings : List Serving → Exchange S → Exchange S
  servings [] s = s
  servings (serving_turn ∷ ms) s = servings ms (worker_serves process c s)
  servings (meanwhile m ∷ ms) s = servings ms (exchange process m s)

  record Pending (s : Exchange S) : Type 0 where
    exchanged : IsExchange process first s
    waits : s.clients t ≡ client_sent c k request

  asked_of :
      (s : Exchange S)
      → Pending s
      → (k < (s.channels c).arrived) × HasRequest (s.channels c) k request
  asked_of s h =
      let own = thread-IsClient process first s t (client_sent c k request) h.exchanged h.waits in
      (own.0, own.2)

  exchange-Pending :
      (m : ExchangeMove) (s : Exchange S)
      → IsApart t c m
      → Pending s
      → Pending (exchange process m s)
  exchange-Pending m s apart h = record {
    exchanged = exchange-IsExchange process first m s h.exchanged;
    waits = (exchange-Leaves process t c k request s h.waits (asked_of s h).0 m apart).0 ∙ h.waits;
  }

  serve-Pending :
      (s : Exchange S)
      → Pending s
      → (worker_serves process c s).clients ≡ s.clients
      → Pending (worker_serves process c s)
  serve-Pending s h same = record {
    exchanged = worker_serves-IsExchange process first s c h.exchanged;
    waits = ap (λ f. f t) same ∙ h.waits;
  }

  -- It waits with turns to come, or it is served.
  abbrev OnTheWay : ℕ → Channel → Type 0
  OnTheWay n ch = (IsWaiting k ch × (turns_left k ch ≤ n)) ⊎ IsServedBy k ch

  undisturbed_way :
      (n : ℕ) (ch ch' : Channel) → IsUndisturbed k ch ch' → OnTheWay n ch → OnTheWay n ch'
  undisturbed_way n ch ch' h (inl (waiting, few)) = inl (
    subst (λ w. IsAhead k ch'.taken w) (sym h.worker)
        (subst (λ x. IsAhead k x ch.worker) (sym h.taken) waiting),
    subst (λ w. turns_left_at k ch'.taken w ≤ n) (sym h.worker)
        (subst (λ x. turns_left_at k x ch.worker ≤ n) (sym h.taken) few),
  )
  undisturbed_way n ch ch' h (inr (past, response, sent)) = inr (
    subst (λ w. IsPast k ch'.taken w) (sym h.worker)
        (subst (λ x. IsPast k x ch.worker) (sym h.taken) past),
    response,
    h.response ∙ sent,
  )

  turns_left-pos :
      (taken : ℕ) (place : WorkerPlace) → IsAhead k taken place → 0 < turns_left_at k taken place
  turns_left-pos taken worker_waits h = omega arith
  turns_left-pos taken (worker_accepted j) h = omega arith
  turns_left-pos taken (worker_received j r) h = omega arith
  turns_left-pos taken (worker_responds j r) h = omega arith

  served_end :
      (ms : List Serving) (s : Exchange S)
      → All (IsMeanwhile t c) ms
      → Pending s
      → OnTheWay (serving_turns ms) (s.channels c)
      → Pending (servings ms s) × IsServedBy k ((servings ms s).channels c)
  unfolding servings
  served_end [] s apart h (inl (waiting, few)) =
      absurd (omega (arith, turns_left-pos (s.channels c).taken (s.channels c).worker waiting))
  served_end [] s apart h (inr behind) = (h, behind)
  served_end (serving_turn ∷ ms) s apart h (inl (waiting, few)) =
      let asked = asked_of s h in
      let (same, near) = worker_serves-IsNearer process s c k request asked.0 asked.1 waiting in
      served_end ms (worker_serves process c s) apart.1 (serve-Pending s h same)
        (elim near [ inl (still, less) ↦ inl (still, omega arith) | inr behind ↦ inr behind ])
  served_end (serving_turn ∷ ms) s apart h (inr behind) =
      let (same, still) = worker_serves_stays process s c k behind in
      served_end ms (worker_serves process c s) apart.1 (serve-Pending s h same) (inr still)
  served_end (meanwhile m ∷ ms) s apart h way =
      let left = exchange-Leaves process t c k request s h.waits (asked_of s h).0 m apart.0 in
      served_end ms (exchange process m s) apart.1 (exchange-Pending m s apart.0 h) (
        undisturbed_way (serving_turns ms) (s.channels c) ((exchange process m s).channels c) left.1
          way)

  read_answer :
      (s : Exchange S) (response : NetlinkResponse)
      → s.clients t ≡ client_sent c k request
      → ((s.channels c).connections k).response ≡ some response
      → (exchange process (client_goes t) s).clients t ≡ client_answered c k request response
  unfolding exchange client_step read_on
  read_answer s response waits sent =
      ap (λ (x : Exchange S). x.clients t)
        (ap (λ p. client_step process p t s) waits
          ∙ ap (λ r. read_on process r ((s.channels c).connections k).is_closed t c k request s)
              sent)
      ∙ put_same s.clients t (client_answered c k request response)

  -- A request that was sent, at any moment of any run, and whose connection the worker of its channel
  -- has before it, is answered once the worker has taken the turns that it needs for the connections
  -- up to this one, four for each, whatever all other threads and workers do meanwhile: the next
  -- step of the client reads the response, which is the one of its own request in the history.
  pub request_is_served :
      (before : List ExchangeMove)
      → let s = exchanges process before (at_first_exchange process first) in
        s.clients t ≡ client_sent c k request
        → IsWaiting k (s.channels c)
        → (ms : List Serving) → All (IsMeanwhile t c) ms
        → turns_left k (s.channels c) ≤ serving_turns ms
        → let s' = exchange process (client_goes t) (servings ms s) in
          (response : NetlinkResponse) × (s'.clients t ≡ client_answered c k request response)
          × InHistory (processed_as c k request response) s'.history
  request_is_served before waits waiting ms apart few =
      let first_state = at_first_exchange process first in
      let s = exchanges process before first_state in
      let h : Pending s = record {
        exchanged =
            exchanges-IsExchange process first before first_state
              (at_first-IsExchange process first);
        waits = waits;
      } in
      let (h', end) = served_end ms s apart h (inl (waiting, few)) in
      let (past, response, sent) = end in
      let s' = exchange process (client_goes t) (servings ms s) in
      let answered = read_answer (servings ms s) response h'.waits sent in
      (
        response,
        answered,
        thread-IsClient process first s' t (client_answered c k request response)
            (exchange-IsExchange process first (client_goes t) (servings ms s) h'.exchanged)
            answered,
      )
