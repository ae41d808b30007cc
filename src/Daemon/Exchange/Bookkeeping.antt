-- ===== src/Daemon/Exchange/Bookkeeping.antt =====
-- What holds between the history, the channels and the clients at every step.
use hy_can.Message.{NetlinkRequest, NetlinkResponse}
use hy_can.Daemon.Exchange.{
  WorkerPlace, worker_waits, worker_accepted, worker_received, worker_responds, ClientPlace,
  client_rests, client_connected, client_sent, client_answered, client_gave_up, Channel, Processed,
  Exchange, put,
}
use hy_can.Base.{
  ap, true, All, ◌==◌, Bool-cases, ℕ, suc, ◌≤◌, ◌<◌, subst, ◌≡◌, refl, sym, ◌∙◌, ◌⊎◌, inl, inr,
  none, some, List, [], ◌∷◌, arith,
}

abbrev pub InHistory : Processed → List Processed → Type 0
InHistory p [] = ⊥
InHistory p (q ∷ history) = (q ≡ p) ⊎ InHistory p history

abbrev pub processed_as : ℕ → ℕ → NetlinkRequest → NetlinkResponse → Processed
processed_as c k request response = record {
  channel = c;
  number = k;
  request = request;
  response = response;
}

-- On each channel the requests were processed in the order of their connections, each once.
abbrev pub IsBehind : Processed → Processed → Type 0
IsBehind p q = q.channel ≡ p.channel → q.number < p.number

abbrev pub IsInOrder : List Processed → Type 0
IsInOrder [] = Unit {0}
IsInOrder (p ∷ history) = All (IsBehind p) history × IsInOrder history

-- The connections of a channel whose requests may have been processed have smaller numbers.
abbrev pub served_at : WorkerPlace → ℕ → ℕ
served_at (worker_accepted k) taken = k
served_at (worker_received k request) taken = k
served_at _ taken = taken

abbrev pub served : Channel → ℕ
served ch = served_at ch.worker ch.taken

pub same_served :
    (ch : Channel) (place : WorkerPlace) → ch.worker ≡ place → served ch ≡ served_at place ch.taken
same_served ch place e = ap (λ w. served_at w ch.taken) e

abbrev pub IsServed : (ℕ → Channel) → Processed → Type 0
IsServed channels p = p.number < served (channels p.channel)

abbrev pub HasRequest : Channel → ℕ → NetlinkRequest → Type 0
HasRequest ch k request = (ch.connections k).request ≡ some request

abbrev pub IsPlaced : List Processed → ℕ → Channel → WorkerPlace → Type 0
IsPlaced history c ch worker_waits = Unit {0}
IsPlaced history c ch (worker_accepted k) = suc k ≡ ch.taken
IsPlaced history c ch (worker_received k request) = (suc k ≡ ch.taken) × HasRequest ch k request
IsPlaced history c ch (worker_responds k response) =
    (suc k ≡ ch.taken)
    × (request : NetlinkRequest) × HasRequest ch k request
    × InHistory (processed_as c k request response) history

-- A response that was sent on a connection is the one that the history has for its request.
pub record IsChannel (history : List Processed) (c : ℕ) (ch : Channel) : Type 0 where
  pub bounded : ch.taken ≤ ch.arrived
  pub placed : IsPlaced history c ch ch.worker
  pub replied :
      (k : ℕ) (response : NetlinkResponse)
      → (ch.connections k).response ≡ some response
      → (request : NetlinkRequest) × HasRequest ch k request
        × InHistory (processed_as c k request response) history

abbrev pub IsClient : List Processed → (ℕ → Channel) → ℕ → ClientPlace → Type 0
IsClient history channels t (client_connected c k request) =
    (k < (channels c).arrived)
    × (((channels c).connections k).owner ≡ t)
    × (((channels c).connections k).request ≡ none)
IsClient history channels t (client_sent c k request) =
    (k < (channels c).arrived)
    × (((channels c).connections k).owner ≡ t)
    × HasRequest (channels c) k request
IsClient history channels t (client_answered c k request response) =
    InHistory (processed_as c k request response) history
IsClient history channels t _ = Unit {0}

-- The history is a run of the requests, one after the other.
abbrev pub Replays :
    {S : Type 0} → (NetlinkRequest → S → NetlinkResponse × S) → S → List Processed → S → Type 0
Replays process first [] kernel = kernel ≡ first
Replays {S} process first (p ∷ history) kernel =
    (before : S) × Replays process first history before
    × (process p.request before ≡ (p.response, kernel))

pub record IsExchange {S : Type 0} (process : NetlinkRequest → S → NetlinkResponse × S) (first : S)
    (s : Exchange S) : Type 0 where
  pub in_order : IsInOrder s.history
  pub served_before : All (IsServed s.channels) s.history
  pub replayed : Replays process first s.history s.kernel
  pub good_channel : (c : ℕ) → IsChannel s.history c (s.channels c)
  pub good_client : (t : ℕ) → IsClient s.history s.channels t (s.clients t)

pub put_same {ℓ} : {A : Type ℓ} (f : ℕ → A) (i : ℕ) (a : A) → put f i a i ≡ a
put_same f i a = let e : (i == i) ≡ true = ground arith in rw e refl

-- What a move may change of a channel for the thread `t` of a client: not its connections.
pub record Agrees (t : ℕ) (ch ch' : Channel) : Type 0 where
  pub grows : ch.arrived ≤ ch'.arrived
  pub same_owner : (k : ℕ) → k < ch.arrived → (ch'.connections k).owner ≡ (ch.connections k).owner
  pub same_request :
      (k : ℕ)
      → k < ch.arrived
      → (ch.connections k).owner ≡ t
      → (ch'.connections k).request ≡ (ch.connections k).request

pub put-Agrees :
    (t c : ℕ) (channels : ℕ → Channel) (ch' : Channel)
    → Agrees t (channels c) ch'
    → (c' : ℕ) → Agrees t (channels c') (put channels c ch' c')
put-Agrees t c channels ch' h c' = elim (Bool-cases (c == c')) [
  | inl same ↦ rw same (subst (λ x. Agrees t (channels x) ch') (ground (arith, same)) h)
  | inr other ↦
      rw other (record {
        grows = omega arith;
        same_owner = λ k low. refl;
        same_request = λ k low own. refl;
      })
]

pub IsClient-keeps :
    (history history' : List Processed) (channels channels' : ℕ → Channel) (t : ℕ)
    (place : ClientPlace)
    → ((p : Processed) → InHistory p history → InHistory p history')
    → ((c : ℕ) → Agrees t (channels c) (channels' c))
    → IsClient history channels t place
    → IsClient history' channels' t place
IsClient-keeps history history' channels channels' t client_rests ext h good = tt
IsClient-keeps history history' channels channels' t (client_gave_up request) ext h good = tt
IsClient-keeps history history' channels channels' t (client_answered c k request response) ext h
      good =
    ext (processed_as c k request response) good
IsClient-keeps history history' channels channels' t (client_connected c k request) ext h good = (
  omega (arith, good.0, (h c).grows),
  (h c).same_owner k good.0 ∙ good.1,
  (h c).same_request k good.0 good.1 ∙ good.2,
)
IsClient-keeps history history' channels channels' t (client_sent c k request) ext h good = (
  omega (arith, good.0, (h c).grows),
  (h c).same_owner k good.0 ∙ good.1,
  (h c).same_request k good.0 good.1 ∙ good.2,
)

-- A longer history.
pub IsChannel-longer :
    (p : Processed) (history : List Processed) (c : ℕ) (ch : Channel)
    → IsChannel history c ch
    → IsChannel (p ∷ history) c ch
IsChannel-longer p history c ch h = record {
  bounded = h.bounded;
  placed = longer_place ch.worker h.placed;
  replied = λ k response sent.
      let (request, has, done) = h.replied k response sent in (request, has, inr done);
}
  where
    longer_place :
        (place : WorkerPlace) → IsPlaced history c ch place → IsPlaced (p ∷ history) c ch place
    longer_place worker_waits good = tt
    longer_place (worker_accepted k) good = good
    longer_place (worker_received k request) good = good
    longer_place (worker_responds k response) (last, request, has, done) =
        (last, request, has, inr done)

-- The history is served by other channels as before.
pub served-put :
    (history : List Processed) (channels : ℕ → Channel) (c : ℕ) (ch' : Channel)
    → served (channels c) ≤ served ch'
    → All (IsServed channels) history
    → All (IsServed (put channels c ch')) history
served-put [] channels c ch' more h = tt
served-put (p ∷ history) channels c ch' more h = (
  elim (Bool-cases (c == p.channel)) [
    | inl same ↦
        let e : c ≡ p.channel = ground (arith, same) in
        rw same (
          subst (λ x. served (channels x) ≤ served ch' → p.number < served ch') (sym e)
            (λ le. omega (arith, h.0)) more)
    | inr other ↦ rw other h.0
  ],
  served-put history channels c ch' more h.1,
)
