-- ===== src/Daemon/Exchange/Channels.antt =====
-- What each move does to its channel.
use hy_can.Message.{NetlinkRequest, NetlinkResponse}
use hy_can.Daemon.Exchange.Bookkeeping.{
  InHistory, processed_as, HasRequest, IsPlaced, IsChannel, Agrees,
}
use hy_can.Daemon.Exchange.{
  Connection, WorkerPlace, worker_waits, worker_accepted, worker_received, worker_responds, Channel,
  Processed, put, new_connection, set_connection,
}
use hy_can.Base.{
  ◌==◌, Bool-cases, ℕ, suc, ◌<◌, subst, ◌≡◌, refl, sym, ap, ◌∙◌, inl, inr, true, false, Option,
  none, some, List, arith,
}

put_other : (f : ℕ → Connection) (i j : ℕ) (a : Connection) → (i == j) ≡ false → put f i a j ≡ f j
put_other f i j a other = rw other refl

put_at : (f : ℕ → Connection) (i j : ℕ) (a : Connection) → (i == j) ≡ true → put f i a j ≡ a
put_at f i j a same = rw same refl

abbrev pub arrive : ℕ → Channel → Channel
arrive t ch = record (set_connection ch ch.arrived (new_connection t)) { arrived = suc ch.arrived }

abbrev pub ask_on : ℕ → NetlinkRequest → Channel → Channel
ask_on k request ch = set_connection ch k (record (ch.connections k) { request = some request })

abbrev pub close_at : Option NetlinkResponse → ℕ → Channel → Channel
close_at response k ch =
    record (set_connection ch k
      (record (ch.connections k) { response = response; is_closed = true })) {
        worker = worker_waits;
      }

IsPlaced-keeps :
    (history : List Processed) (c : ℕ) (ch ch' : Channel) (place : WorkerPlace)
    → ch'.taken ≡ ch.taken
    → ((k : ℕ) (request : NetlinkRequest)
        → k < ch.taken
        → HasRequest ch k request
        → HasRequest ch' k request)
    → IsPlaced history c ch place
    → IsPlaced history c ch' place
IsPlaced-keeps history c ch ch' worker_waits e keeps good = tt
IsPlaced-keeps history c ch ch' (worker_accepted k) e keeps good = omega (arith, good, e)
IsPlaced-keeps history c ch ch' (worker_received k request) e keeps (last, has) =
    (omega (arith, last, e), keeps k request (omega (arith, last)) has)
IsPlaced-keeps history c ch ch' (worker_responds k response) e keeps (last, request, has, done) =
    (omega (arith, last, e), request, keeps k request (omega (arith, last)) has, done)

module _ (history : List Processed) (c : ℕ) (ch : Channel) (good : IsChannel history c ch) where
  arrive-HasRequest :
      (t k : ℕ) (request : NetlinkRequest)
      → (ch.arrived == k) ≡ false
      → HasRequest ch k request
      → HasRequest (arrive t ch) k request
  arrive-HasRequest t k request other has =
      ap (λ (x : Connection). x.request)
        (put_other ch.connections ch.arrived k (new_connection t) other)
      ∙ has

  pub arrive-IsChannel : (t : ℕ) → IsChannel history c (arrive t ch)
  arrive-IsChannel t = record {
    bounded = omega (arith, good.bounded);
    placed =
        IsPlaced-keeps history c ch (arrive t ch) ch.worker refl
          (λ k request low has.
            arrive-HasRequest t k request (ground (arith, good.bounded, low)) has)
          good.placed;
    replied = λ k response sent. elim (Bool-cases (ch.arrived == k)) [
      | inl same ↦ absurd (
          ground (
            arith,
            sent,
            ap (λ (x : Connection). x.response)
                (put_at ch.connections ch.arrived k (new_connection t) same),
          ))
      | inr other ↦
          let before =
            ap (λ (x : Connection). x.response)
              (put_other ch.connections ch.arrived k (new_connection t) other) in
          let (request, has, done) = good.replied k response (sym before ∙ sent) in
          (request, arrive-HasRequest t k request other has, done)
    ];
  }

  pub arrive-Agrees : (t u : ℕ) → Agrees u ch (arrive t ch)
  arrive-Agrees t u = record {
    grows = omega arith;
    same_owner = λ k low.
        ap (λ (x : Connection). x.owner)
          (put_other ch.connections ch.arrived k (new_connection t) (ground (arith, low)));
    same_request = λ k low own.
        ap (λ (x : Connection). x.request)
          (put_other ch.connections ch.arrived k (new_connection t) (ground (arith, low)));
  }

  module _ (k : ℕ) (request : NetlinkRequest) (unsent : (ch.connections k).request ≡ none) where
    asked : Connection
    asked = record (ch.connections k) { request = some request }

    ask-HasRequest :
        (j : ℕ) (r : NetlinkRequest) → HasRequest ch j r → HasRequest (ask_on k request ch) j r
    ask-HasRequest j r has = elim (Bool-cases (k == j)) [
      | inl same ↦ absurd (ground (arith, unsent, has, same))
      | inr other ↦ ap (λ (x : Connection). x.request) (put_other ch.connections k j _ other) ∙ has
    ]

    ask-response :
        (j : ℕ) → ((ask_on k request ch).connections j).response ≡ (ch.connections j).response
    ask-response j = elim (Bool-cases (k == j)) [
      | inl same ↦
          ap (λ (x : Connection). x.response) (put_at ch.connections k j _ same)
          ∙ ap (λ i. (ch.connections i).response) (ground (arith, same))
      | inr other ↦ ap (λ (x : Connection). x.response) (put_other ch.connections k j _ other)
    ]

    pub ask-IsChannel : IsChannel history c (ask_on k request ch)
    ask-IsChannel = record {
      bounded = good.bounded;
      placed =
          IsPlaced-keeps history c ch (ask_on k request ch) ch.worker refl
            (λ j r low has. ask-HasRequest j r has) good.placed;
      replied = λ j response sent.
          let (r, has, done) = good.replied j response (sym (ask-response j) ∙ sent) in
          (r, ask-HasRequest j r has, done);
    }

    pub ask-Agrees :
        (t u : ℕ)
        → (ch.connections k).owner ≡ t
        → (t == u) ≡ false
        → Agrees u ch (ask_on k request ch)
    ask-Agrees t u own other = record {
      grows = omega arith;
      same_owner = λ j low. elim (Bool-cases (k == j)) [
        | inl same ↦
            ap (λ (x : Connection). x.owner) (put_at ch.connections k j _ same)
            ∙ ap (λ i. (ch.connections i).owner) (ground (arith, same))
        | inr apart ↦ ap (λ (x : Connection). x.owner) (put_other ch.connections k j _ apart)
      ];
      same_request = λ j low mine. elim (Bool-cases (k == j)) [
        | inl same ↦ absurd (ground (arith, own, mine, other, same))
        | inr apart ↦ ap (λ (x : Connection). x.request) (put_other ch.connections k j _ apart)
      ];
    }

  module _ (k : ℕ) (response : Option NetlinkResponse) where
    close-connection :
        (j : ℕ)
        → (((close_at response k ch).connections j).owner ≡ (ch.connections j).owner)
          × (((close_at response k ch).connections j).request ≡ (ch.connections j).request)
    close-connection j = elim (Bool-cases (k == j)) [
      | inl same ↦
          let e : k ≡ j = ground (arith, same) in
          (
            ap (λ (x : Connection). x.owner) (put_at ch.connections k j _ same)
                ∙ ap (λ i. (ch.connections i).owner) e,
            ap (λ (x : Connection). x.request) (put_at ch.connections k j _ same)
                ∙ ap (λ i. (ch.connections i).request) e,
          )
      | inr other ↦ (
        ap (λ (x : Connection). x.owner) (put_other ch.connections k j _ other),
        ap (λ (x : Connection). x.request) (put_other ch.connections k j _ other),
      )
    ]

    pub close-Agrees : (u : ℕ) → Agrees u ch (close_at response k ch)
    close-Agrees u = record {
      grows = omega arith;
      same_owner = λ j low. (close-connection j).0;
      same_request = λ j low own. (close-connection j).1;
    }

    pub close-IsChannel :
        ((r : NetlinkResponse)
          → response ≡ some r
          → (request : NetlinkRequest) × HasRequest ch k request
            × InHistory (processed_as c k request r) history)
        → IsChannel history c (close_at response k ch)
    close-IsChannel answers = record {
      bounded = good.bounded;
      placed = tt;
      replied = λ j r sent. elim (Bool-cases (k == j)) [
        | inl same ↦
            let e : k ≡ j = ground (arith, same) in
            let at = ap (λ (x : Connection). x.response) (put_at ch.connections k j _ same) in
            let (request, has, done) = answers r (sym at ∙ sent) in
            (
              request,
              (close-connection j).1 ∙ ap (λ i. (ch.connections i).request) (sym e) ∙ has,
              subst (λ i. InHistory (processed_as c i request r) history) e done,
            )
        | inr other ↦
            let before =
              ap (λ (x : Connection). x.response) (put_other ch.connections k j _ other) in
            let (request, has, done) = good.replied j r (sym before ∙ sent) in
            (request, (close-connection j).1 ∙ has, done)
      ];
    }

  pub accept-IsChannel :
      ch.taken < ch.arrived
      → IsChannel history c (record ch { taken = suc ch.taken; worker = worker_accepted ch.taken })
  accept-IsChannel more = record {
    bounded = omega (arith, more);
    placed = refl;
    replied = good.replied;
  }

  pub work-Agrees :
      (u taken : ℕ) (place : WorkerPlace)
      → Agrees u ch (record ch { taken = taken; worker = place })
  work-Agrees u taken place = record {
    grows = omega arith;
    same_owner = λ j low. refl;
    same_request = λ j low own. refl;
  }

  pub work-IsChannel :
      (place : WorkerPlace)
      → IsPlaced history c ch place
      → IsChannel history c (record ch { worker = place })
  work-IsChannel place placed = record {
    bounded = good.bounded;
    placed =
        IsPlaced-keeps history c ch (record ch { worker = place }) place refl
          (λ k request low has. has) placed;
    replied = good.replied;
  }
