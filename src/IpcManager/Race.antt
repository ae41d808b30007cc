-- ===== src/IpcManager/Race.antt =====
-- The singleton of src/Interface/IPCManager.cpp when threads of a program share it: `ensure_initialized`
-- has no lock, so its accesses interleave with those of the other threads. A client is known by the number
-- of its allocation, and an access to one that was freed is undefined behaviour.

use hy_can.Base.{
  refl, ◌∙◌, arith, ◌==◌, if◌then◌else◌, ℕ, suc, ◌≡◌, Bool, true, false, not, ◌&&◌, ◌||◌, Option,
  none, some, List, [], ◌∷◌,
}

-- Where a thread stands: outside the manager, before `make_unique`, before the assignment to `client_`
-- of the client it made, before `initialized_` is set, before it reads `client_`, or in an operation of
-- the client that it read.
pub data Place : Type 0 where
  outside before_make before_flag before_call : Place
  before_assign in_call : ℕ → Place

-- Whether a step goes on, or ends what the thread is in: the allocation throws, or the operation of the
-- client makes its last access.
pub data Turn : Type 0 where
  goes_on ends : Turn

pub record Shared : Type 0 where
  pub initialized : Bool
  pub client : Option ℕ
  pub made : ℕ
  pub is_alive : ℕ → Bool
  pub has_faulted : Bool
  pub place : ℕ → Place

abbrev pub is_client : Option ℕ → ℕ → Bool
is_client none k = false
is_client (some j) k = j == k

-- Thread `t` moves to `p`.
abbrev goes : ℕ → Place → Shared → Shared
goes t p s = record s { place = λ u. if t == u then p else s.place u }

-- `client_->…`, by the pointer that is read.
abbrev read_client : ℕ → Option ℕ → Shared → Shared
read_client t (some k) s = goes t (in_call k) s
read_client t none s = goes t outside (record s { has_faulted = true })

abbrev access : ℕ → Shared → Shared
access k s = record s { has_faulted = s.has_faulted || not (s.is_alive k) }

step_at : Place → Turn → ℕ → Shared → Shared
step_at outside _ t s = goes t (if s.initialized then before_call else before_make) s
step_at before_make goes_on t s =
    goes t (before_assign s.made)
      (record s { made = suc s.made; is_alive = λ k. s.made == k || s.is_alive k })
step_at before_make ends t s = goes t outside s
step_at (before_assign k) _ t s =
    goes t before_flag
      (record s { client = some k; is_alive = λ j. s.is_alive j && not (is_client s.client j) })
step_at before_flag _ t s = goes t before_call (record s { initialized = true })
step_at before_call _ t s = read_client t s.client s
step_at (in_call k) goes_on t s = access k s
step_at (in_call k) ends t s = goes t outside (access k s)

unfoldable pub step : ℕ × Turn → Shared → Shared
unfolding step_at
step (t, way) s = step_at (s.place t) way t s

unfoldable pub run : List (ℕ × Turn) → Shared → Shared
run [] s = s
run (m ∷ ms) s = run ms (step m s)

-- The manager after its constructor.
unfoldable pub first_shared : Shared
first_shared = record {
  initialized = false;
  client = none;
  made = 0;
  is_alive = λ k. false;
  has_faulted = false;
  place = λ t. outside;
}

-- The first call of thread `t` up to its operation of the client, with no step of another thread.
abbrev pub first_call : ℕ → List (ℕ × Turn)
first_call t = (t, goes_on) ∷ (t, goes_on) ∷ (t, goes_on) ∷ (t, goes_on) ∷ []

-- Both threads test `initialized_` before one of them sets it.
abbrev pub race : ℕ → ℕ → List (ℕ × Turn)
race t u =
    (t, goes_on)
    ∷ (u, goes_on)
    ∷ (t, goes_on)
    ∷ (t, goes_on)
    ∷ (t, goes_on)
    ∷ (t, goes_on)
    ∷ (u, goes_on)
    ∷ (u, goes_on)
    ∷ (t, goes_on)
    ∷ []

-- Whether a thread may stand there once the manager has its client `k`.
abbrev is_settled_place : ℕ → Place → Bool
is_settled_place k outside = true
is_settled_place k before_call = true
is_settled_place k (in_call j) = j == k
is_settled_place k _ = false

record IsSettled (k : ℕ) (s : Shared) : Type 0 where
  is_initialized : s.initialized ≡ true
  own_client : s.client ≡ some k
  alive : s.is_alive k ≡ true
  faultless : s.has_faulted ≡ false
  places : (t : ℕ) → is_settled_place k (s.place t) ≡ true

read_client-IsSettled :
    (k t : ℕ) (c : Option ℕ) (s : Shared)
    → c ≡ some k
    → IsSettled k s
    → IsSettled k (read_client t c s) × ((read_client t c s).made ≡ s.made)
read_client-IsSettled k t none s own h = absurd (ground (arith, own))
read_client-IsSettled k t (some j) s own h = (
  record {
    is_initialized = h.is_initialized;
    own_client = h.own_client;
    alive = h.alive;
    faultless = h.faultless;
    places = λ u. ground (arith, own, h.places u);
  },
  refl,
)

step_at-IsSettled :
    (k : ℕ) (p : Place) (way : Turn) (t : ℕ) (s : Shared)
    → s.place t ≡ p
    → IsSettled k s
    → IsSettled k (step_at p way t s) × ((step_at p way t s).made ≡ s.made)
unfolding step_at
step_at-IsSettled k outside way t s e h = (
  record {
    is_initialized = h.is_initialized;
    own_client = h.own_client;
    alive = h.alive;
    faultless = h.faultless;
    places = λ u. ground (arith, h.is_initialized, h.places u);
  },
  refl,
)
step_at-IsSettled k before_make way t s e h = absurd (ground (arith, e, h.places t))
step_at-IsSettled k (before_assign j) way t s e h = absurd (ground (arith, e, h.places t))
step_at-IsSettled k before_flag way t s e h = absurd (ground (arith, e, h.places t))
step_at-IsSettled k before_call way t s e h = read_client-IsSettled k t s.client s h.own_client h
step_at-IsSettled k (in_call j) goes_on t s e h = (
  record {
    is_initialized = h.is_initialized;
    own_client = h.own_client;
    alive = h.alive;
    faultless = ground (arith, e, h.places t, h.alive, h.faultless);
    places = h.places;
  },
  refl,
)
step_at-IsSettled k (in_call j) ends t s e h = (
  record {
    is_initialized = h.is_initialized;
    own_client = h.own_client;
    alive = h.alive;
    faultless = ground (arith, e, h.places t, h.alive, h.faultless);
    places = λ u. ground (arith, h.places u);
  },
  refl,
)

run-IsSettled :
    (k : ℕ) (ms : List (ℕ × Turn)) (s : Shared)
    → IsSettled k s
    → IsSettled k (run ms s) × ((run ms s).made ≡ s.made)
unfolding run step
run-IsSettled k [] s h = (h, refl)
run-IsSettled k ((t, way) ∷ ms) s h =
    let one = step_at-IsSettled k (s.place t) way t s refl h in
    let rest = run-IsSettled k ms (step_at (s.place t) way t s) one.0 in (rest.0, rest.1 ∙ one.1)

-- The first call of a thread, when no other thread is in the manager.
first_call-IsSettled :
    (t : ℕ) → let s = run (first_call t) first_shared in IsSettled 0 s × (s.made ≡ 1)
unfolding run step step_at first_shared
first_call-IsSettled t = (
  record {
    is_initialized = ground arith;
    own_client = ground arith;
    alive = ground arith;
    faultless = ground arith;
    places = λ u. ground arith;
  },
  ground arith,
)

-- If the first call of a thread has its client before another thread enters the manager, then under every
-- schedule of any number of threads after that no access to a freed client is made, the manager keeps
-- this client, and no other one is ever made.
pub first_call_alone :
    (t : ℕ) (ms : List (ℕ × Turn))
    → let s = run ms (run (first_call t) first_shared) in
      (s.has_faulted ≡ false) × (s.client ≡ some 0) × (s.made ≡ 1)
first_call_alone t ms =
    let settled = first_call-IsSettled t in
    let after = run-IsSettled 0 ms (run (first_call t) first_shared) settled.0 in
    (after.0.faultless, after.0.own_client, after.1 ∙ settled.1)

-- From any state in which the manager has not been initialized, two threads that are outside it have an
-- order of their steps after which one of them accesses a client that the other has freed.
pub shared_client_is_freed :
    (t u : ℕ) (s : Shared)
    → ¬ t ≡ u
    → s.initialized ≡ false
    → s.place t ≡ outside
    → s.place u ≡ outside
    → (run (race t u) s).has_faulted ≡ true
unfolding run step step_at
shared_client_is_freed t u s other early at_t at_u = ground (arith, other, early, at_t, at_u)
