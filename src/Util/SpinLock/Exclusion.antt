-- ===== src/Util/SpinLock/Exclusion.antt =====
-- Mutual exclusion, and what the flag means.
use hy_can.Util.SpinLock.{
  spinning, step, run, free, Place, outside, exchanging, trying, holding, Call, calls_lock,
  calls_unlock, Config, step_at,
}
use hy_can.Base.{refl, List, [], ◌∷◌, ◌==◌, ℕ, ◌≡◌, Bool, true, false, Option, none, some, arith}

abbrev pub is_holding : Place → Bool
is_holding holding = true
is_holding _ = false

abbrev pub is_owner : Option ℕ → ℕ → Bool
is_owner none t = false
is_owner (some o) t = o == t

abbrev pub has_owner : Option ℕ → Bool
has_owner none = false
has_owner (some o) = true

-- The flag says whether there is an owner, and the owner is the one thread that holds the lock.
pub record OwnedBy (o : Option ℕ) (c : Config) : Type 0 where
  pub flag : c.locked ≡ has_owner o
  pub holder : (t : ℕ) → is_holding (c.place t) ≡ is_owner o t

owner_unique :
    (o : Option ℕ) (c : Config) (t u : ℕ)
    → OwnedBy o c
    → is_holding (c.place t) ≡ true
    → is_holding (c.place u) ≡ true
    → (t ≡ u) × (c.locked ≡ true)
owner_unique o c t u v ht hu = ground (arith, v.flag, v.holder t, v.holder u)

-- The owner after a step of thread `t` at `p`.
abbrev owner_after : Option ℕ → Place → Call → ℕ → Option ℕ
owner_after none exchanging a t = some t
owner_after none trying a t = some t
owner_after (some o) holding calls_unlock t = none
owner_after o _ a t = o

step_at-OwnedBy :
    (o : Option ℕ) (p : Place) (a : Call) (t : ℕ) (c : Config)
    → c.place t ≡ p
    → OwnedBy o c
    → OwnedBy (owner_after o p a t) (step_at p a t c)
unfolding step_at
step_at-OwnedBy none outside calls_lock t c e v = record {
  flag = ground (arith, v.flag);
  holder = λ u. ground (arith, v.holder u, v.holder t);
}
step_at-OwnedBy o p a t c e v = record {
  flag = ground (arith, v.flag, v.holder t);
  holder = λ u. ground (arith, v.flag, v.holder u, v.holder t);
}

-- Every step of every thread keeps it: the lock has one owner or none, and the flag says which.
pub step-OwnedBy :
    (o : Option ℕ) (s : ℕ × Call) (c : Config)
    → OwnedBy o c
    → (o' : Option ℕ) × OwnedBy o' (step s c)
unfolding step
step-OwnedBy o (t, a) c v =
    (owner_after o (c.place t) a t, step_at-OwnedBy o (c.place t) a t c refl v)

pub run-OwnedBy :
    (o : Option ℕ) (ss : List (ℕ × Call)) (c : Config)
    → OwnedBy o c
    → (o' : Option ℕ) × OwnedBy o' (run ss c)
unfolding run
run-OwnedBy o [] c v = (o, v)
run-OwnedBy o (s ∷ ss) c v = let n = step-OwnedBy o s c v in run-OwnedBy n.0 ss (step s c) n.1

free-OwnedBy : OwnedBy none free
unfolding free
free-OwnedBy = record { flag = refl; holder = λ t. refl }

-- From a free lock, under every schedule of any number of threads that call `lock`, `try_lock` and
-- `unlock`, no two threads hold the lock at once, and the flag is set while one of them holds it.
pub mutual_exclusion :
    (ss : List (ℕ × Call)) (t u : ℕ)
    → is_holding ((run ss free).place t) ≡ true
    → is_holding ((run ss free).place u) ≡ true
    → (t ≡ u) × ((run ss free).locked ≡ true)
mutual_exclusion ss t u ht hu =
    let (o, v) = run-OwnedBy none ss free free-OwnedBy in owner_unique o (run ss free) t u v ht hu

-- A flag that is set while no thread holds the lock stays set, and no thread ever gets the lock.
step_at_lost :
    (p : Place) (a : Call) (t : ℕ) (c : Config)
    → c.place t ≡ p
    → c.locked ≡ true
    → ((u : ℕ) → is_holding (c.place u) ≡ false)
    → ((step_at p a t c).locked ≡ true) × ((u : ℕ) → is_holding ((step_at p a t c).place u) ≡ false)
unfolding step_at
step_at_lost outside calls_lock t c e l n = (ground arith, λ u. ground (arith, n u, n t))
step_at_lost p a t c e l n = (ground (arith, n t), λ u. ground (arith, n u, n t))

-- Once the flag is set with no thread holding the lock, no schedule ever gives it to anybody: every
-- later `lock` spins for ever and every later `try_lock` fails.
pub lost_lock_stays_lost :
    (ss : List (ℕ × Call)) (c : Config)
    → c.locked ≡ true
    → ((u : ℕ) → is_holding (c.place u) ≡ false)
    → ((run ss c).locked ≡ true) × ((u : ℕ) → is_holding ((run ss c).place u) ≡ false)
unfolding run step
lost_lock_stays_lost [] c l n = (l, n)
lost_lock_stays_lost ((t, a) ∷ ss) c l n =
    let s = step_at_lost (c.place t) a t c refl l n in
    lost_lock_stays_lost ss (step (t, a) c) s.0 s.1

unlock_step :
    (t u : ℕ) (c : Config)
    → OwnedBy (some t) c
    → c.place u ≡ spinning
    → ((step (t, calls_unlock) c).place u ≡ spinning) × ((step (t, calls_unlock) c).locked ≡ false)
unfolding step step_at
unlock_step t u c v s = ground (arith, v.holder t, v.holder u)

spin_steps :
    (u : ℕ) (a b : Call) (c : Config)
    → c.place u ≡ spinning
    → c.locked ≡ false
    → (step (u, b) (step (u, a) c)).place u ≡ holding
unfolding step step_at
spin_steps u a b c s l = ground arith

-- When the owner unlocks, a thread that spins in `lock` holds the lock after its next two steps,
-- if no other thread moves in between.
pub unlock_lets_in :
    (t u : ℕ) (a b : Call) (c : Config)
    → OwnedBy (some t) c
    → c.place u ≡ spinning
    → (run ((t, calls_unlock) ∷ (u, a) ∷ (u, b) ∷ []) c).place u ≡ holding
unfolding run
unlock_lets_in t u a b c v s =
    let r = unlock_step t u c v s in spin_steps u a b (step (t, calls_unlock) c) r.0 r.1
