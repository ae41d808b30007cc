-- ===== src/Tests/Races.antt =====
-- Threads that share the manager of src/Interface/IPCManager.cpp.

use hy_can.Base.{ℕ, ◌≡◌, refl, true, false, some, List, [], ◌∷◌, arith}
use hy_can.IpcManager.Race.{
  Turn, goes_on, outside, ends, step, run, first_shared, first_call, race, first_call_alone,
  shared_client_is_freed,
}

-- Two threads call after thread 3 has its client, and all operations end.
abbrev two_more : List (ℕ × Turn)
two_more =
    (1, goes_on)
    ∷ (2, goes_on)
    ∷ (1, goes_on)
    ∷ (2, goes_on)
    ∷ (1, ends)
    ∷ (3, ends)
    ∷ (2, ends)
    ∷ []

first_call_alone_example :
    let s = run two_more (run (first_call 3) first_shared) in
    (s.has_faulted ≡ false) × (s.client ≡ some 0) × (s.made ≡ 1)
first_call_alone_example = first_call_alone 3 two_more

is_early : first_shared.initialized ≡ false
unfolding first_shared
is_early = refl

is_outside : (t : ℕ) → first_shared.place t ≡ outside
unfolding first_shared
is_outside t = refl

shared_client_is_freed_example : (run (race 1 2) first_shared).has_faulted ≡ true
shared_client_is_freed_example =
    shared_client_is_freed 1 2 first_shared (λ e. ground (arith, e)) is_early (is_outside 1)
      (is_outside 2)

-- Both threads made a client, and the second one is left.
both_made :
    ((run (race 1 2) first_shared).made ≡ 2) × ((run (race 1 2) first_shared).client ≡ some 1)
unfolding run step first_shared
both_made = (refl, refl)
