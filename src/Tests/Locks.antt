-- ===== src/Tests/Locks.antt =====
-- A schedule of two threads at the spin lock.
use hy_can.Base.{ℕ, ◌≡◌, refl, true, List, [], ◌∷◌}
use hy_can.Util.SpinLock.Exclusion.{is_holding, mutual_exclusion}
use hy_can.Util.SpinLock.{Call, calls_lock, calls_unlock, step, run, free}

abbrev the_second : ℕ
the_second = 2

abbrev schedule : List (ℕ × Call)
schedule =
    (1, calls_lock)
    ∷ (2, calls_lock)
    ∷ (1, calls_lock)
    ∷ (2, calls_lock)
    ∷ (1, calls_unlock)
    ∷ (2, calls_lock)
    ∷ (2, calls_lock)
    ∷ []

second_holds : is_holding ((run schedule free).place the_second) ≡ true
unfolding run step free
second_holds = refl

mutual_exclusion_example : (the_second ≡ the_second) × ((run schedule free).locked ≡ true)
mutual_exclusion_example = mutual_exclusion schedule the_second the_second second_holds second_holds
