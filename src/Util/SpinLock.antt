-- ===== src/Util/SpinLock.antt =====
-- include/HyCAN/Util/SpinLock.hpp, with any number of threads whose atomic operations interleave.
-- Each atomic load, exchange or store is one step; the schedule says which thread moves next.
pub mod Exclusion
use hy_can.Base.{◌==◌, if◌then◌else◌, ℕ, Bool, true, false, List, [], ◌∷◌}

-- Where a thread stands: outside the lock, before the exchange of `lock`, in its inner loop, between
-- the load and the exchange of `try_lock`, or with the lock held.
pub data Place : Type 0 where
  outside exchanging spinning trying holding : Place

-- What a thread that is outside, or one that holds the lock, does next.
pub data Call : Type 0 where
  calls_lock calls_try_lock calls_unlock : Call

pub record Config : Type 0 where
  pub locked : Bool
  pub place : ℕ → Place

abbrev pub moved : (ℕ → Place) → ℕ → Place → ℕ → Place
moved f t p u = if t == u then p else f u

-- Thread `t` moves to `p`, and the atomic flag becomes `b`.
abbrev pub goes : Config → ℕ → Bool → Place → Config
goes c t b p = record { locked = b; place = moved c.place t p }

-- One step of thread `t`, which stands at `p`.
step_at : Place → Call → ℕ → Config → Config
step_at outside calls_lock t c = goes c t c.locked exchanging
step_at outside calls_try_lock t c = goes c t c.locked (if c.locked then outside else trying)
step_at outside calls_unlock t c = c
step_at exchanging _ t c = goes c t true (if c.locked then spinning else holding)
step_at spinning _ t c = goes c t c.locked (if c.locked then spinning else exchanging)
step_at trying _ t c = goes c t true (if c.locked then outside else holding)
step_at holding calls_unlock t c = goes c t false outside
step_at holding calls_lock t c = c
step_at holding calls_try_lock t c = c

unfoldable pub step : ℕ × Call → Config → Config
unfolding step_at
step (t, a) c = step_at (c.place t) a t c

unfoldable pub run : List (ℕ × Call) → Config → Config
run [] c = c
run (s ∷ ss) c = run ss (step s c)

unfoldable pub free : Config
free = record { locked = false; place = λ t. outside }
