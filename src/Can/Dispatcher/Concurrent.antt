-- ===== src/Can/Dispatcher/Concurrent.antt =====
-- The dispatcher under its spin lock, with any number of threads: those that call `register_func` of
-- include/HyCAN/Interface/Dispatcher.hpp, and the reaper of src/Interface/Dispatcher.cpp. One step is the
-- lock, the unlock, one entry of the table or one callback. That the lock lets one thread in at a time is
-- Util/SpinLock.
pub mod Jobs
pub mod Invariant
pub mod Serial
use hy_can.Base.{leb, ◌==◌, if◌then◌else◌, ℕ, true, Option, none, some, List, [], ◌∷◌}
use hy_can.Can.Network.{CanFrame}
use hy_can.Can.Dispatcher.{
  max_std_can_id, new_dispatcher, assign, lock_unlock, call_func, Dispatcher, running,
}

-- What a thread has to do.
pub data Job (F : Type 0) : Type 0 where
  job_register : List ℕ → F → Job F
  job_dispatch : CanFrame → Job F

-- Where it is: at rest, before the lock, or within it: in the loop of `register_func`, with all its
-- identifiers and those to come, or at the callback of a frame.
pub data Work (F : Type 0) : Type 0 where
  at_rest : Work F
  at_lock : Job F → Work F
  in_registration : List ℕ → List ℕ → F → Work F
  in_callback : CanFrame → Work F

pub record Shared (F : Type 0) : Type 0 where
  pub dispatcher : Dispatcher F
  pub work : ℕ → Work F
  -- The jobs that were done, in the order in which they left the lock, the latest first.
  pub history : List (Job F)

-- A thread at rest gets a job, or a thread goes on.
pub data Turn (F : Type 0) : Type 0 where
  begins : ℕ → Job F → Turn F
  goes_on : ℕ → Turn F

module _ {F : Type 0} where
  abbrev pub put_work : (ℕ → Work F) → ℕ → Work F → ℕ → Work F
  put_work work t w u = if t == u then w else work u

  abbrev pub enter : Job F → Work F
  enter (job_register ids f) = in_registration ids ids f
  enter (job_dispatch frame) = in_callback frame

  abbrev pub change : Shared F → ℕ → Work F → Dispatcher F → Shared F
  change s t w d = record s { dispatcher = d; work = put_work s.work t w }

  -- Thread `t` at its place; `none` is a read past the end of `funcs`.
  turn_at : Work F → ℕ → Shared F → Option (Shared F)
  turn_at at_rest t s = some s
  turn_at (at_lock job) t s =
      if s.dispatcher.lock
      then some s
      else some (change s t (enter job) (record (s.dispatcher) { lock = true }))
  turn_at (in_registration ids [] f) t s = some (record s {
    dispatcher = lock_unlock s.dispatcher;
    work = put_work s.work t at_rest;
    history = job_register ids f ∷ s.history;
  })
  turn_at (in_registration ids (id ∷ rest) f) t s =
      if leb max_std_can_id id
      then some (change s t at_rest s.dispatcher)
      else some (
          change s t (in_registration ids rest f)
            (record (s.dispatcher) { funcs = assign s.dispatcher.funcs id f }))
  turn_at (in_callback frame) t s =
      if leb max_std_can_id frame.can_id
      then none
      else some (record s {
        dispatcher = lock_unlock (call_func (s.dispatcher.funcs frame.can_id) frame s.dispatcher);
        work = put_work s.work t at_rest;
        history = job_dispatch frame ∷ s.history;
      })

  begin_at : Work F → ℕ → Job F → Shared F → Shared F
  begin_at at_rest t job s = change s t (at_lock job) s.dispatcher
  begin_at _ t job s = s

  unfoldable pub turn : Turn F → Shared F → Option (Shared F)
  unfolding turn_at begin_at call_func
  turn (begins t job) s = some (begin_at (s.work t) t job s)
  turn (goes_on t) s = turn_at (s.work t) t s

  unfoldable pub turns : List (Turn F) → Shared F → Option (Shared F)
  turns [] s = some s
  turns (m ∷ ms) s = elim (turn m s) [ none ↦ none | some s' ↦ turns ms s' ]

  -- A new dispatcher, and no thread at work.
  unfoldable pub at_first_turn : Shared F
  at_first_turn = record { dispatcher = new_dispatcher; work = λ t. at_rest; history = [] }
