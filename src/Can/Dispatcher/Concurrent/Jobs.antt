-- ===== src/Can/Dispatcher/Concurrent/Jobs.antt =====
-- The specification of concurrent registrations and frames: whole jobs, one at a time.
use hy_can.Base.{◌<◌, Bool, true, false, Option, none, some, List, [], ◌∷◌}
use hy_can.Util.Error.{Expected}
use hy_can.Can.Dispatcher.Registration.{AreStandard}
use hy_can.Can.Dispatcher.Concurrent.{
  Job, job_register, job_dispatch, Work, in_registration, in_callback, Turn, begins, goes_on,
}
use hy_can.Can.Dispatcher.{
  max_std_can_id, new_dispatcher, register_func, dispatch_frame, Dispatcher, Reaper, running,
}

module _ {F : Type 0} where
  abbrev pub of_registration : Option (Expected (Unit {0}) × Dispatcher F) → Option (Dispatcher F)
  of_registration none = none
  of_registration (some r) = some r.1

  abbrev pub of_dispatch : Reaper F → Option (Dispatcher F)
  of_dispatch (running d) = some d
  of_dispatch _ = none

  -- A whole job by itself.
  abbrev pub do_job : Job F → Dispatcher F → Option (Dispatcher F)
  do_job (job_register ids f) d = of_registration (register_func ids f d)
  do_job (job_dispatch frame) d = of_dispatch (dispatch_frame frame d)

  -- The jobs one after the other on a new dispatcher; the list has the latest first.
  unfoldable pub one_at_a_time : List (Job F) → Option (Dispatcher F)
  one_at_a_time [] = some new_dispatcher
  one_at_a_time (job ∷ jobs) = elim (one_at_a_time jobs) [ none ↦ none | some d ↦ do_job job d ]

  abbrev pub in_section : Work F → Bool
  in_section (in_registration ids rest f) = true
  in_section (in_callback frame) = true
  in_section _ = false

  -- The identifiers of a job are below 2048.
  abbrev pub IsStandardJob : Job F → Type 0
  IsStandardJob (job_register ids f) = AreStandard ids
  IsStandardJob (job_dispatch frame) = frame.can_id < max_std_can_id

  abbrev pub IsStandardTurn : Turn F → Type 0
  IsStandardTurn (begins t job) = IsStandardJob job
  IsStandardTurn (goes_on t) = Unit {0}
