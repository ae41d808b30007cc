-- ===== src/Can/Dispatcher/Wakeup/CallerSteps.antt =====
-- What the caller of `start` and `stop` keeps of the first stop.
use hy_can.Base.{if-cases, ℕ, subst, ◌≡◌, refl, Bool, true, arith}
use hy_can.Can.Network.{CanFrame}
use hy_can.Can.Dispatcher.Wakeup.ReaperSteps.{IsOnTime, IsCalling, IsFirst}
use hy_can.Can.Dispatcher.Wakeup.{
  Place, reaper_waits, reaper_at_event, reaper_at_read, reaper_returned, reaper_crashed, Caller,
  caller_free, caller_writes, caller_joins, Threads, joined, caller_step, request_stop,
}

stops-IsOnTime :
    (is_stopping : Bool) (place : Place) → IsOnTime is_stopping place → IsOnTime true place
stops-IsOnTime is_stopping reaper_waits h = tt
stops-IsOnTime is_stopping (reaper_at_event events) h = (h.0, h.1, λ e. absurd (ground (arith, e)))
stops-IsOnTime is_stopping (reaper_at_read event events) h =
    (h.0, h.1, h.2, h.3, λ e. absurd (ground (arith, e)))
stops-IsOnTime is_stopping reaper_returned h = refl
stops-IsOnTime is_stopping reaper_crashed h = h

module _ {F : Type 0} (frame_of : ℕ → CanFrame) where
  -- A move that is not the reaper's changes the place of the reaper only by nothing.
  abbrev pub Kept : Threads F → Threads F → Type 0
  Kept t t' = IsFirst t' × (t'.reaper ≡ t.reaper)

  pub request-IsFirst :
      (c : Caller) (t : Threads F) → t.caller ≡ c → IsFirst t → Kept t (request_stop frame_of c t)
  unfolding request_stop
  request-IsFirst caller_free t e h =
      if-cases (Kept t) t.joinable (record t { is_stopping = true; caller = caller_writes }) t
        (λ joinable. (
          record {
            seen = λ still. absurd (ground (arith, still));
            on_time = stops-IsOnTime t.is_stopping t.reaper h.on_time;
            calling = refl;
            vacant = h.vacant;
          },
          refl,
        ))
        (λ none_there. (h, refl))
  request-IsFirst caller_writes t e h = (h, refl)
  request-IsFirst caller_joins t e h = (h, refl)

  joined-IsFirst :
      (place : Place) (t : Threads F)
      → t.reaper ≡ place
      → IsFirst t
      → Kept t (joined frame_of place t)
  unfolding joined
  joined-IsFirst reaper_returned t e h =
      (record { seen = h.seen; on_time = h.on_time; calling = λ s. refl; vacant = h.vacant }, refl)
  joined-IsFirst reaper_waits t e h = (h, refl)
  joined-IsFirst (reaper_at_event events) t e h = (h, refl)
  joined-IsFirst (reaper_at_read event events) t e h = (h, refl)
  joined-IsFirst reaper_crashed t e h = (h, refl)

  pub caller_step-IsFirst :
      (c : Caller) (t : Threads F) → t.caller ≡ c → IsFirst t → Kept t (caller_step frame_of c t)
  unfolding caller_step joined
  caller_step-IsFirst caller_free t e h = (h, refl)
  caller_step-IsFirst caller_writes t e h =
      let stopping : t.is_stopping ≡ true =
        subst (IsCalling t.counter t.is_stopping t.joinable) e h.calling in
      (
        record {
          seen = λ still. cc;
          on_time = h.on_time;
          calling = (stopping, omega arith);
          vacant = h.vacant;
        },
        refl,
      )
  caller_step-IsFirst caller_joins t e h = joined-IsFirst t.reaper t refl h
