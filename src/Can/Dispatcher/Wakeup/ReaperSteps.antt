-- ===== src/Can/Dispatcher/Wakeup/ReaperSteps.antt =====
-- How near the first stop is to the end of the reaper, and what a step of the reaper keeps of it.
use hy_can.Can.Network.{CanFrame}
use hy_can.Can.Dispatcher.Wakeup.Batches.{
  IsFrame, IsStandardReady, max_epoll_event, IsStandardWake, batch-All, batch-IsFrame, length-batch,
  handle_read_running,
}
use hy_can.Can.Dispatcher.Wakeup.{
  Ready, ready_stop, ready_frame, Place, reaper_waits, reaper_at_event, reaper_at_read,
  reaper_returned, reaper_crashed, Caller, caller_free, caller_writes, caller_joins, Threads, Wake,
  wake_interrupted, wake_reported, Move, calls_start, reaper_turn, batch, after_frame, wake_up,
  test_event, read_event, reaper_step,
}
use hy_can.Can.Dispatcher.{Dispatcher, Reaper, running, handle_read}
use hy_can.Base.{
  if-cases, All, length, ℕ, zero, suc, ◌+◌, ◌-◌, ◌≤◌, ◌<◌, ◌≡◌, refl, Bool, true, false, Option,
  List, [], ◌∷◌, ◌++◌, map, arith,
}

abbrev pub IsUnseen : List Ready → Bool → Type 0
IsUnseen events is_stopping = is_stopping ≡ false → All IsFrame events

-- Where the reaper can be, by whether a stop was requested.
abbrev pub IsOnTime : Bool → Place → Type 0
IsOnTime is_stopping reaper_waits = Unit {0}
IsOnTime is_stopping (reaper_at_event events) =
    All IsStandardReady events × (length events ≤ max_epoll_event) × IsUnseen events is_stopping
IsOnTime is_stopping (reaper_at_read event events) =
    IsFrame event
    × IsStandardReady event
    × All IsStandardReady events
    × (length events < max_epoll_event)
    × IsUnseen events is_stopping
IsOnTime is_stopping reaper_returned = is_stopping ≡ true
IsOnTime is_stopping reaper_crashed = ⊥

-- Where the caller can be, by the counter, the request and whether there is a thread.
abbrev pub IsCalling : ℕ → Bool → Bool → Caller → Type 0
IsCalling counter is_stopping joinable caller_free = is_stopping ≡ true → joinable ≡ false
IsCalling counter is_stopping joinable caller_writes = is_stopping ≡ true
IsCalling counter is_stopping joinable caller_joins = (is_stopping ≡ true) × (0 < counter)

pub record IsFirst {F : Type 0} (t : Threads F) : Type 0 where
  pub seen : t.is_stopping ≡ false → t.counter ≡ 0
  pub on_time : IsOnTime t.is_stopping t.reaper
  pub calling : IsCalling t.counter t.is_stopping t.joinable t.caller
  pub vacant : t.dispatcher.lock ≡ false

-- No second start; the frames have identifiers below 2048, and a batch has at most 2048 events.
abbrev pub IsFirstMove : Move → Type 0
IsFirstMove calls_start = ⊥
IsFirstMove (reaper_turn wake) = IsStandardWake wake
IsFirstMove _ = Unit {0}

-- How many steps the reaper takes at most until it sees the stop.
abbrev pub steps_to_stop : List Ready → ℕ
steps_to_stop [] = 4097
steps_to_stop (ready_stop ∷ events) = 1
steps_to_stop (ready_frame frame ∷ events) = 2 + steps_to_stop events

abbrev pub to_go : Place → ℕ
to_go reaper_waits = 4096
to_go (reaper_at_event events) = steps_to_stop events
to_go (reaper_at_read event events) = suc (steps_to_stop events)
to_go _ = 0

abbrev pub turns_of : Move → ℕ
turns_of (reaper_turn wake) = 1
turns_of _ = 0

abbrev pub reaper_turns : List Move → ℕ
reaper_turns [] = 0
reaper_turns (m ∷ ms) = turns_of m + reaper_turns ms

steps_to_stop-le :
    (events : List Ready) → steps_to_stop events ≤ 4097 + (length events + length events)
steps_to_stop-le [] = omega arith
steps_to_stop-le (ready_stop ∷ events) = omega arith
steps_to_stop-le (ready_frame frame ∷ events) = omega (arith, steps_to_stop-le events)

steps_to_stop-frames :
    (frames : List (Option CanFrame)) (events : List Ready)
    → steps_to_stop (map ready_frame frames ++ ready_stop ∷ events)
      ≡ suc (length frames + length frames)
steps_to_stop-frames [] events = omega arith
steps_to_stop-frames (frame ∷ frames) events = omega (arith, steps_to_stop-frames frames events)

pub to_go-le :
    (is_stopping : Bool) (place : Place) → IsOnTime is_stopping place → to_go place ≤ 8193
to_go-le is_stopping reaper_waits h = omega arith
to_go-le is_stopping (reaper_at_event events) h = omega (arith, steps_to_stop-le events)
to_go-le is_stopping (reaper_at_read event events) h = omega (arith, steps_to_stop-le events)
to_go-le is_stopping reaper_returned h = omega arith
to_go-le is_stopping reaper_crashed h = absurd h

to_go-batch :
    (counter : ℕ) (before after : List (Option CanFrame))
    → 0 < counter
    → length before + length after < max_epoll_event
    → steps_to_stop (batch counter before after) ≤ 4095
to_go-batch zero before after h fits = absurd (omega arith)
to_go-batch (suc n) before after h fits =
    omega (arith, steps_to_stop-frames before (map ready_frame after))

steps_to_stop-pos : (events : List Ready) → 0 < steps_to_stop events
steps_to_stop-pos [] = omega arith
steps_to_stop-pos (ready_stop ∷ events) = omega arith
steps_to_stop-pos (ready_frame frame ∷ events) = omega arith

pub at_end :
    (is_stopping : Bool) (place : Place)
    → IsOnTime is_stopping place
    → to_go place ≤ 0
    → place ≡ reaper_returned
at_end is_stopping reaper_waits h n = absurd (omega arith)
at_end is_stopping (reaper_at_event events) h n = absurd (omega (arith, steps_to_stop-pos events))
at_end is_stopping (reaper_at_read event events) h n = absurd (omega arith)
at_end is_stopping reaper_returned h n = refl
at_end is_stopping reaper_crashed h n = absurd h

module _ {F : Type 0} (frame_of : ℕ → CanFrame) where
  read_frame-IsFirst :
      (r : Reaper F) (events : List Ready) (t : Threads F)
      → IsFirst t
      → IsOnTime t.is_stopping (reaper_at_event events)
      → (d : Dispatcher F) × (r ≡ running d) × (d.lock ≡ false)
      → IsFirst (after_frame frame_of r events t)
        × (to_go (after_frame frame_of r events t).reaper ≡ steps_to_stop events)
        × ((after_frame frame_of r events t).caller ≡ t.caller)
  unfolding after_frame
  read_frame-IsFirst (running d) events t h on_time (d', e, vacant) = (
    record { seen = h.seen; on_time = on_time; calling = h.calling; vacant = ground arith },
    refl,
    refl,
  )
  read_frame-IsFirst r events t h on_time (d', e, vacant) = absurd (ground (arith, e))

  IsUnseen-batch :
      (t : Threads F) (before after : List (Option CanFrame))
      → IsFirst t
      → IsUnseen (batch t.counter before after) t.is_stopping
  IsUnseen-batch t before after h still = rw (h.seen still) (batch-IsFrame before after)

  -- What a step of the reaper keeps, and that it comes nearer to its end once the stop is written.
  abbrev pub Nearer : Place → Threads F → Threads F → Type 0
  Nearer place t t' =
      IsFirst t'
      × (t'.caller ≡ t.caller)
      × (0 < t.counter → t.is_stopping ≡ true → to_go t'.reaper ≤ to_go place - 1)

  leaves_loop :
      (place : Place) (t : Threads F)
      → t.is_stopping ≡ true
      → IsFirst t
      → Nearer place t (record t { reaper = reaper_returned })
  leaves_loop place t stopping h = (
    record { seen = h.seen; on_time = stopping; calling = h.calling; vacant = h.vacant },
    refl,
    λ written s. omega arith,
  )

  pub reaper_step-IsFirst :
      (place : Place) (wake : Wake) (t : Threads F)
      → IsStandardWake wake
      → IsOnTime t.is_stopping place
      → t.reaper ≡ place
      → IsFirst t
      → Nearer place t (reaper_step frame_of place wake t)
  unfolding reaper_step wake_up test_event read_event
  reaper_step-IsFirst reaper_waits wake_interrupted t w on_time e h =
      if-cases (Nearer reaper_waits t) t.is_stopping (record t { reaper = reaper_returned }) t
        (λ stopping. leaves_loop reaper_waits t stopping h)
        (λ still. (h, refl, λ written stopping. cc))
  reaper_step-IsFirst reaper_waits (wake_reported before after) t w on_time e h = (
    record {
      seen = h.seen;
      on_time = (
        batch-All t.counter before after w.0 w.1,
        omega (arith, length-batch t.counter before after),
        IsUnseen-batch t before after h,
      );
      calling = h.calling;
      vacant = h.vacant;
    },
    refl,
    λ written stopping. omega (arith, to_go-batch t.counter before after written w.2),
  )
  reaper_step-IsFirst (reaper_at_event []) wake t w on_time e h = (
    record { seen = h.seen; on_time = tt; calling = h.calling; vacant = h.vacant },
    refl,
    λ written stopping. omega arith,
  )
  reaper_step-IsFirst (reaper_at_event (ready_stop ∷ events)) wake t w on_time e h =
      let at_stop = reaper_at_event (ready_stop ∷ events) in
      if-cases (Nearer at_stop t) t.is_stopping (record t { reaper = reaper_returned })
        (record t { reaper = reaper_at_read ready_stop events })
        (λ stopping. leaves_loop at_stop t stopping h) (λ still. absurd ((on_time.2 still).0))
  reaper_step-IsFirst (reaper_at_event (ready_frame frame ∷ events)) wake t w on_time e h = (
    record {
      seen = h.seen;
      on_time =
          (tt, on_time.0.0, on_time.0.1, omega (arith, on_time.1), λ still. (on_time.2 still).1);
      calling = h.calling;
      vacant = h.vacant;
    },
    refl,
    λ written stopping. omega arith,
  )
  reaper_step-IsFirst (reaper_at_read ready_stop events) wake t w on_time e h = absurd on_time.0
  reaper_step-IsFirst (reaper_at_read (ready_frame frame) events) wake t w on_time e h =
      let read =
        read_frame-IsFirst (handle_read frame t.dispatcher) events t h
          (on_time.2, omega (arith, on_time.3), on_time.4)
          (handle_read_running frame t.dispatcher on_time.1 h.vacant) in
      (read.0, read.2, λ written stopping. omega (arith, read.1))
  reaper_step-IsFirst reaper_returned wake t w on_time e h =
      (h, refl, λ written stopping. rw e (omega arith))
  reaper_step-IsFirst reaper_crashed wake t w on_time e h = absurd on_time
