-- ===== src/Can/Dispatcher/Wakeup/LostStop.antt =====
-- A stop that the reaper never sees: the counter of an earlier stop is still there when the reaper
-- tests for a stop, and its `read` takes the new write with it.
use hy_can.Can.Network.{CanFrame}
use hy_can.Can.Dispatcher.Wakeup.Batches.{
  dispatch_frame_running, IsFrame, IsStandardReady, IsStandardWake, batch-All, batch-IsFrame,
  handle_read_running,
}
use hy_can.Can.Dispatcher.Wakeup.{
  thread_moves-append, Ready, ready_stop, ready_frame, Place, reaper_waits, reaper_at_event,
  reaper_at_read, reaper_returned, reaper_crashed, caller_joins, Threads, Wake, wake_interrupted,
  wake_reported, Move, calls_start, calls_stop, caller_turn, reaper_turn, batch, thread_move,
  thread_moves, never_started, after_frame, wake_up, test_event, read_stop, read_event, reaper_step,
  joined, caller_step, start_thread, request_stop,
}
use hy_can.Can.Dispatcher.{dispatch_frame, max_std_can_id, Dispatcher, Reaper, running, handle_read}
use hy_can.Base.{
  ◌≢◌, ◌++◌, subst, refl, sym, ap, ◌∙◌, All, ℕ, ◌<◌, ◌≡◌, false, Option, List, [], ◌∷◌, arith,
}

abbrev IsQuiet : Place → Type 0
IsQuiet reaper_waits = Unit {0}
IsQuiet (reaper_at_event events) = All IsFrame events × All IsStandardReady events
IsQuiet (reaper_at_read event events) =
    IsFrame event × IsStandardReady event × All IsFrame events × All IsStandardReady events
IsQuiet _ = ⊥

-- The caller is at `join`, and no event of the eventfd is under way.
record IsHung {F : Type 0} (t : Threads F) : Type 0 where
  joining : t.caller ≡ caller_joins
  no_counter : t.counter ≡ 0
  quiet : IsQuiet t.reaper
  vacant : t.dispatcher.lock ≡ false

-- The wait is not interrupted by a signal, and the frames have identifiers below 2048.
abbrev pub IsUninterrupted : Move → Type 0
IsUninterrupted (reaper_turn wake_interrupted) = ⊥
IsUninterrupted (reaper_turn (wake_reported before after)) =
    IsStandardWake (wake_reported before after)
IsUninterrupted _ = Unit {0}

-- A start and a stop, a start again, and a stop whose write falls between the reaper's test and its
-- read.
abbrev pub unlucky : List Move
unlucky =
    let wakes = reaper_turn (wake_reported [] []) in
    calls_start ∷ calls_stop ∷ caller_turn ∷ wakes ∷ wakes ∷ caller_turn ∷ calls_start ∷ wakes
    ∷ wakes ∷ calls_stop ∷ caller_turn ∷ wakes ∷ []

module _ {F : Type 0} (frame_of : ℕ → CanFrame) where
  read_frame-IsHung :
      (r : Reaper F) (events : List Ready) (t : Threads F)
      → t.caller ≡ caller_joins
      → t.counter ≡ 0
      → All IsFrame events × All IsStandardReady events
      → (d : Dispatcher F) × (r ≡ running d) × (d.lock ≡ false)
      → IsHung (after_frame frame_of r events t)
  unfolding after_frame
  read_frame-IsHung (running d) events t joins zeroed quiet (d', e, vacant) = record {
    joining = joins;
    no_counter = zeroed;
    quiet = quiet;
    vacant = ground arith;
  }
  read_frame-IsHung r events t joins zeroed quiet (d', e, vacant) = absurd (ground (arith, e))

  wake-IsHung :
      (before after : List (Option CanFrame)) (t : Threads F)
      → IsStandardWake (wake_reported before after)
      → IsHung t
      → IsHung (record t { reaper = reaper_at_event (batch t.counter before after) })
  wake-IsHung before after t w h = record {
    joining = h.joining;
    no_counter = h.no_counter;
    quiet = rw h.no_counter (batch-IsFrame before after, batch-All 0 before after w.0 w.1);
    vacant = h.vacant;
  }

  reaper_step-IsHung :
      (place : Place) (wake : Wake) (t : Threads F)
      → IsUninterrupted (reaper_turn wake)
      → IsQuiet place
      → IsHung t
      → IsHung (reaper_step frame_of place wake t)
  unfolding reaper_step wake_up test_event read_event
  reaper_step-IsHung reaper_waits wake_interrupted t w quiet h = absurd w
  reaper_step-IsHung reaper_waits (wake_reported before after) t w quiet h =
      wake-IsHung before after t w h
  reaper_step-IsHung (reaper_at_event []) wake t w quiet h = record {
    joining = h.joining;
    no_counter = h.no_counter;
    quiet = tt;
    vacant = h.vacant;
  }
  reaper_step-IsHung (reaper_at_event (ready_stop ∷ events)) wake t w quiet h = absurd quiet.0.0
  reaper_step-IsHung (reaper_at_event (ready_frame frame ∷ events)) wake t w quiet h = record {
    joining = h.joining;
    no_counter = h.no_counter;
    quiet = (tt, quiet.1.0, quiet.0.1, quiet.1.1);
    vacant = h.vacant;
  }
  reaper_step-IsHung (reaper_at_read ready_stop events) wake t w quiet h = absurd quiet.0
  reaper_step-IsHung (reaper_at_read (ready_frame frame) events) wake t w quiet h =
      read_frame-IsHung (handle_read frame t.dispatcher) events t h.joining h.no_counter
        (quiet.2, quiet.3) (handle_read_running frame t.dispatcher quiet.1 h.vacant)
  reaper_step-IsHung reaper_returned wake t w quiet h = absurd quiet
  reaper_step-IsHung reaper_crashed wake t w quiet h = absurd quiet

  still_joins : (place : Place) (t : Threads F) → IsQuiet place → joined frame_of place t ≡ t
  unfolding joined
  still_joins reaper_returned t quiet = absurd quiet
  still_joins reaper_waits t quiet = refl
  still_joins (reaper_at_event events) t quiet = refl
  still_joins (reaper_at_read event events) t quiet = refl
  still_joins reaper_crashed t quiet = refl

  thread_move-IsHung :
      (m : Move) (t : Threads F) → IsUninterrupted m → IsHung t → IsHung (thread_move frame_of m t)
  unfolding thread_move start_thread request_stop caller_step
  thread_move-IsHung calls_start t w h =
      subst IsHung (sym (ap (λ c. start_thread frame_of c t) h.joining)) h
  thread_move-IsHung calls_stop t w h =
      subst IsHung (sym (ap (λ c. request_stop frame_of c t) h.joining)) h
  thread_move-IsHung caller_turn t w h =
      subst IsHung
        (sym (ap (λ c. caller_step frame_of c t) h.joining ∙ still_joins t.reaper t h.quiet)) h
  thread_move-IsHung (reaper_turn wake) t w h = reaper_step-IsHung t.reaper wake t w h.quiet h

  thread_moves-IsHung :
      (ms : List Move) (t : Threads F)
      → All IsUninterrupted ms
      → IsHung t
      → IsHung (thread_moves frame_of ms t)
  unfolding thread_moves
  thread_moves-IsHung [] t w h = h
  thread_moves-IsHung (m ∷ ms) t w h =
      thread_moves-IsHung ms (thread_move frame_of m t) w.1 (thread_move-IsHung m t w.0 h)

  unlucky-IsHung :
      (d : Dispatcher F)
      → d.lock ≡ false
      → (frame_of 2).can_id < max_std_can_id
      → IsHung (thread_moves frame_of unlucky (never_started frame_of d))
  unfolding thread_moves thread_move start_thread request_stop caller_step joined reaper_step
      wake_up test_event read_event read_stop
  unlucky-IsHung d vacant low =
      read_frame-IsHung (dispatch_frame (frame_of 2) d) [] _ refl refl (tt, tt)
        (dispatch_frame_running (frame_of 2) d low vacant)

  -- The second stop of a dispatcher can wait for ever: after a start, a stop and a second start, there
  -- is an order of the steps of the second stop and of the new reaper after which the stop stays at
  -- its join, whatever comes next, as long as no signal interrupts `epoll_wait`. The lock is free, the
  -- frames that come have identifiers below 2048, and so has the counter of 2 read as a frame.
  pub second_stop_can_hang :
      (d : Dispatcher F)
      → d.lock ≡ false
      → (frame_of 2).can_id < max_std_can_id
      → (later : List Move) → All IsUninterrupted later
      → let t = thread_moves frame_of (unlucky ++ later) (never_started frame_of d) in
        (t.caller ≡ caller_joins) × (t.counter ≡ 0) × (t.reaper ≢ reaper_returned)
  second_stop_can_hang d vacant low later w =
      let h = thread_moves-IsHung later _ w (unlucky-IsHung d vacant low) in
      let same = thread_moves-append frame_of unlucky later (never_started frame_of d) in
      subst (λ t. (t.caller ≡ caller_joins) × (t.counter ≡ 0) × (t.reaper ≢ reaper_returned))
        (sym same) (h.joining, h.no_counter, λ e. subst IsQuiet e h.quiet)
