-- ===== src/Tests/Wakeups.antt =====
-- A first stop that ends and a second that does not, with a callback for no identifier.
use hy_can.Can.Network.{CanFrame}
use hy_can.Can.Dispatcher.Wakeup.LostStop.{unlucky, second_stop_can_hang}
use hy_can.Can.Dispatcher.Wakeup.ReaperSteps.{IsFirstMove, reaper_turns}
use hy_can.Can.Dispatcher.Wakeup.Joining.{HasStopped, first_stop_returns}
use hy_can.Can.Dispatcher.Wakeup.{
  reaper_returned, caller_joins, wake_reported, Move, calls_start, calls_stop, caller_turn,
  reaper_turn, thread_move, thread_moves, never_started,
}
use hy_can.Can.Dispatcher.{Dispatcher}
use hy_can.Base.{
  All, ℕ, zero, suc, ◌≤◌, ◌≡◌, refl, ◌≢◌, false, none, some, List, [], ◌∷◌, ◌++◌, arith,
}

-- What the counter of an eventfd leaves in a zeroed frame.
abbrev eventfd_frame : ℕ → CanFrame
eventfd_frame n = record { can_id = n; len = 0; bytes = [] }

abbrev deaf : Dispatcher ℕ
deaf = record { funcs = λ id. none; lock = false; calls = [] }

-- The reaper in its wait, again and again.
waking : ℕ → List Move
waking zero = []
waking (suc n) = reaper_turn (wake_reported [] []) ∷ waking n

waking-All : (n : ℕ) → All IsFirstMove (waking n)
unfolding waking
waking-All zero = tt
waking-All (suc n) = ((tt, tt, omega arith), waking-All n)

reaper_turns-waking : (n : ℕ) → n ≤ reaper_turns (waking n)
unfolding waking
reaper_turns-waking zero = omega arith
reaper_turns-waking (suc n) = omega (arith, reaper_turns-waking n)

abbrev one_stop : List Move
one_stop =
    reaper_turn (wake_reported (some (eventfd_frame 5) ∷ []) []) ∷ calls_stop ∷ caller_turn ∷ []

at_join :
    (thread_moves eventfd_frame one_stop
      (thread_move eventfd_frame calls_start (never_started eventfd_frame deaf))).caller
    ≡ caller_joins
unfolding thread_moves thread_move
at_join = refl

first_stop_returns_example : HasStopped eventfd_frame (
    thread_moves eventfd_frame (waking 8193 ++ caller_turn ∷ []) (
      thread_moves eventfd_frame one_stop
        (thread_move eventfd_frame calls_start (never_started eventfd_frame deaf))))
first_stop_returns_example =
    first_stop_returns eventfd_frame deaf refl one_stop
      (((omega arith, tt), tt, omega arith), (tt, (tt, tt))) at_join (waking 8193) (waking-All 8193)
      (reaper_turns-waking 8193)

abbrev frames_later : List Move
frames_later =
    reaper_turn (wake_reported (some (eventfd_frame 7) ∷ []) [])
    ∷ reaper_turn (wake_reported [] [])
    ∷ reaper_turn (wake_reported [] [])
    ∷ caller_turn
    ∷ []

second_stop_can_hang_example :
    let t =
      thread_moves eventfd_frame (unlucky ++ frames_later) (never_started eventfd_frame deaf) in
    (t.caller ≡ caller_joins) × (t.counter ≡ 0) × (t.reaper ≢ reaper_returned)
second_stop_can_hang_example =
    second_stop_can_hang eventfd_frame deaf refl (omega arith) frames_later (
      ((omega arith, tt), tt, omega arith),
      ((tt, tt, omega arith), ((tt, tt, omega arith), (tt, tt))),
    )
