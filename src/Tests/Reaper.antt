-- ===== src/Tests/Reaper.antt =====
-- The cores, a restart and registered callbacks on the frames of
-- Tests/Buses.antt.
use hy_can.Can.Dispatcher.Concurrent.Serial.{interleavings_are_serial}
use hy_can.Can.Dispatcher.Concurrent.Jobs.{one_at_a_time, in_section, IsStandardTurn}
use hy_can.Can.Dispatcher.Concurrent.{
  job_register, job_dispatch, Shared, Turn, begins, goes_on, turns, at_first_turn,
}
use hy_can.Tests.Buses.{waits, waits-IsPlainWait}
use hy_can.Can.Dispatcher.Subscriptions.{Registrations, register_all, subscribed, subscriptions_lem}
use hy_can.Can.Dispatcher.Restart.{
  Restart, reaper_round, restart, halt, at_work, restart_calls_callback,
}
use hy_can.Can.Dispatcher.Registration.{AreStandard}
use hy_can.Can.Dispatcher.Reaping.{events_of}
use hy_can.Can.Dispatcher.Delivery.{calls_of}
use hy_can.Base.{
  true, pos, All, ◌==◌, if◌then◌else◌, ℕ, ◌≡◌, refl, false, none, some, List, [], ◌∷◌, reverse,
  arith, flat_map,
}
use hy_can.Can.Network.{CanFrame}
use hy_can.Can.Dispatcher.{new_dispatcher, reap_process, running, Dispatcher}

-- What the counter of an eventfd leaves in a zeroed frame.
abbrev counter_frame : ℕ → CanFrame
counter_frame n = record { can_id = n; len = 0; bytes = [] }

abbrev one_callback : Dispatcher ℕ
one_callback = record { funcs = λ id. if id == 1 then some 9 else none; lock = false; calls = [] }

restart_calls_callback_example :
    (stopped : Restart ℕ) × (halt (pos 4) counter_frame (at_work (pos 4) counter_frame one_callback)
      ≡ some stopped)
    × (stopped.joinable ≡ false)
    × (stopped.dispatcher ≡ one_callback)
    × (reaper_round (pos 4) counter_frame false (restart (pos 4) counter_frame stopped)
        ≡ some (
            at_work
              (pos 4)
              counter_frame
              (record one_callback { calls = (9, counter_frame 1) ∷ [] })))
restart_calls_callback_example =
    restart_calls_callback (pos 4) counter_frame one_callback 9 refl refl refl

abbrev registrations : Registrations ℕ
registrations = (0x123 ∷ 5 ∷ [], 1) ∷ (5 ∷ [], 2) ∷ []

registrations-AreStandard : All (λ (r : List ℕ × ℕ). AreStandard r.0) registrations
registrations-AreStandard = ((omega arith, (omega arith, tt)), ((omega arith, tt), tt))

subscriptions_lem_example :
    (d : Dispatcher ℕ) × (register_all registrations new_dispatcher ≡ some d)
    × (reap_process (pos 9) waits d
        ≡ running (record d {
          calls = reverse (
              flat_map
                (calls_of (subscribed registrations (λ id. none)))
                (flat_map events_of waits));
        }))
subscriptions_lem_example =
    subscriptions_lem (pos 9) registrations waits registrations-AreStandard waits-IsPlainWait

-- A thread registers a callback while the reaper waits for the lock with a frame for it.
abbrev interleaving : List (Turn ℕ)
interleaving =
    begins 0 (job_register (0x123 ∷ []) 7)
    ∷ begins 1 (job_dispatch (record { can_id = 0x123; len = 0; bytes = [] }))
    ∷ goes_on 0
    ∷ goes_on 1
    ∷ goes_on 0
    ∷ goes_on 1
    ∷ goes_on 0
    ∷ goes_on 1
    ∷ goes_on 1
    ∷ []

interleaving-IsStandard : All IsStandardTurn interleaving
interleaving-IsStandard =
    ((omega arith, tt), (omega arith, (tt, (tt, (tt, (tt, (tt, (tt, (tt, tt)))))))))

interleavings_are_serial_example :
    (s : Shared ℕ) × (turns interleaving at_first_turn ≡ some s)
    × (s.dispatcher.lock ≡ false → one_at_a_time s.history ≡ some s.dispatcher)
    × (s.dispatcher.lock ≡ true → (t : ℕ) × (in_section (s.work t) ≡ true))
interleavings_are_serial_example = interleavings_are_serial interleaving interleaving-IsStandard
