-- ===== src/Can/Dispatcher/Bounds.antt =====
-- Which batches of events make the reaper of src/Interface/Dispatcher.cpp read past its table.
use hy_can.Can.Network.{CanFrame}
use hy_can.Can.Dispatcher.Delivery.{calls_of, regroup_calls}
use hy_can.Can.Dispatcher.{
  max_std_can_id, Dispatcher, Event, running, undefined_behaviour, dispatch_frame, handle_event,
  handle_events,
}
use hy_can.Base.{
  ℤ, int_eq, All, leb, if◌then◌else◌, Bool-cases, ◌≡◌, refl, inl, inr, Bool, true, false, ◌&&◌,
  ◌||◌, Option, none, some, List, [], ◌∷◌, ◌++◌, reverse, arith, flat_map,
}

abbrev pub is_past : Option CanFrame → Bool
is_past none = false
is_past (some frame) = leb max_std_can_id frame.can_id

-- The event is readable, and the identifier of its frame is 2048 or more.
abbrev pub reads_past : Event → Bool
reads_past event = event.is_readable && is_past event.frame

abbrev pub any_past : List Event → Bool
any_past [] = false
any_past (event ∷ events) = reads_past event || any_past events

-- The event is no stop.
abbrev pub IsNoStop : ℤ → Event → Type 0
IsNoStop thread_event_fd event = (int_eq event.fd thread_event_fd && event.is_stopping) ≡ false

module _ {F : Type 0} (thread_event_fd : ℤ) where
  event_past :
      (event : Event) (d : Dispatcher F)
      → IsNoStop thread_event_fd event
      → d.lock ≡ false
      → reads_past event ≡ true
      → handle_event thread_event_fd event d ≡ undefined_behaviour
  unfolding handle_event dispatch_frame
  event_past event d no_stop free past = ground (arith, no_stop, free, past)

  event_in_range :
      (event : Event) (d : Dispatcher F)
      → IsNoStop thread_event_fd event
      → d.lock ≡ false
      → reads_past event ≡ false
      → handle_event thread_event_fd event d
        ≡ running (record d { calls = calls_of d.funcs event ++ d.calls })
  unfolding handle_event dispatch_frame
  event_in_range event d no_stop free within = ground (arith, no_stop, free, within)

  -- With the lock free and no stop among the events, a batch makes the reaper read past the end of its
  -- table of callbacks exactly when a readable event has a frame whose `can_id` is 2048 or more, as it
  -- is when a flag of extended or remote frames is set in it, wherever in the batch that event stands.
  -- Otherwise every frame goes to the callback of its identifier, once and in order.
  pub batch_in_range :
      (events : List Event) (d : Dispatcher F)
      → All (IsNoStop thread_event_fd) events
      → d.lock ≡ false
      → handle_events thread_event_fd events d ≡ (
          if any_past events
          then undefined_behaviour
          else running
              (record d { calls = reverse (flat_map (calls_of d.funcs) events) ++ d.calls }))
  unfolding handle_events flat_map
  batch_in_range [] d no_stop free = refl
  batch_in_range (event ∷ events) d no_stop free = elim (Bool-cases (reads_past event)) [
    | inl past ↦ rw (event_past event d no_stop.0 free past, past, handle_events) refl
    | inr within ↦
        let d' = record d { calls = calls_of d.funcs event ++ d.calls } in
        rw
          (
            event_in_range event d no_stop.0 free within,
            within,
            handle_events,
            ← regroup_calls thread_event_fd d.funcs event (flat_map (calls_of d.funcs) events)
                d.calls,
          )
          (batch_in_range events d' no_stop.1 free)
  ]
