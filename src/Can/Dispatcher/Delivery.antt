-- ===== src/Can/Dispatcher/Delivery.antt =====
-- What the reaper makes of the events: deliveries in order, the stop, and frames past the table.
use hy_can.Can.Network.{CanFrame}
use hy_can.Can.Dispatcher.{
  max_std_can_id, Dispatcher, Event, running, dispatch_frame, handle_event, handle_events,
}
use hy_can.Base.{
  sym, ap, reverse-append, append_assoc, refl, ◌∙◌, reverse, flat_map, ℤ, int_eq, All,
  if◌then◌else◌, ℕ, ◌<◌, ◌≡◌, false, ◌&&◌, Option, none, some, List, [], ◌∷◌, ◌++◌, arith,
}

-- The calls that one event asks for.
abbrev pub call_of : {F : Type 0} → Option F → CanFrame → List (F × CanFrame)
call_of none frame = []
call_of (some f) frame = (f, frame) ∷ []

abbrev pub calls_of_frame : {F : Type 0} → (ℕ → Option F) → Option CanFrame → List (F × CanFrame)
calls_of_frame funcs none = []
calls_of_frame funcs (some frame) = call_of (funcs frame.can_id) frame

-- The specification: each readable event whose `read` gives a frame calls the callback of its
-- identifier, if there is one.
abbrev pub calls_of : {F : Type 0} → (ℕ → Option F) → Event → List (F × CanFrame)
calls_of funcs event = if event.is_readable then calls_of_frame funcs event.frame else []

abbrev pub IsStandardFrame : Option CanFrame → Type 0
IsStandardFrame none = Unit {0}
IsStandardFrame (some frame) = frame.can_id < max_std_can_id

-- The event is no stop, and its frame has an identifier below 2048.
abbrev pub IsPlain : ℤ → Event → Type 0
IsPlain thread_event_fd event =
    ((int_eq event.fd thread_event_fd && event.is_stopping) ≡ false) × IsStandardFrame event.frame

module _ {F : Type 0} (thread_event_fd : ℤ) where
  handle_event_lem :
      (event : Event) (d : Dispatcher F)
      → IsPlain thread_event_fd event
      → d.lock ≡ false
      → handle_event thread_event_fd event d
        ≡ running (record d { calls = calls_of d.funcs event ++ d.calls })
  unfolding handle_event dispatch_frame
  handle_event_lem event d plain free = ground arith

  reverse-calls_of :
      (funcs : ℕ → Option F) (event : Event) → reverse (calls_of funcs event) ≡ calls_of funcs event
  reverse-calls_of funcs event = ground arith

  pub regroup_calls :
      (funcs : ℕ → Option F) (event : Event) (rest calls : List (F × CanFrame))
      → reverse rest ++ (calls_of funcs event ++ calls)
        ≡ reverse (calls_of funcs event ++ rest) ++ calls
  regroup_calls funcs event rest calls =
      rw (reverse-append (calls_of funcs event) rest, reverse-calls_of funcs event)
        (sym (append_assoc (reverse rest) (calls_of funcs event) calls))

  -- The events are handled in order, each exactly once: the frames of known identifiers go to the
  -- callbacks registered for them, all others are dropped, and the lock is free at the end.
  pub handle_events_lem :
      (events : List Event) (d : Dispatcher F)
      → All (IsPlain thread_event_fd) events
      → d.lock ≡ false
      → handle_events thread_event_fd events d
        ≡ running (record d { calls = reverse (flat_map (calls_of d.funcs) events) ++ d.calls })
  unfolding handle_events flat_map
  handle_events_lem [] d plain free = refl
  handle_events_lem (event ∷ events) d plain free =
      rw (handle_event_lem event d plain.0 free, handle_events)
        (handle_events_lem events (record d { calls = calls_of d.funcs event ++ d.calls }) plain.1
            free
          ∙ ap (λ cs. running (record d { calls = cs }))
              (regroup_calls d.funcs event (flat_map (calls_of d.funcs) events) d.calls))
