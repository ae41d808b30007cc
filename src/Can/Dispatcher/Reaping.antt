-- ===== src/Can/Dispatcher/Reaping.antt =====
-- The loop of the reaper over the returns of `epoll_wait`.
use hy_can.Can.Network.{CanFrame, eintr, eagain}
use hy_can.Can.Dispatcher.Delivery.{calls_of, IsPlain, handle_events_lem}
use hy_can.Can.Dispatcher.{
  max_std_can_id, Dispatcher, Event, Wait, wait_error, wait_events, Reaper, running, returned,
  threw, blocked, undefined_behaviour, dispatch_frame, go_on, handle_event, handle_events,
  handle_wait, reap_process,
}
use hy_can.Base.{
  ℤ, int_eq_iff, All, ◌==◌, ℕ, ◌≤◌, ◌≡◌, refl, sym, ap, ◌∙◌, fun_ext, true, false, ◌||◌, Option,
  some, List, [], ◌∷◌, ◌++◌, reverse, reverse-append, append_assoc, arith, flat_map,
}

abbrev pub events_of : Wait → List Event
events_of (wait_error code is_stopping) = []
events_of (wait_events events) = events

-- The wait was interrupted with no stop requested, or it gave plain events.
abbrev pub IsPlainWait : ℤ → Wait → Type 0
IsPlainWait thread_event_fd (wait_error code is_stopping) =
    ((code == eagain || code == eintr) ≡ true) × (is_stopping ≡ false)
IsPlainWait thread_event_fd (wait_events events) = All (IsPlain thread_event_fd) events

flat_map-append {ℓ κ} :
    {A : Type ℓ} {B : Type κ} (f : A → List B) (xs ys : List A)
    → flat_map f (xs ++ ys) ≡ flat_map f xs ++ flat_map f ys
unfolding flat_map
flat_map-append f [] ys = refl
flat_map-append f (x ∷ xs) ys =
    rw (flat_map-append f xs ys) (sym (append_assoc (f x) (flat_map f xs) (flat_map f ys)))

module _ {F : Type 0} (thread_event_fd : ℤ) where
  handle_wait_lem :
      (wait : Wait) (d : Dispatcher F)
      → IsPlainWait thread_event_fd wait
      → d.lock ≡ false
      → handle_wait thread_event_fd wait d
        ≡ running
            (record d { calls = reverse (flat_map (calls_of d.funcs) (events_of wait)) ++ d.calls })
  unfolding handle_wait flat_map
  handle_wait_lem (wait_error code is_stopping) d plain free = ground arith
  handle_wait_lem (wait_events events) d plain free =
      handle_events_lem thread_event_fd events d plain free

  -- The calls of a wait and then of the rest.
  join_calls :
      (funcs : ℕ → Option F) (wait : Wait) (waits : List Wait) (calls : List (F × CanFrame))
      → reverse (flat_map (calls_of funcs) (flat_map events_of waits))
          ++ (reverse (flat_map (calls_of funcs) (events_of wait)) ++ calls)
        ≡ reverse (flat_map (calls_of funcs) (flat_map events_of (wait ∷ waits))) ++ calls
  unfolding flat_map
  join_calls funcs wait waits calls =
      let now = flat_map (calls_of funcs) (events_of wait) in
      let later = flat_map (calls_of funcs) (flat_map events_of waits) in
      rw
        (
          flat_map-append (calls_of funcs) (events_of wait) (flat_map events_of waits),
          reverse-append now later,
        )
        (sym (append_assoc (reverse later) (reverse now) calls))

  -- Over any number of returns of `epoll_wait` without a stop, whose frames have identifiers below
  -- 2048, the reaper handles every event in order and exactly once: a frame whose identifier has a
  -- callback goes to it, all others are dropped, and the lock is free at the end.
  pub reap_process_lem :
      (waits : List Wait) (d : Dispatcher F)
      → All (IsPlainWait thread_event_fd) waits
      → d.lock ≡ false
      → reap_process thread_event_fd waits d
        ≡ running (record d {
          calls = reverse (flat_map (calls_of d.funcs) (flat_map events_of waits)) ++ d.calls;
        })
  unfolding reap_process flat_map
  reap_process_lem [] d plain free = refl
  reap_process_lem (wait ∷ waits) d plain free =
      let calls = reverse (flat_map (calls_of d.funcs) (events_of wait)) ++ d.calls in
      rw (handle_wait_lem wait d plain.0 free, reap_process)
        (reap_process_lem waits (record d { calls = calls }) plain.1 free
          ∙ ap (λ cs. running (record d { calls = cs })) (join_calls d.funcs wait waits d.calls))

  go_on-go_on :
      (r : Reaper F) (f g : Dispatcher F → Reaper F)
      → go_on (go_on r f) g ≡ go_on r (λ d. go_on (f d) g)
  go_on-go_on (running d) f g = refl
  go_on-go_on (returned d) f g = refl
  go_on-go_on (threw code) f g = refl
  go_on-go_on blocked f g = refl
  go_on-go_on undefined_behaviour f g = refl

  handle_events-append :
      (before after : List Event) (d : Dispatcher F)
      → handle_events thread_event_fd (before ++ after) d
        ≡ go_on (handle_events thread_event_fd before d) (handle_events thread_event_fd after)
  unfolding handle_events
  handle_events-append [] after d = refl
  handle_events-append (event ∷ before) after d =
      ap (go_on (handle_event thread_event_fd event d))
        (fun_ext (handle_events-append before after))
      ∙ sym (go_on-go_on (handle_event thread_event_fd event d) _ _)

  stop_at :
      (stop : Event) (after : List Event) (d : Dispatcher F)
      → stop.fd ≡ thread_event_fd
      → stop.is_stopping ≡ true
      → handle_events thread_event_fd (stop ∷ after) d ≡ returned d
  unfolding handle_events handle_event
  stop_at stop after d is_fd stopping = ground (arith, int_eq_iff stop.fd thread_event_fd)

  -- A stop seen at an event ends the thread there: the events behind it are not handled, and their
  -- callbacks are not called.
  pub handle_events_stop :
      (before : List Event) (stop : Event) (after : List Event) (d d' : Dispatcher F)
      → handle_events thread_event_fd before d ≡ running d'
      → stop.fd ≡ thread_event_fd
      → stop.is_stopping ≡ true
      → handle_events thread_event_fd (before ++ stop ∷ after) d ≡ returned d'
  handle_events_stop before stop after d d' ran is_fd stopping =
      handle_events-append before (stop ∷ after) d
      ∙ ap (λ r. go_on r (handle_events thread_event_fd (stop ∷ after))) ran
      ∙ stop_at stop after d' is_fd stopping

  -- With the lock free and no stop requested, a readable frame whose `can_id` is 2048 or more, as it is
  -- when a flag of extended or remote frames is set in it, makes the reaper read past the end of
  -- `funcs`, whatever events come behind it.
  pub handle_events_out_of_range :
      (event : Event) (after : List Event) (frame : CanFrame) (d : Dispatcher F)
      → event.is_readable ≡ true
      → event.is_stopping ≡ false
      → event.frame ≡ some frame
      → d.lock ≡ false
      → max_std_can_id ≤ frame.can_id
      → handle_events thread_event_fd (event ∷ after) d ≡ undefined_behaviour
  unfolding handle_events handle_event dispatch_frame
  handle_events_out_of_range event after frame d readable running_on has_frame free out =
      ground arith
