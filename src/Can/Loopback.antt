-- ===== src/Can/Loopback.antt =====
-- include/HyCAN/Interface/CanFrameConvertible.hpp, and a type of its kind on the way from one interface to
-- another: `send` of include/HyCAN/Interface/Sender.hpp turns the value into a frame, and the callback of
-- include/HyCAN/Interface/Dispatcher.hpp gets the value back from the frame. The bus between them is the
-- list of the frames that were written.
use hy_can.Can.Dispatcher.Reaping.{reap_process_lem, events_of, IsPlainWait}
use hy_can.Can.Dispatcher.Delivery.{call_of, calls_of}
use hy_can.Util.Error.{ok, unexpected, Expected-cases, Expected, is_ok}
use hy_can.Can.Sender.Delivery.{delivered, send-delivers}
use hy_can.Base.{
  fun_ext, map-map, All, ℕ, ◌<◌, sym, ap, ◌∙◌, inl, inr, Option, append_assoc, append-nil,
  reverse-reverse, reverse-cons, arith, flat_map, ℤ, if◌then◌else◌, ◌≡◌, refl, true, false, some,
  List, [], ◌∷◌, ◌++◌, reverse, map,
}
use hy_can.Can.Network.{CanFrame, Network, CanEnv, M, pure, ◌>>=◌}
use hy_can.Can.Sender.{Sender, send}
use hy_can.Can.Dispatcher.{max_std_can_id, reap_process, wait_events, Dispatcher, Wait, running}

-- The two conversions that the concept asks for.
pub record CanFrameConvertible (T : Type 0) : Type 0 where
  pub to_frame : T → CanFrame
  pub from_frame : CanFrame → T

-- A value comes back from its own frame. The concept does not ask for it.
pub record IsFaithful {T : Type 0} (C : CanFrameConvertible T) : Type 0 where
  pub back : (value : T) → C.from_frame (C.to_frame value) ≡ value

-- What the wrapper of `register_func` hands to the callback of a frame: `func(static_cast<T>(frame))`.
abbrev pub hand_over : {T F : Type 0} → CanFrameConvertible T → F × CanFrame → F × T
hand_over C (func, frame) = (func, C.from_frame frame)

-- The values whose `send` succeeded.
unfoldable pub delivered_values : {T : Type 0} → List T → List (Expected (Unit {0})) → List T
delivered_values [] results = []
delivered_values (value ∷ values) [] = []
delivered_values (value ∷ values) (result ∷ results) =
    let rest = delivered_values values results in if is_ok result then value ∷ rest else rest

-- The reaper wakes up for a frame that waits on descriptor `fd`.
abbrev pub arrival : ℤ → CanFrame → Wait
arrival fd frame =
    wait_events
      (record { fd = fd; is_readable = true; is_stopping = false; frame = some frame } ∷ [])

move_over :
    {A : Type 0} (a : A) (xs rest : List A) → reverse xs ++ (a ∷ rest) ≡ reverse (a ∷ xs) ++ rest
move_over a xs rest =
    sym (append_assoc (reverse xs) (a ∷ []) rest) ∙ ap (λ l. l ++ rest) (sym (reverse-cons a xs))

module _ {T : Type 0} (C : CanFrameConvertible T) (N : Network) where
  -- One `send` after the other, with their results.
  unfoldable pub send_all : List T → Sender → M N (List (Expected (Unit {0})) × Sender)
  send_all [] sender = pure ([], sender)
  send_all (value ∷ values) sender = do
    r ← send N C.to_frame value sender
    rest ← send_all values r.1
    pure (r.0 ∷ rest.0, rest.1)

  send_all-sent :
      (values : List T) (sender : Sender) (e : CanEnv N)
      → let r = send_all values sender e in
        r.1.sent ≡ reverse (map C.to_frame (delivered_values values r.0.0)) ++ e.sent
  unfolding send_all delivered_values
  send_all-sent [] sender e = refl
  send_all-sent (value ∷ values) sender e =
      let r = send N C.to_frame value sender e in
      let one = (send-delivers N C.to_frame value sender e).0 in
      let rest = send_all-sent values r.0.1 r.1 in
      let frame = C.to_frame value in
      let others = map C.to_frame (delivered_values values (send_all values r.0.1 r.1).0.0) in
      elim (Expected-cases r.0.0) [
        | inl (v, good) ↦
            let written : r.1.sent ≡ frame ∷ e.sent =
              one ∙ ap (λ x. delivered x frame e.sent) good in
            rw (ap is_ok good)
              (rest ∙ ap (λ l. reverse others ++ l) written ∙ move_over frame others e.sent)
        | inr (x, bad) ↦
            let written : r.1.sent ≡ e.sent = one ∙ ap (λ x. delivered x frame e.sent) bad in
            rw (ap is_ok bad) (rest ∙ ap (λ l. reverse others ++ l) written)
      ]

  -- The calls for the frames of some values that have a callback.
  calls_for :
      {F : Type 0} (fd : ℤ) (func : F) (funcs : ℕ → Option F) (values : List T)
      → All (λ value. funcs (C.to_frame value).can_id ≡ some func) values
      → flat_map (calls_of funcs) (flat_map events_of (map (arrival fd) (map C.to_frame values)))
        ≡ map (λ value. (func, C.to_frame value)) values
  unfolding flat_map
  calls_for fd func funcs [] h = refl
  calls_for fd func funcs (value ∷ values) h =
      let rest = calls_for fd func funcs values h.1 in
      ap
        (λ o.
          call_of o (C.to_frame value)
          ++ flat_map (calls_of funcs)
              (flat_map events_of (map (arrival fd) (map C.to_frame values))))
        h.0
      ∙ ap (λ l. (func, C.to_frame value) ∷ l) rest

  arrivals-IsPlainWait :
      (fd thread_event_fd : ℤ) (values : List T)
      → All (λ value. (C.to_frame value).can_id < max_std_can_id) values
      → All (IsPlainWait thread_event_fd) (map (arrival fd) (map C.to_frame values))
  arrivals-IsPlainWait fd thread_event_fd [] h = tt
  arrivals-IsPlainWait fd thread_event_fd (value ∷ values) h =
      (((ground arith, h.0), tt), arrivals-IsPlainWait fd thread_event_fd values h.1)

  All-delivered_values :
      (Q : T → Type 0) (values : List T) (results : List (Expected (Unit {0})))
      → All Q values
      → All Q (delivered_values values results)
  unfolding delivered_values
  All-delivered_values Q [] results h = tt
  All-delivered_values Q (value ∷ values) [] h = tt
  All-delivered_values Q (value ∷ values) (ok x ∷ results) h =
      (h.0, All-delivered_values Q values results h.1)
  All-delivered_values Q (value ∷ values) (unexpected x ∷ results) h =
      All-delivered_values Q values results h.1

  -- Values of a type whose conversions fit together are sent by one interface, on a bus that has seen
  -- no frame yet. The reaper of another, which reads the frames in the order in which they were written, hands
  -- to the callback exactly the values whose `send` succeeded, each once, in order and unchanged. Their
  -- identifiers are below 2048 and have this callback, the lock of the dispatcher is free, and it has
  -- made no call yet.
  pub loopback :
      {F : Type 0} (fd thread_event_fd : ℤ) (func : F) (d : Dispatcher F) (values : List T)
      (sender : Sender) (e : CanEnv N)
      → IsFaithful C
      → e.sent ≡ []
      → d.lock ≡ false
      → d.calls ≡ []
      → All (λ value. (C.to_frame value).can_id < max_std_can_id) values
      → All (λ value. d.funcs (C.to_frame value).can_id ≡ some func) values
      → let r = send_all values sender e in
        (d' : Dispatcher F) × (reap_process thread_event_fd (map (arrival fd) (reverse r.1.sent)) d
          ≡ running d')
        × (map (hand_over C) (reverse d'.calls)
            ≡ map (λ value. (func, value)) (delivered_values values r.0.0))
  loopback fd thread_event_fd func d values sender e faithful fresh unlocked no_calls low known =
      let r = send_all values sender e in
      let arrived = delivered_values values r.0.0 in
      let frames : reverse r.1.sent ≡ map C.to_frame arrived =
        ap reverse (
          send_all-sent values sender e
          ∙ ap (λ l. reverse (map C.to_frame arrived) ++ l) fresh
          ∙ append-nil (reverse (map C.to_frame arrived)))
        ∙ reverse-reverse (map C.to_frame arrived) in
      let waits = map (arrival fd) (map C.to_frame arrived) in
      let calls = map (λ value. (func, C.to_frame value)) arrived in
      let plain = arrivals-IsPlainWait fd thread_event_fd arrived (
        All-delivered_values (λ value. (C.to_frame value).can_id < max_std_can_id) values r.0.0
          low) in
      let called = calls_for fd func d.funcs arrived (
        All-delivered_values (λ value. d.funcs (C.to_frame value).can_id ≡ some func) values r.0.0
          known) in
      let same : reverse (flat_map (calls_of d.funcs) (flat_map events_of waits)) ++ d.calls
          ≡ reverse calls =
        ap (λ l. reverse l ++ d.calls) called
        ∙ ap (λ l. reverse calls ++ l) no_calls
        ∙ append-nil (reverse calls) in
      (
        record d { calls = reverse calls },
        ap (λ fs. reap_process thread_event_fd (map (arrival fd) fs) d) frames
            ∙ reap_process_lem thread_event_fd waits d plain unlocked
            ∙ ap (λ cs. running (record d { calls = cs })) same,
        ap (map (hand_over C)) (reverse-reverse calls)
            ∙ map-map (hand_over C) (λ value. (func, C.to_frame value)) arrived
            ∙ ap (λ g. map g arrived)
                (fun_ext (λ value. ap (λ w. (func, w)) (faithful.back value))),
      )
