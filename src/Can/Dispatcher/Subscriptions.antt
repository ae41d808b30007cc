-- ===== src/Can/Dispatcher/Subscriptions.antt =====
-- Callbacks that are registered, and the frames that come in after that.
use hy_can.Can.Dispatcher.Registration.{AreStandard, registered, register_func_lem}
use hy_can.Can.Dispatcher.Reaping.{reap_process_lem, events_of, IsPlainWait}
use hy_can.Can.Dispatcher.Delivery.{calls_of}
use hy_can.Base.{
  ◌++◌, append-nil, ℤ, All, ℕ, ◌≡◌, refl, ap, ◌∙◌, fun_ext, false, Option, none, some, List, [],
  ◌∷◌, reverse, flat_map,
}
use hy_can.Can.Network.{CanFrame}
use hy_can.Can.Dispatcher.{Dispatcher, Wait, new_dispatcher, register_func, reap_process, running}

-- The calls of `register_callback` one after the other, each with its identifiers and its callback.
abbrev pub Registrations : Type 0 → Type 0
Registrations F = List (List ℕ × F)

-- `none` is a call that spins for ever.
unfoldable pub register_all : {F : Type 0} → Registrations F → Dispatcher F → Option (Dispatcher F)
register_all [] d = some d
register_all ((ids, f) ∷ rest) d = elim (register_func ids f d) [
  | none ↦ none
  | some r ↦ register_all rest r.1
]

-- The specification: the callback of an identifier is that of the last call which names it.
abbrev pub subscribed : {F : Type 0} → Registrations F → (ℕ → Option F) → ℕ → Option F
subscribed [] funcs = funcs
subscribed ((ids, f) ∷ rest) funcs = subscribed rest (registered ids f funcs)

module _ {F : Type 0} where
  register_all_lem :
      (rs : Registrations F) (d : Dispatcher F)
      → All (λ r. AreStandard r.0) rs
      → d.lock ≡ false
      → (d' : Dispatcher F) × (register_all rs d ≡ some d')
        × (d'.lock ≡ false)
        × (d'.calls ≡ d.calls)
        × (d'.funcs ≡ subscribed rs d.funcs)
  unfolding register_all
  register_all_lem [] d h unlocked = (d, refl, unlocked, refl, refl)
  register_all_lem ((ids, f) ∷ rest) d h unlocked =
      let r = register_func_lem f ids d h.0 unlocked in
      let q = register_all_lem rest r.0 h.1 r.2 in
      (
        q.0,
        ap (λ o. elim o [ none ↦ none | some p ↦ register_all rest p.1 ]) r.1 ∙ q.1,
        q.2,
        q.3 ∙ r.3,
        q.4 ∙ ap (subscribed rest) (fun_ext r.4),
      )

  -- Once callbacks are registered with a new dispatcher, for identifiers below 2048, the reaper calls
  -- for each frame that it reads, in order and exactly once, the callback that was registered last for
  -- its identifier, and no callback for a frame of another one. The frames have identifiers below
  -- 2048, and no stop comes.
  pub subscriptions_lem :
      (thread_event_fd : ℤ) (rs : Registrations F) (waits : List Wait)
      → All (λ r. AreStandard r.0) rs
      → All (IsPlainWait thread_event_fd) waits
      → (d : Dispatcher F) × (register_all rs new_dispatcher ≡ some d)
        × (reap_process thread_event_fd waits d
            ≡ running (record d {
              calls =
                  reverse
                    (flat_map (calls_of (subscribed rs (λ id. none))) (flat_map events_of waits));
            }))
  unfolding new_dispatcher
  subscriptions_lem thread_event_fd rs waits h plain =
      let q = register_all_lem rs new_dispatcher h refl in
      let events = flat_map events_of waits in
      let called : (ℕ → Option F) → List (F × CanFrame) =
        λ funcs. reverse (flat_map (calls_of funcs) events) in
      let same : called q.0.funcs ++ q.0.calls ≡ called (subscribed rs (λ id. none)) =
        ap (λ cs. called q.0.funcs ++ cs) q.3 ∙ append-nil (called q.0.funcs) ∙ ap called q.4 in
      (
        q.0,
        q.1,
        reap_process_lem thread_event_fd waits q.0 plain q.2
            ∙ ap (λ cs. running (record (q.0) { calls = cs })) same,
      )
