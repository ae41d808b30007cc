-- ===== src/Can/Dispatcher/Registration.antt =====
-- What `register_func` does, and what it leaves behind when an identifier is out of range.
use hy_can.Can.Network.{CanFrame}
use hy_can.Util.Error.{Expected, is_ok, ok}
use hy_can.Can.Dispatcher.{
  blocked, lock_lock, register_func, dispatch_frame, limit_error, max_std_can_id, Dispatcher,
  assign, lock_unlock, register_ids,
}
use hy_can.Base.{
  ◌≤◌, true, none, ◌++◌, All, ◌==◌, if◌then◌else◌, ℕ, ◌<◌, ◌≡◌, refl, Bool, false, ◌||◌, Option,
  some, List, [], ◌∷◌, arith,
}

abbrev pub contains : List ℕ → ℕ → Bool
contains [] k = false
contains (id ∷ ids) k = id == k || contains ids k

abbrev pub AreStandard : List ℕ → Type 0
AreStandard = All (λ id. id < max_std_can_id)

-- The table after the registration of `f` for `ids`.
abbrev pub registered : {F : Type 0} → List ℕ → F → (ℕ → Option F) → ℕ → Option F
registered ids f funcs k = if contains ids k then some f else funcs k

module _ {F : Type 0} (f : F) where
  register_ids_lem :
      (ids : List ℕ) (d : Dispatcher F)
      → AreStandard ids
      → let r = register_ids ids f d in
        (r.0 ≡ ok tt)
        × (r.1.lock ≡ false)
        × (r.1.calls ≡ d.calls)
        × ((k : ℕ) → r.1.funcs k ≡ registered ids f d.funcs k)
  unfolding register_ids lock_unlock
  register_ids_lem [] d h = (refl, refl, refl, λ k. refl)
  register_ids_lem (id ∷ ids) d h =
      let r = register_ids_lem ids (record d { funcs = assign d.funcs id f }) h.1 in
      (
        ground (arith, r.0, h.0),
        ground (arith, r.1, h.0),
        ground (arith, r.2, h.0),
        λ k. ground (arith, r.3 k, h.0),
      )

  -- With the lock free and every identifier below 2048, `register_func` returns a success, frees the
  -- lock and puts the callback at exactly the identifiers given; nothing else changes.
  pub register_func_lem :
      (ids : List ℕ) (d : Dispatcher F)
      → AreStandard ids
      → d.lock ≡ false
      → (d' : Dispatcher F) × (register_func ids f d ≡ some (ok tt, d'))
        × (d'.lock ≡ false)
        × (d'.calls ≡ d.calls)
        × ((k : ℕ) → d'.funcs k ≡ registered ids f d.funcs k)
  unfolding register_func lock_lock
  register_func_lem ids d h free =
      let r = register_ids_lem ids (record d { lock = true }) h in
      ((register_ids ids f (record d { lock = true })).1, ground (arith, r.0), r.1, r.2, r.3)

  register_ids_out_of_range :
      (good : List ℕ) (bad : ℕ) (rest : List ℕ) (d : Dispatcher F)
      → AreStandard good
      → max_std_can_id ≤ bad
      → let r = register_ids (good ++ bad ∷ rest) f d in
        (is_ok r.0 ≡ false)
        × (r.1.lock ≡ d.lock)
        × ((k : ℕ) → r.1.funcs k ≡ registered good f d.funcs k)
  unfolding register_ids limit_error
  register_ids_out_of_range [] bad rest d h out = (ground arith, ground arith, λ k. ground arith)
  register_ids_out_of_range (id ∷ good) bad rest d h out =
      let r =
        register_ids_out_of_range good bad rest (record d { funcs = assign d.funcs id f }) h.1
          out in
      (ground (arith, r.0, h.0), ground (arith, r.1, h.0), λ k. ground (arith, r.2 k, h.0))

  -- With an identifier of 2048 or more, `register_func` fails after it has registered the ones in
  -- front of it, and it keeps the lock: every later `register_func` spins for ever, and so does the
  -- reaper at the next frame.
  pub register_func_keeps_lock :
      (good : List ℕ) (bad : ℕ) (rest : List ℕ) (d : Dispatcher F)
      → AreStandard good
      → max_std_can_id ≤ bad
      → d.lock ≡ false
      → (r : Expected (Unit {0}) × Dispatcher F) × (register_func (good ++ bad ∷ rest) f d ≡ some r)
        × (is_ok r.0 ≡ false)
        × ((k : ℕ) → r.1.funcs k ≡ registered good f d.funcs k)
        × ((ids : List ℕ) (g : F) → register_func ids g r.1 ≡ none)
        × ((frame : CanFrame) → dispatch_frame frame r.1 ≡ blocked)
  unfolding register_func lock_lock dispatch_frame
  register_func_keeps_lock good bad rest d h out free =
      let locked : Dispatcher F = record d { lock = true } in
      let r = register_ids_out_of_range good bad rest locked h out in
      (
        register_ids (good ++ bad ∷ rest) f locked,
        ground arith,
        r.0,
        r.2,
        λ ids g. ground (arith, r.1),
        λ frame. ground (arith, r.1),
      )
