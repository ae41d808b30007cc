-- ===== src/Can/Dispatcher/Concurrent/Serial.antt =====
-- Registrations and frames of any number of threads come out as if they had been done one at a time.
use hy_can.Can.Dispatcher.Concurrent.Jobs.{
  do_job, one_at_a_time, in_section, IsStandardJob, IsStandardTurn,
}
use hy_can.Can.Dispatcher.Concurrent.Invariant.{
  IsSerial, thread-Pending, enters, leaves, registered_job, assigns,
}
use hy_can.Can.Dispatcher.Concurrent.{
  Job, job_register, job_dispatch, Work, at_rest, at_lock, in_registration, in_callback, Shared,
  Turn, begins, goes_on, turn, turns, at_first_turn, turn_at, begin_at,
}
use hy_can.Base.{
  ◌<◌, All, ◌==◌, Bool-cases, ℕ, ◌≡◌, refl, sym, ap, ◌∙◌, inl, inr, true, false, Option, none, some,
  List, [], ◌∷◌, arith,
}
use hy_can.Can.Network.{CanFrame}
use hy_can.Can.Dispatcher.{
  max_std_can_id, lock_lock, dispatch_frame, call_func, new_dispatcher, lock_unlock, Dispatcher,
}

module _ {F : Type 0} where
  dispatched_job :
      (frame : CanFrame) (base d : Dispatcher F)
      → base.lock ≡ false
      → frame.can_id < max_std_can_id
      → d ≡ record base { lock = true }
      → do_job (job_dispatch frame) base
        ≡ some (lock_unlock (call_func (d.funcs frame.can_id) frame d))
  unfolding dispatch_frame lock_lock
  dispatched_job frame base d unlocked low same = ground (arith, unlocked, low, same)

  abbrev Result : Option (Shared F) → Type 0
  Result r = (s : Shared F) × (r ≡ some s) × (o : Option ℕ) × IsSerial o s

  turn_at-IsSerial :
      (o : Option ℕ) (w : Work F) (t : ℕ) (s : Shared F)
      → s.work t ≡ w
      → IsSerial o s
      → Result (turn_at w t s)
  unfolding turn_at lock_unlock
  turn_at-IsSerial o at_rest t s e v = (s, refl, o, v)
  turn_at-IsSerial o (at_lock job) t s e v = elim (Bool-cases s.dispatcher.lock) [
    | inl taken ↦ (s, rw taken refl, o, v)
    | inr vacant ↦ (_, rw vacant refl, some t, enters o job t s e v vacant)
  ]
  turn_at-IsSerial o (in_registration ids [] f) t s e v =
      let p = thread-Pending o s t (in_registration ids [] f) v e in
      (
        _,
        refl,
        none,
        leaves o (job_register ids f) t s (in_registration ids [] f) _ e refl v
            (registered_job ids f v.base s.dispatcher v.unlocked p.1) refl,
      )
  turn_at-IsSerial o (in_registration ids (id ∷ rest) f) t s e v =
      let p = thread-Pending o s t (in_registration ids (id ∷ rest) f) v e in
      (_, ground (arith, p.0.0), o, assigns o ids id rest f t s e v)
  turn_at-IsSerial o (in_callback frame) t s e v =
      let p = thread-Pending o s t (in_callback frame) v e in
      (
        _,
        ground (arith, p.0),
        none,
        leaves o (job_dispatch frame) t s (in_callback frame) _ e refl v
            (dispatched_job frame v.base s.dispatcher v.unlocked p.0 p.1) refl,
      )

  owner_inside :
      (o : Option ℕ) (s : Shared F)
      → IsSerial o s
      → s.dispatcher.lock ≡ true
      → (t : ℕ) × (in_section (s.work t) ≡ true)
  owner_inside none s v taken = absurd (ground (arith, v.flag, taken))
  owner_inside (some t) s v taken = (t, ground (arith, v.holder t))

  begin_at-IsSerial :
      (o : Option ℕ) (w : Work F) (t : ℕ) (job : Job F) (s : Shared F)
      → s.work t ≡ w
      → IsStandardJob job
      → IsSerial o s
      → IsSerial o (begin_at w t job s)
  unfolding begin_at
  begin_at-IsSerial o at_rest t job s e h v = record {
    flag = v.flag;
    holder = λ u. ground (arith, v.holder u, v.holder t, ap in_section e);
    base = v.base;
    done = v.done;
    unlocked = v.unlocked;
    pending = λ u. elim (Bool-cases (t == u)) [
      | inl same ↦ rw same h
      | inr other ↦ rw other (v.pending u)
    ];
    settled = v.settled;
  }
  begin_at-IsSerial o (at_lock j) t job s e h v = v
  begin_at-IsSerial o (in_registration ids rest f) t job s e h v = v
  begin_at-IsSerial o (in_callback frame) t job s e h v = v

  turns-IsSerial :
      (o : Option ℕ) (ms : List (Turn F)) (s : Shared F)
      → All IsStandardTurn ms
      → IsSerial o s
      → Result (turns ms s)
  unfolding turns turn
  turns-IsSerial o [] s h v = (s, refl, o, v)
  turns-IsSerial o (begins t job ∷ ms) s h v =
      turns-IsSerial o ms (begin_at (s.work t) t job s) h.1
        (begin_at-IsSerial o (s.work t) t job s refl h.0 v)
  turns-IsSerial o (goes_on t ∷ ms) s h v =
      let (s', moved, o', v') = turn_at-IsSerial o (s.work t) t s refl v in
      let (end, ran, o'', v'') = turns-IsSerial o' ms s' h.1 v' in
      (end, ap (λ r. elim r [ none ↦ none | some q ↦ turns ms q ]) moved ∙ ran, o'', v'')

  at_first_turn-IsSerial : IsSerial {F = F} none at_first_turn
  unfolding at_first_turn one_at_a_time new_dispatcher
  at_first_turn-IsSerial = record {
    flag = refl;
    holder = λ u. refl;
    base = new_dispatcher;
    done = refl;
    unlocked = refl;
    pending = λ u. tt;
    settled = λ h. refl;
  }

  -- However the steps of any number of threads interleave that register callbacks and dispatch frames
  -- with identifiers below 2048: no step reads past the table; whenever the lock is free, the table and
  -- the calls are those that the jobs give that were done, one at a time in the order in which they
  -- left the lock; and whenever the lock is taken, there is a thread in the section that will free it.
  pub interleavings_are_serial :
      (ms : List (Turn F))
      → All IsStandardTurn ms
      → (s : Shared F) × (turns ms at_first_turn ≡ some s)
        × (s.dispatcher.lock ≡ false → one_at_a_time s.history ≡ some s.dispatcher)
        × (s.dispatcher.lock ≡ true → (t : ℕ) × (in_section (s.work t) ≡ true))
  interleavings_are_serial ms h =
      let (s, ran, o, v) = turns-IsSerial none ms at_first_turn h at_first_turn-IsSerial in
      (
        s,
        ran,
        λ vacant. v.done ∙ ap some (sym (v.settled vacant)),
        λ taken. owner_inside o s v taken,
      )
