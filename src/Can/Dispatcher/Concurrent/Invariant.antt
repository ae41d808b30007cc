-- ===== src/Can/Dispatcher/Concurrent/Invariant.antt =====
-- What every interleaving of the steps keeps: the thread in the section has done a part of its job, on
-- the dispatcher that the jobs before it have left.
use hy_can.Util.SpinLock.Exclusion.{is_owner, has_owner}
use hy_can.Can.Dispatcher.Registration.{AreStandard}
use hy_can.Can.Dispatcher.Concurrent.Jobs.{do_job, one_at_a_time, in_section, IsStandardJob}
use hy_can.Can.Dispatcher.Concurrent.{
  Job, job_register, job_dispatch, Work, at_rest, at_lock, in_registration, in_callback, Shared,
  put_work, enter, change,
}
use hy_can.Base.{
  ◌==◌, Bool-cases, ℕ, ◌<◌, subst, ◌≡◌, refl, sym, ap, ◌∙◌, inl, inr, true, false, Option, none,
  some, List, [], ◌∷◌, arith,
}
use hy_can.Can.Dispatcher.{
  max_std_can_id, assign, lock_lock, lock_unlock, register_ids, register_func, Dispatcher,
}

module _ {F : Type 0} where
  -- What holds of a thread at its place: `base` is the dispatcher after the last job that was done, and
  -- `d` the one that it has come to.
  abbrev pub Pending : Dispatcher F → Dispatcher F → Work F → Type 0
  Pending base d at_rest = Unit {0}
  Pending base d (at_lock job) = IsStandardJob job
  Pending base d (in_registration ids rest f) =
      AreStandard rest × (register_ids ids f (record base { lock = true }) ≡ register_ids rest f d)
  Pending base d (in_callback frame) =
      (frame.can_id < max_std_can_id) × (d ≡ record base { lock = true })

  pub record IsSerial (o : Option ℕ) (s : Shared F) : Type 0 where
    pub flag : s.dispatcher.lock ≡ has_owner o
    pub holder : (u : ℕ) → in_section (s.work u) ≡ is_owner o u
    pub base : Dispatcher F
    pub done : one_at_a_time s.history ≡ some base
    pub unlocked : base.lock ≡ false
    pub pending : (u : ℕ) → Pending base s.dispatcher (s.work u)
    pub settled : s.dispatcher.lock ≡ false → s.dispatcher ≡ base

  -- A thread out of the section does not care for the dispatcher.
  pub Pending-outside :
      (base base' d d' : Dispatcher F) (w : Work F)
      → in_section w ≡ false
      → Pending base d w
      → Pending base' d' w
  Pending-outside base base' d d' at_rest out h = tt
  Pending-outside base base' d d' (at_lock job) out h = h
  Pending-outside base base' d d' (in_registration ids rest f) out h = absurd (ground (arith, out))
  Pending-outside base base' d d' (in_callback frame) out h = absurd (ground (arith, out))

  pub Pending-put :
      (base base' d d' : Dispatcher F) (work : ℕ → Work F) (t u : ℕ) (w : Work F)
      → ((t == u) ≡ false → in_section (work u) ≡ false)
      → Pending base d (work u)
      → Pending base' d' w
      → Pending base' d' (put_work work t w u)
  Pending-put base base' d d' work t u w out h h' = elim (Bool-cases (t == u)) [
    | inl same ↦ rw same h'
    | inr other ↦ rw other (Pending-outside base base' d d' (work u) (out other) h)
  ]

  pub thread-Pending :
      (o : Option ℕ) (s : Shared F) (t : ℕ) (w : Work F) (v : IsSerial o s)
      → s.work t ≡ w
      → Pending v.base s.dispatcher w
  thread-Pending o s t w v e = subst (Pending v.base s.dispatcher) e (v.pending t)

  -- The thread that is in the section is the owner, and every other thread is out of it.
  pub owner_at :
      (o : Option ℕ) (s : Shared F) (t : ℕ) (w : Work F) (v : IsSerial o s)
      → s.work t ≡ w
      → in_section w ≡ true
      → (o ≡ some t) × (s.dispatcher.lock ≡ true)
  owner_at o s t w v e inside =
      let h : in_section (s.work t) ≡ true = ap in_section e ∙ inside in
      ground (arith, v.flag, v.holder t, h)

  pub others_out :
      (o : Option ℕ) (s : Shared F) (t u : ℕ) (v : IsSerial o s)
      → o ≡ some t
      → (t == u) ≡ false
      → in_section (s.work u) ≡ false
  others_out o s t u v own other = ground (arith, v.holder u, own, other)

  pub entered :
      (job : Job F) (base d : Dispatcher F)
      → IsStandardJob job
      → d ≡ base
      → Pending base (record d { lock = true }) (enter job)
  entered (job_register ids f) base d h same =
      (h, ap (λ b. register_ids ids f (record b { lock = true })) (sym same))
  entered (job_dispatch frame) base d h same =
      let take_lock : Dispatcher F → Dispatcher F = λ b. record b { lock = true } in
      (h, ap take_lock same)

  -- The lock was free, and thread `t` has it now.
  pub enters :
      (o : Option ℕ) (job : Job F) (t : ℕ) (s : Shared F)
      → s.work t ≡ at_lock job
      → IsSerial o s
      → s.dispatcher.lock ≡ false
      → IsSerial (some t) (change s t (enter job) (record (s.dispatcher) { lock = true }))
  enters o job t s e v vacant = record {
    flag = refl;
    holder = λ u. ground (arith, v.flag, v.holder u, vacant);
    base = v.base;
    done = v.done;
    unlocked = v.unlocked;
    pending = λ u.
        Pending-put v.base v.base s.dispatcher _ s.work t u (enter job)
          (λ other. ground (arith, v.flag, v.holder u, vacant)) (v.pending u)
          (entered job v.base s.dispatcher (thread-Pending o s t (at_lock job) v e)
            (v.settled vacant));
    settled = λ h. absurd (ground (arith, h));
  }

  -- Thread `t` leaves the section with a job done, and the dispatcher is the one after the job.
  pub leaves :
      (o : Option ℕ) (job : Job F) (t : ℕ) (s : Shared F) (w : Work F) (d : Dispatcher F)
      → s.work t ≡ w
      → in_section w ≡ true
      → (v : IsSerial o s) → do_job job v.base ≡ some d
      → d.lock ≡ false
      → IsSerial none
          (record s { dispatcher = d; work = put_work s.work t at_rest; history = job ∷ s.history })
  unfolding one_at_a_time
  leaves o job t s w d e inside v did vacant =
      let own = owner_at o s t w v e inside in
      record {
        flag = vacant;
        holder = λ u. ground (arith, v.holder u, own.0);
        base = d;
        done = ap (λ r. elim r [ none ↦ none | some b ↦ do_job job b ]) v.done ∙ did;
        unlocked = vacant;
        pending = λ u.
            Pending-put v.base d s.dispatcher d s.work t u at_rest (others_out o s t u v own.0)
              (v.pending u) tt;
        settled = λ h. refl;
      }

  pub registered_job :
      (ids : List ℕ) (f : F) (base d : Dispatcher F)
      → base.lock ≡ false
      → register_ids ids f (record base { lock = true }) ≡ register_ids [] f d
      → do_job (job_register ids f) base ≡ some (lock_unlock d)
  unfolding register_func lock_lock register_ids
  registered_job ids f base d unlocked same = ground (arith, unlocked, same)

  assigned :
      (id : ℕ) (rest : List ℕ) (f : F) (d : Dispatcher F)
      → id < max_std_can_id
      → register_ids (id ∷ rest) f d
        ≡ register_ids rest f (record d { funcs = assign d.funcs id f })
  unfolding register_ids
  assigned id rest f d low = ground (arith, low)

  -- One more identifier of a registration is in the table.
  pub assigns :
      (o : Option ℕ) (ids : List ℕ) (id : ℕ) (rest : List ℕ) (f : F) (t : ℕ) (s : Shared F)
      → s.work t ≡ in_registration ids (id ∷ rest) f
      → IsSerial o s
      → IsSerial o (
          change s t
            (in_registration ids rest f)
            (record (s.dispatcher) { funcs = assign s.dispatcher.funcs id f }))
  assigns o ids id rest f t s e v =
      let own = owner_at o s t (in_registration ids (id ∷ rest) f) v e refl in
      let p = thread-Pending o s t (in_registration ids (id ∷ rest) f) v e in
      record {
        flag = v.flag;
        holder = λ u. ground (arith, v.holder u, own.0);
        base = v.base;
        done = v.done;
        unlocked = v.unlocked;
        pending = λ u.
            Pending-put v.base v.base s.dispatcher _ s.work t u (in_registration ids rest f)
              (others_out o s t u v own.0) (v.pending u)
              (p.0.1, p.1 ∙ assigned id rest f s.dispatcher p.0.0);
        settled = λ vacant. absurd (ground (arith, own.1, vacant));
      }
