-- ===== src/Can/Dispatcher/Wakeup/Joining.antt =====
-- The first stop: the reaper sees it, within a bounded number of its own steps.
use hy_can.Can.Network.{CanFrame}
use hy_can.Can.Dispatcher.Wakeup.ReaperSteps.{
  IsCalling, IsFirst, IsFirstMove, to_go, turns_of, reaper_turns, to_go-le, at_end,
  reaper_step-IsFirst,
}
use hy_can.Can.Dispatcher.Wakeup.CallerSteps.{request-IsFirst, caller_step-IsFirst}
use hy_can.Can.Dispatcher.Wakeup.{
  thread_moves-append, Place, reaper_waits, reaper_at_event, reaper_at_read, reaper_returned,
  reaper_crashed, caller_free, caller_joins, Threads, Move, calls_start, calls_stop, caller_turn,
  reaper_turn, thread_move, thread_moves, never_started, reaper_step, joined, caller_step,
  start_thread, request_stop,
}
use hy_can.Can.Dispatcher.{Dispatcher}
use hy_can.Base.{
  if-cases, All, ℕ, ◌-◌, ◌≤◌, ◌<◌, subst, ◌≡◌, refl, sym, ap, ◌∙◌, ◌⊎◌, inl, inr, true, false, List,
  [], ◌∷◌, ◌++◌, arith,
}

module _ {F : Type 0} (frame_of : ℕ → CanFrame) where
  thread_move-IsFirst :
      (m : Move) (t : Threads F) → IsFirstMove m → IsFirst t → IsFirst (thread_move frame_of m t)
  unfolding thread_move
  thread_move-IsFirst calls_start t w h = absurd w
  thread_move-IsFirst calls_stop t w h = (request-IsFirst frame_of t.caller t refl h).0
  thread_move-IsFirst caller_turn t w h = (caller_step-IsFirst frame_of t.caller t refl h).0
  thread_move-IsFirst (reaper_turn wake) t w h =
      (reaper_step-IsFirst frame_of t.reaper wake t w h.on_time refl h).0

  -- The stop is at its join, or it has returned.
  abbrev pub HasStopped : Threads F → Type 0
  HasStopped t = (t.caller ≡ caller_free) × (t.joinable ≡ false) × (t.reaper ≡ reaper_returned)

  abbrev IsEnding : Threads F → Type 0
  IsEnding t = (t.caller ≡ caller_joins) ⊎ HasStopped t

  joined-IsEnding :
      (place : Place) (t : Threads F)
      → t.reaper ≡ place
      → t.caller ≡ caller_joins
      → IsEnding (joined frame_of place t)
  unfolding joined
  joined-IsEnding reaper_returned t e joins = inr (refl, refl, e)
  joined-IsEnding reaper_waits t e joins = inl joins
  joined-IsEnding (reaper_at_event events) t e joins = inl joins
  joined-IsEnding (reaper_at_read event events) t e joins = inl joins
  joined-IsEnding reaper_crashed t e joins = inl joins

  caller_step-IsEnding : (t : Threads F) → IsEnding t → IsEnding (caller_step frame_of t.caller t)
  unfolding caller_step
  caller_step-IsEnding t (inl joins) =
      subst IsEnding (sym (ap (λ c. caller_step frame_of c t) joins))
        (joined-IsEnding t.reaper t refl joins)
  caller_step-IsEnding t (inr over) =
      subst IsEnding (sym (ap (λ c. caller_step frame_of c t) over.0)) (inr over)

  request-IsEnding : (t : Threads F) → IsEnding t → IsEnding (request_stop frame_of t.caller t)
  unfolding request_stop
  request-IsEnding t (inl joins) =
      subst IsEnding (sym (ap (λ c. request_stop frame_of c t) joins)) (inl joins)
  request-IsEnding t (inr over) =
      subst IsEnding (sym (ap (λ c. request_stop frame_of c t) over.0)) (
        if-cases IsEnding t.joinable _ t (λ joinable. absurd (ground (arith, joinable, over.1)))
          (λ none_there. inr over))

  written_stop :
      (t : Threads F)
      → IsFirst t
      → t.caller ≡ caller_joins
      → (t.is_stopping ≡ true) × (0 < t.counter)
  written_stop t h joins = subst (IsCalling t.counter t.is_stopping t.joinable) joins h.calling

  thread_move-IsEnding :
      (m : Move) (t : Threads F)
      → IsFirstMove m
      → IsFirst t
      → IsEnding t
      → IsEnding (thread_move frame_of m t)
        × (to_go (thread_move frame_of m t).reaper ≤ to_go t.reaper - turns_of m)
  unfolding thread_move reaper_step
  thread_move-IsEnding calls_start t w h ends = absurd w
  thread_move-IsEnding calls_stop t w h ends = (
    request-IsEnding t ends,
    omega (arith, ap to_go (request-IsFirst frame_of t.caller t refl h).1),
  )
  thread_move-IsEnding caller_turn t w h ends = (
    caller_step-IsEnding t ends,
    omega (arith, ap to_go (caller_step-IsFirst frame_of t.caller t refl h).1),
  )
  thread_move-IsEnding (reaper_turn wake) t w h (inl joins) =
      let near = reaper_step-IsFirst frame_of t.reaper wake t w h.on_time refl h in
      let written = written_stop t h joins in (inl (near.1 ∙ joins), near.2 written.1 written.0)
  thread_move-IsEnding (reaper_turn wake) t w h (inr over) =
      subst (λ t'. IsEnding t' × (to_go t'.reaper ≤ to_go t.reaper - 1))
        (sym (ap (λ p. reaper_step frame_of p wake t) over.2))
        (inr over, omega (arith, ap to_go over.2))

  thread_moves-IsEnding :
      (ms : List Move) (t : Threads F)
      → All IsFirstMove ms
      → IsFirst t
      → IsEnding t
      → to_go t.reaper ≤ reaper_turns ms
      → let t' = thread_moves frame_of ms t in IsEnding t' × (t'.reaper ≡ reaper_returned)
  unfolding thread_moves
  thread_moves-IsEnding [] t w h ends few = (ends, at_end t.is_stopping t.reaper h.on_time few)
  thread_moves-IsEnding (m ∷ ms) t w h ends few =
      let (ends', nearer) = thread_move-IsEnding m t w.0 h ends in
      thread_moves-IsEnding ms (thread_move frame_of m t) w.1 (thread_move-IsFirst m t w.0 h) ends'
        (omega arith)

  thread_moves-IsFirst :
      (ms : List Move) (t : Threads F)
      → All IsFirstMove ms
      → IsFirst t
      → IsFirst (thread_moves frame_of ms t)
  unfolding thread_moves
  thread_moves-IsFirst [] t w h = h
  thread_moves-IsFirst (m ∷ ms) t w h =
      thread_moves-IsFirst ms (thread_move frame_of m t) w.1 (thread_move-IsFirst m t w.0 h)

  started-IsFirst :
      (d : Dispatcher F)
      → d.lock ≡ false
      → IsFirst (thread_move frame_of calls_start (never_started frame_of d))
  unfolding thread_move start_thread
  started-IsFirst d vacant = record {
    seen = λ s. refl;
    on_time = tt;
    calling = λ s. cc;
    vacant = vacant;
  }

  join_step :
      (t : Threads F)
      → IsEnding t × (t.reaper ≡ reaper_returned)
      → HasStopped (thread_moves frame_of (caller_turn ∷ []) t)
  unfolding thread_moves thread_move caller_step joined
  join_step t (inl joins, gone) =
      subst HasStopped
        (sym (ap (λ c. caller_step frame_of c t) joins ∙ ap (λ p. joined frame_of p t) gone))
        (refl, refl, gone)
  join_step t (inr over, gone) =
      subst HasStopped (sym (ap (λ c. caller_step frame_of c t) over.0)) over

  -- The first stop of a dispatcher returns: however the steps of the caller and of the reaper have
  -- interleaved since the first start, with the lock free and frames with identifiers below 2048, once
  -- the stop is at its join, and the reaper has then taken 8193 steps, in whatever order with the
  -- caller's and whatever frames come, the reaper has returned, and the next step of the caller ends
  -- the stop if it has not ended.
  pub first_stop_returns :
      (d : Dispatcher F)
      → d.lock ≡ false
      → (ms : List Move) → All IsFirstMove ms
      → let t =
          thread_moves frame_of ms (thread_move frame_of calls_start (never_started frame_of d)) in
        t.caller ≡ caller_joins
        → (later : List Move) → All IsFirstMove later
        → 8193 ≤ reaper_turns later
        → HasStopped (thread_moves frame_of (later ++ caller_turn ∷ []) t)
  first_stop_returns d vacant ms w joins later w' enough =
      let first = thread_move frame_of calls_start (never_started frame_of d) in
      let t = thread_moves frame_of ms first in
      let h = thread_moves-IsFirst ms first w (started-IsFirst d vacant) in
      let few = to_go-le t.is_stopping t.reaper h.on_time in
      subst HasStopped (sym (thread_moves-append frame_of later (caller_turn ∷ []) t)) (
        join_step (thread_moves frame_of later t)
          (thread_moves-IsEnding later t w' h (inl joins) (omega arith)))
