-- ===== src/Can/Dispatcher/Restart.antt =====
-- `start` and `stop` of src/Interface/Dispatcher.cpp with the counter of `thread_event_fd`, while no CAN
-- frame comes. As eventfd(2) documents it, a write adds to the counter, the descriptor is readable while
-- the counter is not 0, and a read gives the counter as an integer of eight bytes and resets it.

use hy_can.Base.{
  int_eq_iff, refl, arith, ℤ, if◌then◌else◌, ℕ, zero, suc, ◌≡◌, Bool, true, false, Option, none,
  some, List, [], ◌∷◌,
}
use hy_can.Can.Network.{CanFrame}
use hy_can.Can.Dispatcher.{
  Dispatcher, returned, lock_lock, lock_unlock, dispatch_frame, handle_event, handle_events,
  running, Reaper, Event,
}

pub record Restart (F : Type 0) : Type 0 where
  pub dispatcher : Dispatcher F
  pub counter : ℕ
  -- `reap_thread.joinable()`
  pub joinable : Bool

-- What `epoll_wait` returns with: the descriptor, while its counter is not 0. `frame_of n` is what a zeroed
-- frame holds after a read of the counter `n` into it.
abbrev ready : ℤ → (ℕ → CanFrame) → Bool → ℕ → List Event
ready thread_event_fd frame_of is_stopping zero = []
ready thread_event_fd frame_of is_stopping (suc n) =
    record {
      fd = thread_event_fd;
      is_readable = true;
      is_stopping = is_stopping;
      frame = some (frame_of (suc n));
    }
    ∷ []

module _ {F : Type 0} (thread_event_fd : ℤ) (frame_of : ℕ → CanFrame) where
  -- A thread that goes on has read the counter; one that returns has not. `none` is a thread that
  -- ended in another way.
  after_round : Reaper F → Restart F → Option (Restart F)
  after_round (running d) r = some (record r { dispatcher = d; counter = 0 })
  after_round (returned d) r = some (record r { dispatcher = d; joinable = false })
  after_round _ r = none

  -- One round of `reap_process`.
  unfoldable pub reaper_round : Bool → Restart F → Option (Restart F)
  unfolding after_round
  reaper_round is_stopping r =
      after_round
        (handle_events thread_event_fd (ready thread_event_fd frame_of is_stopping r.counter)
          r.dispatcher)
        r

  -- `start`, once its steps in front of the thread have succeeded.
  unfoldable pub restart : Restart F → Restart F
  restart r = record r { joinable = true }

  -- `stop`: the request, the write of 1, and the thread's last round until it is joined.
  unfoldable pub halt : Restart F → Option (Restart F)
  halt r =
      let last = reaper_round true (record r { counter = suc r.counter }) in
      if r.joinable then last else some r

  -- A reaper in its loop.
  abbrev pub at_work : Dispatcher F → Restart F
  at_work d = record { dispatcher = d; counter = 0; joinable = true }

  -- A stop leaves its own event behind: after the next start the reaper takes the counter for a CAN
  -- frame and calls the callback of the identifier 1 with it, though no frame came. The lock
  -- is free, and the counter of 1 reads as a frame whose identifier is 1.
  pub restart_calls_callback :
      (d : Dispatcher F) (f : F)
      → d.lock ≡ false
      → (frame_of 1).can_id ≡ 1
      → d.funcs 1 ≡ some f
      → (stopped : Restart F) × (halt (at_work d) ≡ some stopped)
        × (stopped.joinable ≡ false)
        × (stopped.dispatcher ≡ d)
        × (reaper_round false (restart stopped)
            ≡ some (at_work (record d { calls = (f, frame_of 1) ∷ d.calls })))
  unfolding halt reaper_round restart after_round handle_events handle_event dispatch_frame
      lock_lock lock_unlock
  restart_calls_callback d f unlocked id callback = (
    record { dispatcher = d; counter = 1; joinable = false },
    ground (arith, int_eq_iff thread_event_fd thread_event_fd),
    refl,
    refl,
    ground (arith, int_eq_iff thread_event_fd thread_event_fd),
  )
