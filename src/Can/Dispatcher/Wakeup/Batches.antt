-- ===== src/Can/Dispatcher/Wakeup/Batches.antt =====
-- The batches of `epoll_wait`, and what one frame does to the dispatcher.
use hy_can.Can.Network.{CanFrame}
use hy_can.Can.Dispatcher.Wakeup.{
  Ready, ready_stop, ready_frame, Wake, wake_interrupted, wake_reported, batch,
}
use hy_can.Can.Dispatcher.Delivery.{IsStandardFrame}
use hy_can.Can.Dispatcher.{
  max_std_can_id, Dispatcher, running, lock_lock, lock_unlock, dispatch_frame, handle_read,
  call_func,
}
use hy_can.Base.{
  All, length, ℕ, zero, suc, ◌+◌, ◌≤◌, ◌<◌, ◌≡◌, refl, ap, true, false, Option, none, some, List,
  [], ◌∷◌, ◌++◌, append-nil, map, arith,
}

abbrev pub IsFrame : Ready → Type 0
IsFrame ready_stop = ⊥
IsFrame (ready_frame frame) = Unit {0}

abbrev pub IsStandardReady : Ready → Type 0
IsStandardReady ready_stop = Unit {0}
IsStandardReady (ready_frame frame) = IsStandardFrame frame

-- The frames that a wake brings have identifiers below 2048, and the batch fits into `events`.
abbrev pub max_epoll_event : ℕ
max_epoll_event = 2048

abbrev pub IsStandardWake : Wake → Type 0
IsStandardWake wake_interrupted = Unit {0}
IsStandardWake (wake_reported before after) =
    All IsStandardFrame before
    × All IsStandardFrame after
    × (length before + length after < max_epoll_event)

frames-All :
    (frames : List (Option CanFrame)) (events : List Ready)
    → All IsStandardFrame frames
    → All IsStandardReady events
    → All IsStandardReady (map ready_frame frames ++ events)
frames-All [] events h h' = h'
frames-All (frame ∷ frames) events h h' = (h.0, frames-All frames events h.1 h')

frames-IsFrame :
    (frames : List (Option CanFrame)) (events : List Ready)
    → All IsFrame events
    → All IsFrame (map ready_frame frames ++ events)
frames-IsFrame [] events h = h
frames-IsFrame (frame ∷ frames) events h = (tt, frames-IsFrame frames events h)

length-frames :
    (frames : List (Option CanFrame)) (events : List Ready)
    → length (map ready_frame frames ++ events) ≡ length frames + length events
length-frames [] events = omega arith
length-frames (frame ∷ frames) events = omega (arith, length-frames frames events)

pub batch-All :
    (counter : ℕ) (before after : List (Option CanFrame))
    → All IsStandardFrame before
    → All IsStandardFrame after
    → All IsStandardReady (batch counter before after)
batch-All zero before after h h' =
    frames-All before (map ready_frame after) h
      (rw (← append-nil (map ready_frame after)) (frames-All after [] h' tt))
batch-All (suc n) before after h h' =
    frames-All before (ready_stop ∷ map ready_frame after) h
      (tt, rw (← append-nil (map ready_frame after)) (frames-All after [] h' tt))

pub batch-IsFrame : (before after : List (Option CanFrame)) → All IsFrame (batch 0 before after)
batch-IsFrame before after =
    frames-IsFrame before (map ready_frame after)
      (rw (← append-nil (map ready_frame after)) (frames-IsFrame after [] tt))

pub length-batch :
    (counter : ℕ) (before after : List (Option CanFrame))
    → length (batch counter before after) ≤ suc (length before + length after)
length-batch zero before after = omega (
  arith,
  length-frames before (map ready_frame after),
  length-frames after [],
  ap length (append-nil (map ready_frame after)),
)
length-batch (suc n) before after = omega (
  arith,
  length-frames before (ready_stop ∷ map ready_frame after),
  length-frames after [],
  ap length (append-nil (map ready_frame after)),
)

module _ {F : Type 0} where
  -- With the lock free, a frame with an identifier below 2048 leaves the reaper in its loop and the
  -- lock free.
  pub dispatch_frame_running :
      (frame : CanFrame) (d : Dispatcher F)
      → frame.can_id < max_std_can_id
      → d.lock ≡ false
      → (d' : Dispatcher F) × (dispatch_frame frame d ≡ running d') × (d'.lock ≡ false)
  unfolding dispatch_frame lock_lock lock_unlock
  dispatch_frame_running frame d low vacant = (
    lock_unlock (call_func (d.funcs frame.can_id) frame (record d { lock = true })),
    ground (arith, low, vacant),
    refl,
  )

  pub handle_read_running :
      (frame : Option CanFrame) (d : Dispatcher F)
      → IsStandardFrame frame
      → d.lock ≡ false
      → (d' : Dispatcher F) × (handle_read frame d ≡ running d') × (d'.lock ≡ false)
  unfolding handle_read
  handle_read_running none d low vacant = (d, refl, vacant)
  handle_read_running (some frame) d low vacant = dispatch_frame_running frame d low vacant
