-- ===== src/Can/Dispatcher.antt =====
-- include/HyCAN/Interface/Dispatcher.hpp and the loop `reap_process` of src/Interface/Dispatcher.cpp.
-- `F` stands for the callbacks; a call of one is recorded with its frame, the latest first. The latency statistics of a test build and the real-time settings of the thread stand in the children.
pub mod Registration
pub mod Delivery
pub mod Bounds
pub mod Reaping
pub mod Lifecycle
pub mod Latency
pub mod Restart
pub mod Subscriptions
pub mod Concurrent
pub mod RealTime
pub mod Wakeup
use hy_can.Util.Error.{func_can_id_set_error, error, Expected, ok, unexpected}
use hy_can.Can.Network.{CanFrame, eintr, eagain}
use hy_can.Base.{
  text, show_nat, ℤ, int_eq, leb, ◌==◌, if◌then◌else◌, ℕ, Bool, true, false, ◌&&◌, ◌||◌, Option,
  none, some, List, [], ◌∷◌, ◌++◌,
}

-- `HC_MAX_STD_CAN_ID`
abbrev pub max_std_can_id : ℕ
max_std_can_id = 2048

pub record Dispatcher (F : Type 0) : Type 0 where
  pub funcs : ℕ → Option F
  -- The flag of the spin lock `lock_`.
  pub lock : Bool
  pub calls : List (F × CanFrame)

-- What `epoll_wait` says of a descriptor; whether a stop was requested by the time the loop asks;
-- and the frame that `read` gives, if it gives any bytes.
pub record Event : Type 0 where
  pub fd : ℤ
  pub is_readable : Bool
  pub is_stopping : Bool
  pub frame : Option CanFrame

-- A return of `epoll_wait`: an error number with the stop flag, or the events.
pub data Wait : Type 0 where
  wait_error : ℕ → Bool → Wait
  wait_events : List Event → Wait

-- Where the thread is: in its loop, returned, ended by an exception, spinning in `lock_.lock()` for
-- ever, or past the end of `funcs`, where the behaviour of the program is undefined.
pub data Reaper (F : Type 0) : Type 0 where
  running returned : Dispatcher F → Reaper F
  threw : ℕ → Reaper F
  blocked undefined_behaviour : Reaper F

limit_error : ℕ → Expected (Unit {0})
limit_error id = unexpected (
    error func_can_id_set_error
      (text "CAN ID " ++ (show_nat id ++ text " exceeds maximum limit of 2047")))

module _ {F : Type 0} where
  unfoldable pub new_dispatcher : Dispatcher F
  new_dispatcher = record { funcs = λ id. none; lock = false; calls = [] }

  abbrev pub assign : (ℕ → Option F) → ℕ → F → ℕ → Option F
  assign funcs id f k = if id == k then some f else funcs k

  -- `lock_.lock()`, where no other thread is about to unlock: `none` is a loop that never ends.
  unfoldable pub lock_lock : Dispatcher F → Option (Dispatcher F)
  lock_lock d = if d.lock then none else some (record d { lock = true })

  unfoldable pub lock_unlock : Dispatcher F → Dispatcher F
  lock_unlock d = record d { lock = false }

  -- The loop over the identifiers and the end of `register_func`. The set gives them in order.
  unfoldable pub register_ids : List ℕ → F → Dispatcher F → Expected (Unit {0}) × Dispatcher F
  unfolding limit_error lock_unlock
  register_ids [] f d = (ok tt, lock_unlock d)
  register_ids (id ∷ ids) f d =
      let rest = register_ids ids f (record d { funcs = assign d.funcs id f }) in
      if leb max_std_can_id id then (limit_error id, d) else rest

  unfoldable pub register_func :
      List ℕ → F → Dispatcher F → Option (Expected (Unit {0}) × Dispatcher F)
  unfolding lock_lock
  register_func can_ids func d = elim (lock_lock d) [
    | none ↦ none
    | some locked ↦ some (register_ids can_ids func locked)
  ]

  -- `if (funcs[frame.can_id]) funcs[frame.can_id](frame);`
  call_func : Option F → CanFrame → Dispatcher F → Dispatcher F
  call_func none frame d = d
  call_func (some f) frame d = record d { calls = (f, frame) ∷ d.calls }

  -- From `lock_.lock()` to `lock_.unlock()`.
  unfoldable pub dispatch_frame : CanFrame → Dispatcher F → Reaper F
  unfolding lock_lock lock_unlock call_func
  dispatch_frame frame d = elim (lock_lock d) [
    | none ↦ blocked
    | some locked ↦
        if leb max_std_can_id frame.can_id
        then undefined_behaviour
        else running (lock_unlock (call_func (locked.funcs frame.can_id) frame locked))
  ]

  unfoldable pub handle_read : Option CanFrame → Dispatcher F → Reaper F
  handle_read none d = running d
  handle_read (some frame) d = dispatch_frame frame d

  -- What comes next, if the thread is still in its loop.
  abbrev pub go_on : Reaper F → (Dispatcher F → Reaper F) → Reaper F
  go_on (running d) next = next d
  go_on (returned d) next = returned d
  go_on (threw code) next = threw code
  go_on blocked next = blocked
  go_on undefined_behaviour next = undefined_behaviour

  -- One round of the loop over the events.
  unfoldable pub handle_event : ℤ → Event → Dispatcher F → Reaper F
  unfolding handle_read
  handle_event thread_event_fd event d =
      if int_eq event.fd thread_event_fd && event.is_stopping
      then returned d
      else if event.is_readable
      then handle_read event.frame d
      else running d

  unfoldable pub handle_events : ℤ → List Event → Dispatcher F → Reaper F
  handle_events thread_event_fd [] d = running d
  handle_events thread_event_fd (event ∷ events) d =
      go_on (handle_event thread_event_fd event d) (handle_events thread_event_fd events)

  -- One round of `while (true)`.
  unfoldable pub handle_wait : ℤ → Wait → Dispatcher F → Reaper F
  handle_wait thread_event_fd (wait_error code is_stopping) d =
      if code == eagain || code == eintr
      then if is_stopping then returned d else running d
      else if is_stopping
      then returned d
      else threw code
  handle_wait thread_event_fd (wait_events events) d = handle_events thread_event_fd events d

  -- The loop, over the returns of `epoll_wait` so far.
  unfoldable pub reap_process : ℤ → List Wait → Dispatcher F → Reaper F
  reap_process thread_event_fd [] d = running d
  reap_process thread_event_fd (wait ∷ waits) d =
      go_on (handle_wait thread_event_fd wait d) (reap_process thread_event_fd waits)
