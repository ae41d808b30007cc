-- ===== src/Can/Dispatcher/Wakeup.antt =====
-- `start`, `stop` and `reap_process` of src/Interface/Dispatcher.cpp as two threads that interleave: the
-- caller of `start` and `stop`, and the reaper, a system call at a time. The kernel chooses what
-- `epoll_wait` reports, but it reports the eventfd exactly while its counter is not 0; the write to the
-- eventfd succeeds. The callers that register meanwhile stand in Can/Dispatcher/Concurrent.
pub mod Batches
pub mod ReaperSteps
pub mod CallerSteps
pub mod Joining
pub mod LostStop
use hy_can.Can.Network.{CanFrame}
use hy_can.Can.Dispatcher.{Dispatcher, Reaper, running, dispatch_frame, handle_read}
use hy_can.Base.{
  ◌≡◌, refl, if◌then◌else◌, ℕ, zero, suc, Bool, true, false, Option, List, [], ◌∷◌, ◌++◌, map,
}

-- An event of a batch: the eventfd, or the CAN socket with the frame that `read` gives, if it gives one.
pub data Ready : Type 0 where
  ready_stop : Ready
  ready_frame : Option CanFrame → Ready

-- Where the reaper is: in `epoll_wait`, at the head of the loop over the events, or at the `read` of an
-- event whose test for a stop has failed; it has returned; or a callback ended it, or a `lock_.lock()`
-- that never returns.
pub data Place : Type 0 where
  reaper_waits : Place
  reaper_at_event : List Ready → Place
  reaper_at_read : Ready → List Ready → Place
  reaper_returned reaper_crashed : Place

-- Where the caller is: in no call; in `stop` between the request and the write; or at `join`.
pub data Caller : Type 0 where
  caller_free caller_writes caller_joins : Caller

pub record Threads (F : Type 0) : Type 0 where
  pub dispatcher : Dispatcher F
  -- The counter of `thread_event_fd`.
  pub counter : ℕ
  -- `reap_thread.joinable()`
  pub joinable : Bool
  -- `stop_token.stop_requested()`
  pub is_stopping : Bool
  pub reaper : Place
  pub caller : Caller

-- How `epoll_wait` returns: with EINTR, or with the frames before and behind the eventfd.
pub data Wake : Type 0 where
  wake_interrupted : Wake
  wake_reported : List (Option CanFrame) → List (Option CanFrame) → Wake

pub data Move : Type 0 where
  calls_start calls_stop caller_turn : Move
  reaper_turn : Wake → Move

abbrev pub batch : ℕ → List (Option CanFrame) → List (Option CanFrame) → List Ready
batch zero before after = map ready_frame before ++ map ready_frame after
batch (suc n) before after = map ready_frame before ++ ready_stop ∷ map ready_frame after

module _ {F : Type 0} (frame_of : ℕ → CanFrame) where
  -- The reaper goes on with the other events once the callback has returned.
  pub after_frame : Reaper F → List Ready → Threads F → Threads F
  after_frame (running d) events t = record t { dispatcher = d; reaper = reaper_at_event events }
  after_frame _ events t = record t { reaper = reaper_crashed }

  wake_up : Wake → Threads F → Threads F
  wake_up wake_interrupted t = if t.is_stopping then record t { reaper = reaper_returned } else t
  wake_up (wake_reported before after) t = record t {
    reaper = reaper_at_event (batch t.counter before after);
  }

  -- `events[i].data.fd == thread_event_fd && stop_token.stop_requested()`
  test_event : Ready → List Ready → Threads F → Threads F
  test_event ready_stop events t =
      if t.is_stopping
      then record t { reaper = reaper_returned }
      else record t { reaper = reaper_at_read ready_stop events }
  test_event (ready_frame frame) events t = record t {
    reaper = reaper_at_read (ready_frame frame) events;
  }

  -- `read` and what follows it. A read of the eventfd resets its counter; while that is 0, it blocks.
  read_stop : ℕ → List Ready → Threads F → Threads F
  unfolding after_frame
  read_stop zero events t = t
  read_stop (suc n) events t =
      after_frame (dispatch_frame (frame_of (suc n)) t.dispatcher) events (record t { counter = 0 })

  read_event : Ready → List Ready → Threads F → Threads F
  unfolding read_stop after_frame
  read_event ready_stop events t = read_stop t.counter events t
  read_event (ready_frame frame) events t = after_frame (handle_read frame t.dispatcher) events t

  pub reaper_step : Place → Wake → Threads F → Threads F
  unfolding wake_up test_event read_event
  reaper_step reaper_waits wake t = wake_up wake t
  reaper_step (reaper_at_event []) wake t = record t { reaper = reaper_waits }
  reaper_step (reaper_at_event (event ∷ events)) wake t = test_event event events t
  reaper_step (reaper_at_read event events) wake t = read_event event events t
  reaper_step reaper_returned wake t = t
  reaper_step reaper_crashed wake t = t

  pub joined : Place → Threads F → Threads F
  joined reaper_returned t = record t { joinable = false; caller = caller_free }
  joined _ t = t

  -- The write of 1, and the join.
  pub caller_step : Caller → Threads F → Threads F
  unfolding joined
  caller_step caller_free t = t
  caller_step caller_writes t = record t { counter = suc t.counter; caller = caller_joins }
  caller_step caller_joins t = joined t.reaper t

  -- `start`, from the test of `joinable` on. A new thread has a stop token of its own.
  pub start_thread : Caller → Threads F → Threads F
  start_thread caller_free t =
      if t.joinable
      then t
      else record t { joinable = true; is_stopping = false; reaper = reaper_waits }
  start_thread _ t = t

  -- `stop`, with the request.
  pub request_stop : Caller → Threads F → Threads F
  request_stop caller_free t =
      if t.joinable then record t { is_stopping = true; caller = caller_writes } else t
  request_stop _ t = t

  unfoldable pub thread_move : Move → Threads F → Threads F
  unfolding start_thread request_stop caller_step reaper_step
  thread_move calls_start t = start_thread t.caller t
  thread_move calls_stop t = request_stop t.caller t
  thread_move caller_turn t = caller_step t.caller t
  thread_move (reaper_turn wake) t = reaper_step t.reaper wake t

  unfoldable pub thread_moves : List Move → Threads F → Threads F
  thread_moves [] t = t
  thread_moves (m ∷ ms) t = thread_moves ms (thread_move m t)

  -- A dispatcher that was never started.
  abbrev pub never_started : Dispatcher F → Threads F
  never_started d = record {
    dispatcher = d;
    counter = 0;
    joinable = false;
    is_stopping = false;
    reaper = reaper_returned;
    caller = caller_free;
  }

  pub thread_moves-append :
      (ms later : List Move) (t : Threads F)
      → thread_moves (ms ++ later) t ≡ thread_moves later (thread_moves ms t)
  unfolding thread_moves
  thread_moves-append [] later t = refl
  thread_moves-append (m ∷ ms) later t = thread_moves-append ms later (thread_move m t)
