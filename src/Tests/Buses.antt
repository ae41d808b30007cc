-- ===== src/Tests/Buses.antt =====
-- CAN sockets that all open, with five frames to read, and the sender and the dispatcher on them.

use hy_can.Can.Dispatcher.Delivery.{calls_of}
use hy_can.Can.Dispatcher.Bounds.{any_past, IsNoStop, batch_in_range}
use hy_can.Util.Error.{Expected, is_ok}
use hy_can.Can.Socket.{Socket, new_socket}
use hy_can.Can.Sender.Delivery.{delivered, send-delivers}
use hy_can.Can.Sender.{new_sender, send}
use hy_can.Can.Network.{CanFrame, Network, Env, eintr, eagain}
use hy_can.Can.Dispatcher.Registration.{registered, register_func_keeps_lock}
use hy_can.Can.Dispatcher.Reaping.{IsPlainWait}
use hy_can.Can.Dispatcher.Lifecycle.{Poll}
use hy_can.Can.Dispatcher.{
  running, undefined_behaviour, handle_events, Dispatcher, Event, Wait, wait_error, wait_events,
  blocked, register_func, dispatch_frame,
}
use hy_can.Base.{
  reverse, flat_map, text, pos, minus_one, All, ◌==◌, if◌then◌else◌, ℕ, zero, suc, ◌+◌, ◌≤◌, ◌≡◌,
  refl, true, false, Option, none, some, List, [], ◌∷◌, ◌++◌, arith,
}

-- The state is the last descriptor and the number of frames that wait.
abbrev pub buses : Network
buses = record {
  World = ℕ × ℕ;
  socket = λ w. (pos (suc w.0), (suc w.0, w.1));
  interface_index = λ fd name w. ((pos 0, 2), w);
  bind = λ fd index w. (pos 0, w);
  set_nonblocking = λ fd w. w;
  read = λ fd w. elim w.1 [ zero ↦ (minus_one, (w.0, 0)) | suc k ↦ (pos 16, (w.0, k)) ];
  write = λ fd frame w. (pos 16, w);
  close = λ fd w. w;
  errno = λ w. eagain;
  strerror = λ code. text "error";
}

abbrev pub poll : Poll buses
poll = record {
  epoll_create = λ w. (pos (suc w.0), (suc w.0, w.1));
  eventfd = λ w. (minus_one, w);
  epoll_add = λ epoll fd w. (pos 0, w);
  event_write = λ fd w. (pos 8, w);
  reaper_ends = λ w. true;
}

abbrev pub idle : Env buses
idle = record { world = (3, 5); opened = λ fd. 0; closed = λ fd. 0; sent = []; writes = 0 }

abbrev can_socket : Socket
can_socket = new_socket (text "can0")

abbrev frame : CanFrame
frame = record { can_id = 0x123; len = 2; bytes = 1 ∷ 2 ∷ [] }

send-delivers_example :
    let r = send buses (λ (f : CanFrame). f) frame (new_sender (text "can0")) idle in
    (r.1.sent ≡ delivered r.0.0 frame idle.sent) × (r.1.writes ≤ idle.writes + 2)
send-delivers_example =
    send-delivers buses (λ (f : CanFrame). f) frame (new_sender (text "can0")) idle

-- A dispatcher with callbacks that are known by their numbers.
abbrev table : Dispatcher ℕ
table = record { funcs = λ id. if id == 0x123 then some 1 else none; lock = false; calls = [] }

abbrev event : Option CanFrame → Event
event frame = record { fd = pos 4; is_readable = true; is_stopping = false; frame = frame }

abbrev pub waits : List Wait
waits =
    wait_error eintr false
    ∷ wait_events (event (some frame) ∷ event none ∷ [])
    ∷ wait_events (event (some (record frame { can_id = 0x200 })) ∷ [])
    ∷ []

pub waits-IsPlainWait : All (IsPlainWait (pos 9)) waits
waits-IsPlainWait =
    ((refl, refl), (((refl, omega arith), ((refl, tt), tt)), (((refl, omega arith), tt), tt)))

register_func_keeps_lock_example :
    (r : Expected (Unit {0}) × Dispatcher ℕ) × (register_func ((1 ∷ []) ++ 4000 ∷ 2 ∷ []) 5 table
      ≡ some r)
    × (is_ok r.0 ≡ false)
    × ((k : ℕ) → r.1.funcs k ≡ registered (1 ∷ []) 5 table.funcs k)
    × ((ids : List ℕ) (g : ℕ) → register_func ids g r.1 ≡ none)
    × ((frame : CanFrame) → dispatch_frame frame r.1 ≡ blocked)
register_func_keeps_lock_example =
    register_func_keeps_lock 5 (1 ∷ []) 4000 (2 ∷ []) table (omega arith, tt) (omega arith) refl

-- A frame with the flag of extended frames, behind an event without a frame.
abbrev flagged_batch : List Event
flagged_batch = event none ∷ event (some (record frame { can_id = 0x80000123 })) ∷ []

flagged_batch-IsNoStop : All (IsNoStop (pos 9)) flagged_batch
flagged_batch-IsNoStop = (refl, (refl, tt))

batch_in_range_example : handle_events (pos 9) flagged_batch table ≡ (
    if any_past flagged_batch
    then undefined_behaviour
    else running (record table {
      calls = reverse (flat_map (calls_of table.funcs) flagged_batch) ++ table.calls;
    }))
batch_in_range_example = batch_in_range (pos 9) flagged_batch table flagged_batch-IsNoStop refl
