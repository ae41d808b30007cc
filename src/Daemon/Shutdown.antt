-- ===== src/Daemon/Shutdown.antt =====
-- How the daemon stops: `stop` of src/Daemon/Daemon.cpp, called by the signal handler of
-- src/Daemon/main.cpp on the main thread, with the loops of `run` and of session_cleanup_worker and the
-- two uses of `sessions_mutex_`. A thread that waits is at a place whose move is refused for now. The
-- handler is not interrupted by another signal. What a thread does at its place is left out here.
pub mod Deadlock
pub mod Ending
use hy_can.Base.{
  leb, ◌==◌, if◌then◌else◌, ℕ, zero, suc, ◌-◌, Bool, true, false, Option, none, some, List, [], ◌∷◌,
}

-- The main thread: in the loop of `run`, before and within the lock of handle_client_registration,
-- before and within the lock of cleanup_sessions, and at the return of `run`.
pub data MainPlace : Type 0 where
  polling wants_lock registering wants_end ending finished : MainPlace

-- The cleanup thread: at the test of its loop, asleep, before the lock, within it with so many workers
-- left to join, and ended.
pub data CleanupPlace : Type 0 where
  at_test sleeping wants_pass ended : CleanupPlace
  passing : ℕ → CleanupPlace

pub record Threads : Type 0 where
  pub main : MainPlace
  -- The main thread is in the signal handler, at the join of `stop`.
  pub in_handler : Bool
  -- `running_`
  pub running : Bool
  pub cleanup : CleanupPlace
  -- The workers that have not ended, without those that the cleanup thread joins.
  pub workers : ℕ

-- `run` after the constructor has started the cleanup thread.
unfoldable pub first_threads : Threads
first_threads = record {
  main = polling;
  in_handler = false;
  running = true;
  cleanup = at_test;
  workers = 0;
}

abbrev pub main_holds : MainPlace → Bool
main_holds registering = true
main_holds ending = true
main_holds _ = false

abbrev pub cleanup_holds : CleanupPlace → Bool
cleanup_holds (passing k) = true
cleanup_holds _ = false

-- What may happen next: the main thread goes on, with a client that came or a worker that could be
-- started; the cleanup thread goes on, and finds so many stale sessions; a worker ends that is joined;
-- another worker ends; the signal arrives.
pub data Move : Type 0 where
  main_goes : Bool → Move
  cleanup_goes : ℕ → Move
  joined_ends worker_ends signal : Move

-- The main thread outside the handler.
main_next : MainPlace → Bool → Threads → Option Threads
main_next polling b s =
    if s.running
    then some (record s { main = if b then wants_lock else polling })
    else some (record s { main = wants_end })
main_next wants_lock b s =
    if cleanup_holds s.cleanup then none else some (record s { main = registering })
main_next registering b s =
    some (record s { main = polling; workers = if b then suc s.workers else s.workers })
main_next wants_end b s =
    if cleanup_holds s.cleanup then none else some (record s { main = ending })
main_next ending b s = if s.workers == 0 then some (record s { main = finished }) else none
main_next finished b s = none

-- The join at the end of `stop`.
handler_next : CleanupPlace → Threads → Option Threads
handler_next ended s = some (record s { in_handler = false })
handler_next _ s = none

cleanup_next : CleanupPlace → ℕ → Threads → Option Threads
cleanup_next at_test k s = some (record s { cleanup = if s.running then sleeping else ended })
cleanup_next sleeping k s = some (record s { cleanup = wants_pass })
cleanup_next wants_pass k s =
    if main_holds s.main
    then none
    else if leb k s.workers
    then some (record s { cleanup = passing k; workers = s.workers - k })
    else none
cleanup_next (passing zero) k s = some (record s { cleanup = at_test })
cleanup_next (passing (suc n)) k s = none
cleanup_next ended k s = none

-- A worker that is joined has been told to stop.
joined_next : CleanupPlace → Threads → Option Threads
joined_next (passing (suc n)) s = some (record s { cleanup = passing n })
joined_next _ s = none

-- A worker ends by itself once `running_` is false.
worker_next : ℕ → Threads → Option Threads
worker_next zero s = none
worker_next (suc n) s = if s.running then none else some (record s { workers = n })

-- `signal_handler`: `stop` stores the flag, and comes to its join.
signal_next : Threads → Option Threads
signal_next s =
    if s.in_handler then none else some (record s { in_handler = true; running = false })

-- The state after a move, or nothing while the move has to wait.
unfoldable pub move : Move → Threads → Option Threads
unfolding main_next handler_next cleanup_next joined_next worker_next signal_next
move (main_goes b) s = if s.in_handler then handler_next s.cleanup s else main_next s.main b s
move (cleanup_goes k) s = cleanup_next s.cleanup k s
move joined_ends s = joined_next s.cleanup s
move worker_ends s = worker_next s.workers s
move signal s = signal_next s

-- A run: each move in turn, none of which has to wait.
unfoldable pub moves : List Move → Threads → Option Threads
moves [] s = some s
moves (m ∷ ms) s = elim (move m s) [ none ↦ none | some t ↦ moves ms t ]
