-- ===== src/Tests/Shutdown.antt =====
-- Runs of the daemon's threads to a stop.

use hy_can.Daemon.Shutdown.Ending.{is_signal, moves_left, has_returned, signalled, stop_ends}
use hy_can.Daemon.Shutdown.Deadlock.{stop_deadlocks}
use hy_can.Daemon.Shutdown.{
  move, polling, registering, finished, sleeping, wants_pass, ended, Threads, first_threads, Move,
  main_goes, cleanup_goes, joined_ends, signal, moves,
}
use hy_can.Base.{is_some, length, ◌≤◌, ◌≡◌, refl, ◌⊎◌, true, false, some, List, [], ◌∷◌}

-- A client is registered, and the cleanup thread falls asleep.
abbrev before : List Move
before = main_goes true ∷ main_goes true ∷ main_goes true ∷ cleanup_goes 0 ∷ []

abbrev at_signal : Threads
at_signal = record {
  main = polling;
  in_handler = false;
  running = true;
  cleanup = sleeping;
  workers = 1;
}

-- After the signal the cleanup thread finds the client dead, joins its worker and ends; the handler
-- and `run` return.
abbrev after : List Move
after =
    cleanup_goes 0
    ∷ cleanup_goes 1
    ∷ joined_ends
    ∷ cleanup_goes 0
    ∷ cleanup_goes 0
    ∷ main_goes false
    ∷ main_goes false
    ∷ main_goes false
    ∷ main_goes false
    ∷ []

abbrev at_end : Threads
at_end = record {
  main = finished;
  in_handler = false;
  running = false;
  cleanup = ended;
  workers = 0;
}

before_runs : moves before first_threads ≡ some at_signal
unfolding moves move first_threads
before_runs = refl

after_runs : moves (signal ∷ after) at_signal ≡ some at_end
unfolding moves move
after_runs = refl

stop_ends_example :
    (length after ≤ moves_left (signalled at_signal))
    × ((has_returned at_end ≡ true)
        ⊎ ((m : Move) × (is_signal m ≡ false) × (is_some (move m at_end) ≡ true)))
stop_ends_example =
    stop_ends before after at_signal at_end before_runs refl refl
      (refl, (refl, (refl, (refl, (refl, (refl, (refl, (refl, (refl, tt))))))))) after_runs

-- The cleanup thread wakes up and waits for the lock.
abbrev in_lock : Threads
in_lock = record at_signal { main = registering }

abbrev stuck : Threads
stuck = record in_lock { in_handler = true; running = false; cleanup = wants_pass }

stuck_runs : moves (signal ∷ cleanup_goes 0 ∷ []) in_lock ≡ some stuck
unfolding moves move
stuck_runs = refl

stop_deadlocks_example : (stuck.main ≡ registering) × (stuck.in_handler ≡ true)
stop_deadlocks_example =
    stop_deadlocks in_lock stuck (cleanup_goes 0 ∷ []) refl refl refl stuck_runs
