-- ===== src/Daemon/Shutdown/Deadlock.antt =====
-- The signal that arrives while the main thread holds `sessions_mutex_`.
use hy_can.Daemon.Shutdown.{
  move, registering, CleanupPlace, sleeping, wants_pass, Threads, Move, main_goes, cleanup_goes,
  joined_ends, worker_ends, signal, moves,
}
use hy_can.Base.{Option-cases, ◌≡◌, refl, inl, inr, Bool, true, false, some, List, [], ◌∷◌, arith}

-- The cleanup thread has passed the test of its loop and has not got the lock.
abbrev pub is_before_lock : CleanupPlace → Bool
is_before_lock sleeping = true
is_before_lock wants_pass = true
is_before_lock _ = false

-- The main thread is in the handler within its lock, and the cleanup thread will want that lock.
pub record IsStuck (s : Threads) : Type 0 where
  pub in_lock : s.main ≡ registering
  pub joining : s.in_handler ≡ true
  pub behind : is_before_lock s.cleanup ≡ true

move-IsStuck : (m : Move) (s t : Threads) → IsStuck s → move m s ≡ some t → IsStuck t
unfolding move
move-IsStuck (main_goes b) s t h e = ground arith
move-IsStuck (cleanup_goes k) s t h e = ground arith
move-IsStuck joined_ends s t h e = ground arith
move-IsStuck worker_ends s t h e = ground arith
move-IsStuck signal s t h e = ground arith

moves-IsStuck : (ms : List Move) (s t : Threads) → IsStuck s → moves ms s ≡ some t → IsStuck t
unfolding moves
moves-IsStuck [] s t h e = ground arith
moves-IsStuck (m ∷ ms) s t h e = elim (Option-cases (move m s)) [
  | inl waits ↦ absurd (ground arith)
  | inr (u, moved) ↦ moves-IsStuck ms u t (move-IsStuck m s u h moved) (ground arith)
]

-- A signal that arrives while the main thread registers a client, with the cleanup thread asleep or
-- before its lock, stops the daemon for ever: whatever the threads do from then on, the main thread is
-- in the handler and within its lock, so `run` does not return.
pub stop_deadlocks :
    (s t : Threads) (ms : List Move)
    → s.main ≡ registering
    → s.in_handler ≡ false
    → is_before_lock s.cleanup ≡ true
    → moves (signal ∷ ms) s ≡ some t
    → (t.main ≡ registering) × (t.in_handler ≡ true)
unfolding moves move
stop_deadlocks s t ms in_lock no_handler behind e =
    let u : Threads = record s { in_handler = true; running = false } in
    let h : IsStuck u = record { in_lock = in_lock; joining = refl; behind = behind } in
    let r = moves-IsStuck ms u t h (ground arith) in (r.in_lock, r.joining)
