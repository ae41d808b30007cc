-- ===== src/Daemon/Shutdown/Ending.antt =====
-- The signal that arrives while the main thread does not hold `sessions_mutex_`.
use hy_can.Daemon.Shutdown.{
  move, MainPlace, polling, wants_lock, registering, wants_end, ending, finished, CleanupPlace,
  at_test, sleeping, wants_pass, ended, passing, Threads, first_threads, main_holds, cleanup_holds,
  Move, main_goes, cleanup_goes, joined_ends, worker_ends, signal, moves,
}
use hy_can.Base.{
  is_some, All, length, if◌then◌else◌, Bool-cases, Option-cases, ℕ, suc, ◌+◌, ◌≤◌, ◌<◌, ◌≡◌, refl,
  ◌⊎◌, inl, inr, Bool, true, false, not, ◌&&◌, ◌||◌, some, List, [], ◌∷◌, arith,
}

abbrev pub is_ended : CleanupPlace → Bool
is_ended ended = true
is_ended _ = false

-- The main thread has left the loop of `run`.
abbrev pub is_late : MainPlace → Bool
is_late wants_end = true
is_late ending = true
is_late finished = true
is_late _ = false

abbrev pub is_registering : MainPlace → Bool
is_registering registering = true
is_registering _ = false

abbrev pub is_signal : Move → Bool
is_signal signal = true
is_signal _ = false

-- What holds of the threads in every run.
pub record IsConsistent (s : Threads) : Type 0 where
  -- `stop` returns after the cleanup thread has ended.
  pub joined : (s.running || (s.in_handler || is_ended s.cleanup)) ≡ true
  pub left : (not (is_late s.main) || (not s.running && is_ended s.cleanup)) ≡ true
  -- One thread at most holds the lock.
  pub locked_once : (main_holds s.main && cleanup_holds s.cleanup) ≡ false

move-IsConsistent : (m : Move) (s t : Threads) → IsConsistent s → move m s ≡ some t → IsConsistent t
unfolding move
move-IsConsistent (main_goes b) s t h e = ground arith
move-IsConsistent (cleanup_goes k) s t h e = ground arith
move-IsConsistent joined_ends s t h e = ground arith
move-IsConsistent worker_ends s t h e = ground arith
move-IsConsistent signal s t h e = ground arith

pub moves-IsConsistent :
    (ms : List Move) (s t : Threads) → IsConsistent s → moves ms s ≡ some t → IsConsistent t
unfolding moves
moves-IsConsistent [] s t h e = ground arith
moves-IsConsistent (m ∷ ms) s t h e = elim (Option-cases (move m s)) [
  | inl waits ↦ absurd (ground arith)
  | inr (u, moved) ↦ moves-IsConsistent ms u t (move-IsConsistent m s u h moved) (ground arith)
]

-- How far the threads are from the return of `run`, once `running_` is false.
abbrev main_rank : MainPlace → ℕ
main_rank wants_lock = 6
main_rank registering = 5
main_rank polling = 3
main_rank wants_end = 2
main_rank ending = 1
main_rank finished = 0

abbrev cleanup_rank : CleanupPlace → ℕ
cleanup_rank sleeping = 4
cleanup_rank wants_pass = 3
cleanup_rank (passing k) = 2 + k
cleanup_rank at_test = 1
cleanup_rank ended = 0

abbrev pub moves_left : Threads → ℕ
moves_left s =
    main_rank s.main + cleanup_rank s.cleanup + s.workers + (if s.in_handler then 1 else 0)

-- `stop` was called, and the main thread is not in its handler within the lock.
pub record IsStopping (s : Threads) : Type 0 where
  pub consistent : IsConsistent s
  pub stopped : s.running ≡ false
  pub can_join : (s.in_handler && is_registering s.main) ≡ false

move-IsStopping :
    (m : Move) (s t : Threads)
    → IsStopping s
    → is_signal m ≡ false
    → move m s ≡ some t
    → IsStopping t × (moves_left t < moves_left s)
unfolding move
move-IsStopping (main_goes b) s t h no_signal e = ground arith
move-IsStopping (cleanup_goes k) s t h no_signal e = ground arith
move-IsStopping joined_ends s t h no_signal e = ground arith
move-IsStopping worker_ends s t h no_signal e = ground arith
move-IsStopping signal s t h no_signal e = absurd (ground arith)

moves-IsStopping :
    (ms : List Move) (s t : Threads)
    → IsStopping s
    → All (λ m. is_signal m ≡ false) ms
    → moves ms s ≡ some t
    → IsStopping t × (length ms + moves_left t ≤ moves_left s)
unfolding moves
moves-IsStopping [] s t h no_signals e = (ground arith, ground arith)
moves-IsStopping (m ∷ ms) s t h no_signals e = elim (Option-cases (move m s)) [
  | inl waits ↦ absurd (ground arith)
  | inr (u, moved) ↦
      let one = move-IsStopping m s u h no_signals.0 moved in
      let rest = moves-IsStopping ms u t one.0 no_signals.1 (ground arith) in
      (rest.0, omega (arith, one.1, rest.1))
]

-- A thread that can go on: the cleanup thread until it has ended, then the main thread, and a worker
-- that it has to join.
abbrev next_move : MainPlace → CleanupPlace → ℕ → Move
next_move p (passing (suc k)) w = joined_ends
next_move ending ended (suc w) = worker_ends
next_move p ended w = main_goes false
next_move p c w = cleanup_goes 0

abbrev is_finished : MainPlace → Bool
is_finished finished = true
is_finished _ = false

-- `run` has returned, and no handler runs.
abbrev pub has_returned : Threads → Bool
has_returned s = is_finished s.main && not s.in_handler

progress :
    (s : Threads)
    → IsStopping s
    → (is_signal (next_move s.main s.cleanup s.workers) ≡ false)
      × ((has_returned s || is_some (move (next_move s.main s.cleanup s.workers) s)) ≡ true)
unfolding move
progress s h = ground arith

first_threads-IsConsistent : IsConsistent first_threads
unfolding first_threads
first_threads-IsConsistent = record { joined = refl; left = refl; locked_once = refl }

-- The state in which the handler stands at its join.
abbrev pub signalled : Threads → Threads
signalled s = record s { in_handler = true; running = false }

-- In every run of the daemon: when the signal finds the main thread out of the handler and of its
-- lock, the daemon stops, however the threads are scheduled. From the signal on they can make so many
-- moves and no more, and as long as `run` has not returned, one of them can move.
pub stop_ends :
    (before ms : List Move) (s t : Threads)
    → moves before first_threads ≡ some s
    → s.in_handler ≡ false
    → is_registering s.main ≡ false
    → All (λ m. is_signal m ≡ false) ms
    → moves (signal ∷ ms) s ≡ some t
    → (length ms ≤ moves_left (signalled s))
      × ((has_returned t ≡ true)
          ⊎ ((m : Move) × (is_signal m ≡ false) × (is_some (move m t) ≡ true)))
unfolding moves move
stop_ends before ms s t ran no_handler no_lock no_signals e =
    let u : Threads = signalled s in
    let c = moves-IsConsistent before first_threads s first_threads-IsConsistent ran in
    let h : IsStopping u = record {
      consistent = ground arith;
      stopped = refl;
      can_join = no_lock;
    } in
    let r = moves-IsStopping ms u t h no_signals (ground arith) in
    let p = progress t r.0 in
    (
      omega (arith, r.1),
      elim (Bool-cases (has_returned t)) [
        | inl done ↦ inl done
        | inr more ↦ inr (next_move t.main t.cleanup t.workers, p.0, ground (arith, p.1, more))
      ],
    )
