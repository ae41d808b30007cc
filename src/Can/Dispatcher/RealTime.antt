-- ===== src/Can/Dispatcher/RealTime.antt =====
-- What the reaper of src/Interface/Dispatcher.cpp asks the system for before its loop, and the core
-- that the constructor chooses for it. The results of the requests are not looked at.
use hy_can.Util.Error.{
  ErrorCode, memory_lock_error, thread_real_time_error, cpu_affinity_error, error, Expected, ok,
  unexpected,
}
use hy_can.Base.{
  ap, ◌∙◌, arith, Text, text, ℤ, is_zero, ◌==◌, if◌then◌else◌, ℕ, zero, suc, ◌+◌, ◌%◌, ◌≤◌, ◌≡◌,
  refl, Bool, Option, none, some, List, [], ◌∷◌, ◌++◌,
}
use native.Mathlib.Nat.{mod-eq_of_lt}

-- The calls of the system, each with its result.
pub record Scheduler : Type 1 where
  pub World : Type 0
  -- `mlockall(MCL_CURRENT | MCL_FUTURE)`
  pub mlockall : World → ℤ × World
  -- `pthread_setschedparam(pthread_self(), SCHED_FIFO, …)` with the priority, and
  -- `pthread_setaffinity_np` with the set of this core alone.
  pub set_fifo : ℕ → World → ℤ × World
  pub set_affinity : ℕ → World → ℤ × World
  pub geteuid : World → ℕ
  pub errno : World → ℕ
  pub strerror : ℕ → Text

module _ (S : Scheduler) where
  -- `if (f(…) != 0) return unexpected(…); return {};`
  expect_zero : ErrorCode → Text → ℤ × S.World → Expected (Unit {0}) × S.World
  expect_zero code message (result, w) =
      if is_zero result
      then (ok tt, w)
      else (unexpected (error code (message ++ S.strerror (S.errno w))), w)

  unfoldable pub lock_memory : S.World → Expected (Unit {0}) × S.World
  unfolding expect_zero
  lock_memory w = expect_zero memory_lock_error (text "Failed to lock memory: ") (S.mlockall w)

  unfoldable pub make_real_time : S.World → Expected (Unit {0}) × S.World
  unfolding expect_zero
  make_real_time w =
      expect_zero thread_real_time_error (text "Failed to make thread real time: ")
        (S.set_fifo 80 w)

  unfoldable pub affinize_cpu : ℕ → S.World → Expected (Unit {0}) × S.World
  unfolding expect_zero
  affinize_cpu cpu w =
      expect_zero cpu_affinity_error (text "Failed to set cpu affinity: ") (S.set_affinity cpu w)

  abbrev pub has_root_privileges : S.World → Bool
  has_root_privileges w = S.geteuid w == 0

  -- The lines of `reap_process` in front of its loop.
  unfoldable pub prepare_reaper : ℕ → S.World → S.World
  prepare_reaper cpu_core w =
      let w' = (affinize_cpu cpu_core (make_real_time w).1).1 in
      if has_root_privileges w' then (lock_memory w').1 else w'

-- The constructor's choice, with the `thread_counter` of eight bits: the core, and the counter after it.
unfoldable pub choose_core : Option ℕ → ℕ → ℕ → ℕ × ℕ
choose_core (some core) nprocs counter = (core, counter)
choose_core none nprocs counter = (counter % nprocs % 256, (counter + 1) % 256)

-- The cores of so many dispatchers that are constructed one after the other without a wish.
unfoldable pub cores : ℕ → ℕ → ℕ → List ℕ
cores zero nprocs counter = []
cores (suc k) nprocs counter = let r = choose_core none nprocs counter in r.0 ∷ cores k nprocs r.1

-- The cores from the first to the one before the last.
unfoldable pub range : ℕ → ℕ → List ℕ
range zero first = []
range (suc k) first = first ∷ range k (first + 1)

-- The counter wraps only behind the last of them.
cores-wrapped :
    (k nprocs counter : ℕ)
    → counter + 1 + k ≤ 256
    → cores k nprocs ((counter + 1) % 256) ≡ cores k nprocs (counter + 1)
unfolding cores
cores-wrapped zero nprocs counter h = refl
cores-wrapped (suc k) nprocs counter h = ap (cores (suc k) nprocs) (mod-eq_of_lt (omega (arith, h)))

cores_from :
    (k nprocs counter : ℕ)
    → counter + k ≤ nprocs
    → nprocs ≤ 256
    → cores k nprocs counter ≡ range k counter
unfolding cores range choose_core
cores_from zero nprocs counter h few = refl
cores_from (suc k) nprocs counter h few =
    let core : counter % nprocs % 256 ≡ counter =
      ap (λ c. c % 256) (mod-eq_of_lt (omega (arith, h))) ∙ mod-eq_of_lt (omega (arith, h, few)) in
    let rest =
      cores-wrapped k nprocs counter (omega (arith, h, few))
      ∙ cores_from k nprocs (counter + 1) (omega (arith, h)) few in
    λ i. core i ∷ rest i

-- On a machine of at most 256 processors, the first dispatchers of a process are spread over them: as
-- many as there are processors get the cores from 0 on, one each.
pub cores_lem : (k nprocs : ℕ) → k ≤ nprocs → nprocs ≤ 256 → cores k nprocs 0 ≡ range k 0
cores_lem k nprocs h few = cores_from k nprocs 0 (omega (arith, h)) few
