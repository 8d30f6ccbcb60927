-- ===== src/Counters/Examples.antt =====
-- Two threads, two rounds each.
use voice.Prelude.{
  ℕ, zero, suc, occurrences, ◌*◌, ◌≤◌, ◌<◌, ◌≡◌, ◌≢◌, some, get_elem?, List, [], ◌∷◌, arith,
}
use voice.Counters.Atomic.{wrap, atomic_run, atomic_start, run_schedule}
use voice.Counters.Atomic.Total.{atomic_run-total}
use voice.Counters.Cas.{retrying, cas_step, cas_start}
use voice.Counters.Cas.Unchanged.{cas_step-unchanged}
use voice.Counters.Mutex.{mutex_step, mutex_start}
use voice.Counters.Mutex.Refines.{mutex_view, mutex_step-refines}

often : (k : ℕ) → k < 2 → 2 ≤ occurrences k (0 ∷ 1 ∷ 1 ∷ 0 ∷ 0 ∷ [])
often zero h = omega arith
often (suc zero) h = omega arith
often (suc (suc k)) h = omega (arith, occurrences, h)

total_example : (atomic_run 2 (0 ∷ 1 ∷ 1 ∷ 0 ∷ 0 ∷ []) (atomic_start 2)).number ≡ wrap (2 * 2)
total_example = atomic_run-total 2 2 (0 ∷ 1 ∷ 1 ∷ 0 ∷ 0 ∷ []) often

-- The second thread swaps first, and the first thread's swap does not fail.
cas_example :
    ((run_schedule (cas_step 2) (0 ∷ 1 ∷ 1 ∷ 0 ∷ 0 ∷ []) (cas_start 2)).number ≡ 0)
    × ((k j : ℕ)
        → get_elem? (run_schedule (cas_step 2) (0 ∷ 1 ∷ 1 ∷ 0 ∷ 0 ∷ []) (cas_start 2)).threads k
          ≢ some (retrying j))
cas_example = cas_step-unchanged 2 2 (0 ∷ 1 ∷ 1 ∷ 0 ∷ 0 ∷ [])

mutex_example :
    (schedule' : List ℕ) × (mutex_view
        (run_schedule (mutex_step 2) (0 ∷ 1 ∷ 0 ∷ 0 ∷ []) (mutex_start 2))
      ≡ atomic_run 2 schedule' (atomic_start 2))
mutex_example = mutex_step-refines 2 2 (0 ∷ 1 ∷ 0 ∷ 0 ∷ [])
