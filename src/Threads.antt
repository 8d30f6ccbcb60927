-- ===== src/Threads.antt =====
-- threadpool.c: the task list, the workers' list and what a worker does between two locks. A task's
-- payload is its user_data, a worker's its `terminate`.
pub mod Create
pub mod Tasks
pub mod Wakeups
mod Examples
use voice.Prelude.{ℕ, zero, suc, ◌+◌, Bool, true, false, some, List, [], ◌∷◌, ◌==◌, if◌then◌else◌}
use voice.Prelude.Int.{ℤ, pos, negsuc}
use voice.Prelude.Run.{Run, ok, fault, out_of_fuel, ◌>>=◌}
use voice.Dll.{null, Node, Heap, write, load, list_insert, list_remove}
use voice.Dll.Chain.{node}

pub record ThreadPool : Type 0 where
  pub tasks : ℕ
  pub task_heap : Heap ℕ
  pub workers : ℕ
  pub worker_heap : Heap Bool

-- A worker that holds the lock waits, ends, or takes a task to run.
pub data Turn : Type 0 where
  waits ends : Turn
  runs : ℕ → Turn

unfoldable pub push_task : ℕ → ThreadPool → Run ThreadPool
push_task task pool = do
  (head, h) ← list_insert task pool.tasks pool.task_heap
  ok (record pool { tasks = head; task_heap = h })

unfoldable pub worker_turn : ℕ → ThreadPool → Run (Turn × ThreadPool)
worker_turn worker pool = load worker pool.worker_heap >>= λ w.
    if w.payload
    then ok (ends, pool)
    else if pool.tasks == null
    then ok (waits, pool)
    else (list_remove pool.tasks pool.tasks pool.task_heap >>= λ (head, h).
        ok (runs pool.tasks, record pool { tasks = head; task_heap = h }))

-- The loop over the workers.
unfoldable pub terminate_all : ℕ → ℕ → Heap Bool → Run (Heap Bool)
terminate_all zero worker h = out_of_fuel
terminate_all (suc fuel) worker h = elim (worker == null) [
  | true ↦ ok h
  | false ↦ load worker h >>= λ w.
      terminate_all fuel w.next (write h worker (some (record w { payload = true })))
]

unfoldable pub pool_destroy : ℕ → ThreadPool → Run (ℤ × ThreadPool)
unfolding terminate_all
pool_destroy fuel pool = do
  h ← terminate_all fuel pool.workers pool.worker_heap
  ok (pos 0, record pool { tasks = null; workers = null; worker_heap = h })

-- The turns of a worker, as many as given.
unfoldable pub turns : ℕ → ℕ → ThreadPool → Run (List Turn × ThreadPool)
unfolding worker_turn
turns zero worker pool = ok ([], pool)
turns (suc n) worker pool = worker_turn worker pool >>= λ (t, pool').
    turns n worker pool' >>= λ (ts, pool''). ok (t ∷ ts, pool'')
