-- ===== src/Threads/Wakeups.antt =====
-- threadpool.c's threads: the workers, the program that pushes tasks and destroys the pool, the lock and the
-- condition variable. What a worker does with the lock held is one action.
pub mod Heap
pub mod Total
pub mod Turns
pub mod Waits
pub mod Once
use voice.Prelude.{
  ℕ, zero, suc, ◌≡◌, ◌≢◌, ◌⊎◌, length, Bool, true, false, Option, none, some, List, [], ◌∷◌, ◌++◌,
  get_elem?, set, map, All,
}
use voice.Threads.{Turn, waits, ends, runs}

-- `at_lock` is at the top of the loop, or woken within pthread_cond_wait: it tests the tasks next.
pub data WorkerState : Type 0 where
  at_lock asleep over : WorkerState
  busy : ℕ → WorkerState

pub record Worker : Type 0 where
  pub state : WorkerState
  pub terminate : Bool

-- `terminating` has the worker, counted from the head of the list, that the loop of nThreadPoolDestory
-- comes to next.
pub data MainPhase : Type 0 where
  pushing broadcasted : MainPhase
  terminating : ℕ → MainPhase

-- `pushed`, `ran` and `dropped` are histories.
pub record PoolRun : Type 0 where
  pub tasks : List ℕ
  pub workers : List Worker
  pub phase : MainPhase
  pub pushed : List ℕ
  pub ran : List ℕ
  pub dropped : List ℕ

pub data PoolAction : Type 0 where
  turn finish wake_up terminate_one : ℕ → PoolAction
  push : ℕ → Option ℕ → PoolAction
  broadcast clear : PoolAction

-- The body of the loop under the lock.
abbrev pub turn_of : Bool → List ℕ → Turn
turn_of true tasks = ends
turn_of false [] = waits
turn_of false (t ∷ tasks) = runs t

abbrev pub tasks_after : Bool → List ℕ → List ℕ
tasks_after true tasks = tasks
tasks_after false [] = []
tasks_after false (t ∷ tasks) = tasks

abbrev pub state_after : Turn → WorkerState
state_after waits = asleep
state_after ends = over
state_after (runs t) = busy t

abbrev pub put_state : ℕ → WorkerState → Worker → PoolRun → PoolRun
put_state k state w s = record s { workers = set s.workers k (record w { state = state }) }

abbrev pub take_turn : ℕ → Option Worker → PoolRun → PoolRun
take_turn k none s = s
take_turn k (some w) s = record (put_state k (state_after (turn_of w.terminate s.tasks)) w s) {
  tasks = tasks_after w.terminate s.tasks;
}

abbrev pub run_task : ℕ → WorkerState → Worker → PoolRun → PoolRun
run_task k (busy t) w s = record (put_state k at_lock w s) { ran = t ∷ s.ran }
run_task k at_lock w s = s
run_task k asleep w s = s
run_task k over w s = s

abbrev pub finish_task : ℕ → Option Worker → PoolRun → PoolRun
finish_task k none s = s
finish_task k (some w) s = run_task k w.state w s

abbrev pub awoken : WorkerState → WorkerState
awoken at_lock = at_lock
awoken asleep = at_lock
awoken over = over
awoken (busy t) = busy t

abbrev pub woken : Worker → Worker
woken w = record w { state = awoken w.state }

abbrev pub wake_one : ℕ → Option Worker → PoolRun → PoolRun
wake_one k none s = s
wake_one k (some w) s = record s { workers = set s.workers k (woken w) }

abbrev pub wake_signalled : Option ℕ → PoolRun → PoolRun
wake_signalled none s = s
wake_signalled (some k) s = wake_one k (get_elem? s.workers k) s

abbrev pub terminate_at : ℕ → Option Worker → PoolRun → PoolRun
terminate_at k none s = s
terminate_at k (some w) s = record s { workers = set s.workers k (record w { terminate = true }) }

-- `turn` to `wake_up` are of a worker; nThreadPoolPushTask is `push`, with the worker that the signal
-- wakes, and nThreadPoolDestory is `terminate_one` for each worker, `broadcast` and `clear`.
unfoldable pub pool_step : PoolAction → PoolRun → PoolRun
pool_step (turn k) s = take_turn k (get_elem? s.workers k) s
pool_step (finish k) s = finish_task k (get_elem? s.workers k) s
pool_step (wake_up k) s = wake_one k (get_elem? s.workers k) s
pool_step (terminate_one k) s = record (terminate_at k (get_elem? s.workers k) s) {
  phase = terminating (suc k);
}
pool_step (push t signalled) s =
    wake_signalled signalled (record s { tasks = t ∷ s.tasks; pushed = t ∷ s.pushed })
pool_step broadcast s = record s { workers = map woken s.workers; phase = broadcasted }
pool_step clear s = record s { tasks = []; dropped = s.tasks ++ s.dropped }

abbrev pub IsAwake : Worker → Type 0
IsAwake w = w.state ≢ asleep

-- What a thread can do: pthread_cond_signal wakes a worker if one sleeps, and a sleeper can also wake by
-- itself; nThreadPoolDestory tells the workers to end in the order of the list, and then broadcasts.
abbrev pub CanAct : PoolAction → PoolRun → Type 0
CanAct (turn k) s = (w : Worker) × (get_elem? s.workers k ≡ some w) × (w.state ≡ at_lock)
CanAct (finish k) s = (w : Worker) × (t : ℕ) × (get_elem? s.workers k ≡ some w) × (w.state ≡ busy t)
CanAct (wake_up k) s = (w : Worker) × (get_elem? s.workers k ≡ some w) × (w.state ≡ asleep)
CanAct (terminate_one k) s =
    (w : Worker) × (get_elem? s.workers k ≡ some w)
    × (((s.phase ≡ pushing) × (k ≡ 0)) ⊎ (s.phase ≡ terminating k))
CanAct (push t none) s = (s.phase ≡ pushing) × All IsAwake s.workers
CanAct (push t (some k)) s =
    (s.phase ≡ pushing) × (w : Worker) × (get_elem? s.workers k ≡ some w) × (w.state ≡ asleep)
CanAct broadcast s =
    (s.phase ≡ terminating (length s.workers)) × All (λ (w : Worker). w.terminate ≡ true) s.workers
CanAct clear s = s.phase ≡ broadcasted

-- The states that a pool can come to.
pub data Reached : PoolRun → PoolRun → Type 0 where
  at_start : (s : PoolRun) → Reached s s
  then_acts :
      (s t : PoolRun) (a : PoolAction) → Reached s t → CanAct a t → Reached s (pool_step a t)
