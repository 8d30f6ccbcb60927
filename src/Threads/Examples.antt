-- ===== src/Threads/Examples.antt =====
-- A pool with one worker and two tasks on the heap, and runs of a pool of two workers.
use voice.Prelude.{
  inl, inr, ℕ, suc, ◌≡◌, ◌≢◌, refl, false, true, none, some, [], ◌∷◌, get_elem?, arith,
}
use voice.Prelude.Int.{pos, negsuc}
use voice.Dll.{null, write}
use voice.Dll.Chain.{node}
use voice.Threads.{ThreadPool, worker_turn}
use voice.Threads.Create.{
  started, no_thread, create_workers, pool_create, new_worker, created_pool, Created,
  pool_create-Created,
}
use voice.Threads.Tasks.{HasTasks}
use voice.Threads.Wakeups.{
  at_lock, asleep, over, busy, Worker, PoolRun, turn, push, terminate_one, terminating, broadcast,
  pool_step, CanAct, Reached, at_start, then_acts,
}
use voice.Threads.Wakeups.Heap.{TurnsAs, worker_turn-turn_of}
use voice.Threads.Wakeups.Once.{Accounted, pool_run-Accounted}
use voice.Threads.Wakeups.Turns.{waiting_task-taken, broadcast-ends, terminating_worker-ends}
use voice.Threads.Wakeups.Waits.{Fresh}

abbrev pool : ThreadPool
pool = record {
  tasks = 8;
  task_heap =
      write (write (write (λ p. none) 8 (some (node 1 16 null))) 16 (some (node 0 null 8))) 24
        (some (node 2 null null));
  workers = 4;
  worker_heap = write (λ p. none) 4 (some (node false null null));
}

pool-HasTasks : HasTasks pool ((8, 1) ∷ (16, 0) ∷ [])
pool-HasTasks = record {
  head = refl;
  chain = ((λ e. omega (arith, e)), refl, refl, ((λ e. omega (arith, e)), refl, refl, tt));
}

worker_turn_example : TurnsAs false ((8, 1) ∷ (16, 0) ∷ []) (worker_turn 4 pool)
worker_turn_example =
    worker_turn-turn_of pool 4 ((8, 1) ∷ (16, 0) ∷ []) (node false null null) pool-HasTasks
      (λ e. omega (arith, e)) refl

create_example :
    ((n : ℕ) → Created (suc n) (pool_create false (pos (suc n)) (λ i. started false)))
    × Created 1 (pool_create false (pos 0) (λ i. started false))
    × ((n : ℕ) → Created 1 (pool_create false (negsuc n) (λ i. started false)))
create_example = pool_create-Created (λ i. started false) (λ i. refl)

one_refused : pool_create false (pos 2) (λ i. no_thread) ≡ (negsuc 2, [])
unfolding pool_create create_workers
one_refused = refl

abbrev at_first : PoolRun
at_first = created_pool (new_worker false ∷ new_worker false ∷ [])

at_first-Fresh : Fresh at_first
at_first-Fresh = (refl, ((refl, refl), ((refl, refl), tt)))

-- Both workers wait, and a task is pushed.
abbrev one_slept : PoolRun
one_slept = pool_step (turn 0) at_first

abbrev both_slept : PoolRun
both_slept = pool_step (turn 1) one_slept

abbrev one_pushed : PoolRun
one_pushed = pool_step (push 5 (some 0)) both_slept

one_sleeps : Reached at_first one_slept
one_sleeps = then_acts at_first at_first (turn 0) (at_start at_first) (new_worker false, refl, refl)

task_waits : Reached at_first one_pushed
unfolding pool_step
task_waits =
    then_acts at_first both_slept (push 5 (some 0))
      (then_acts at_first one_slept (turn 1) one_sleeps (new_worker false, refl, refl))
      (refl, _, refl, refl)

waiting_task_example :
    (j : ℕ) × (v : Worker) × CanAct (turn j) one_pushed
    × (get_elem? (pool_step (turn j) one_pushed).workers j ≡ some (record v { state = busy 5 }))
    × ((pool_step (turn j) one_pushed).tasks ≡ [])
unfolding pool_step
waiting_task_example =
    waiting_task-taken at_first one_pushed 1 (record { state = asleep; terminate = false }) 5 []
      at_first-Fresh task_waits refl refl refl refl

kept_example : Accounted 5 one_pushed
kept_example = pool_run-Accounted 5 at_first one_pushed task_waits refl

-- One worker waits, and the pool is destroyed.
abbrev all_told : PoolRun
all_told = pool_step (terminate_one 1) (pool_step (terminate_one 0) one_slept)

told_all : Reached at_first (pool_step broadcast all_told)
unfolding pool_step
told_all =
    then_acts at_first all_told broadcast
      (then_acts at_first (pool_step (terminate_one 0) one_slept) (terminate_one 1)
        (then_acts at_first one_slept (terminate_one 0) one_sleeps (_, refl, inl (refl, refl)))
        (_, refl, inr refl))
      (refl, (refl, (refl, tt)))

broadcast_example :
    (at_lock ≢ asleep)
    × (get_elem? (pool_step (turn 0) (pool_step broadcast all_told)).workers 0
        ≡ some (record { state = over; terminate = true }))
    × ((pool_step (turn 0) (pool_step broadcast all_told)).tasks ≡ [])
unfolding pool_step
broadcast_example =
    broadcast-ends at_first (pool_step broadcast all_told) 0
      (record { state = at_lock; terminate = true }) at_first-Fresh told_all refl refl

freed_example :
    (t : PoolRun) × Reached at_first t
    × (t.phase ≡ terminating 2)
    × (get_elem? t.workers 1 ≡ some (record { state = over; terminate = true }))
freed_example = terminating_worker-ends at_first 1 (new_worker false) at_first-Fresh refl
