-- ===== src/Threads/Tasks.antt =====
-- The tasks of the pool as a stack.
use voice.Prelude.{
  ℕ, ◌≡◌, ◌≢◌, refl, sym, subst, ap, ◌∙◌, Bool, false, some, List, [], ◌∷◌, ==_ne, length,
}
use voice.Prelude.Run.{ok}
use voice.Dll.{null, Node, list_remove}
use voice.Dll.Chain.{first, has, IsList}
use voice.Dll.Insert.{load-some, list_insert-cons}
use voice.Dll.Remove.{list_remove-append}
use voice.Threads.{ThreadPool, Turn, runs, push_task, worker_turn, turns}

-- The tasks, the last one pushed first.
abbrev pub HasTasks : ThreadPool → List (ℕ × ℕ) → Type 0
HasTasks pool = IsList pool.task_heap pool.tasks

-- A worker that is not to end.
abbrev pub IsWorking : ℕ → ThreadPool → Type 0
IsWorking worker pool =
    (worker ≢ null) × (w : Node Bool) × (pool.worker_heap worker ≡ some w) × (w.payload ≡ false)

-- A task that is pushed, and is not in the list, is the next one to be taken.
pub push_task-cons :
    (pool : ThreadPool) (task : ℕ) (n : Node ℕ) (xs : List (ℕ × ℕ))
    → HasTasks pool xs
    → task ≢ null
    → pool.task_heap task ≡ some n
    → has task xs ≡ false
    → (pool' : ThreadPool) × (push_task task pool ≡ ok pool')
      × HasTasks pool' ((task, n.payload) ∷ xs)
unfolding push_task
push_task-cons pool task n xs v ne at_task out =
    let put = list_insert-cons pool.task_heap pool.tasks task n xs v ne at_task out in
    (record pool { tasks = task; task_heap = put.heap }, rw (put.done), put.list)

abbrev pub taken : List (ℕ × ℕ) → List Turn
taken [] = []
taken ((t, d) ∷ xs) = runs t ∷ taken xs

pub turn_takes :
    (pool : ThreadPool) (worker t d : ℕ) (xs : List (ℕ × ℕ))
    → HasTasks pool ((t, d) ∷ xs)
    → IsWorking worker pool
    → (pool' : ThreadPool) × (worker_turn worker pool ≡ ok (runs t, pool'))
      × HasTasks pool' xs
      × IsWorking worker pool'
unfolding worker_turn
turn_takes pool worker t d xs v w =
    let rm = list_remove-append pool.task_heap pool.tasks t d [] xs v in
    let left : ThreadPool = record pool { tasks = first null xs; task_heap = rm.heap } in
    let removed : list_remove pool.tasks pool.tasks pool.task_heap ≡ ok (first null xs, rm.heap) =
      subst (λ (a : ℕ). list_remove a pool.tasks pool.task_heap ≡ ok (first null xs, rm.heap))
        (sym v.head) rm.done in
    let some_task : pool.tasks ≢ null = λ e. v.chain.0 (sym v.head ∙ e) in
    (
      left,
      rw
          (
            load-some worker w.1 pool.worker_heap w.0 w.2,
            w.3,
            ==_ne pool.tasks null some_task,
            removed,
          )
          (ap (λ (a : ℕ). ok (runs a, left)) v.head),
      rm.list,
      w,
    )

-- A worker that is not told to end takes every task once, the last one pushed first, and leaves none.
pub turns-takes_all :
    (pool : ThreadPool) (worker : ℕ) (xs : List (ℕ × ℕ))
    → HasTasks pool xs
    → IsWorking worker pool
    → (pool' : ThreadPool) × (turns (length xs) worker pool ≡ ok (taken xs, pool'))
      × HasTasks pool' []
unfolding turns
turns-takes_all pool worker [] v w = (pool, refl, v)
turns-takes_all pool worker ((t, d) ∷ xs) v w =
    let (pool', one, v', w') = turn_takes pool worker t d xs v w in
    let (pool'', more, v'') = turns-takes_all pool' worker xs v' w' in (pool'', rw (one, more), v'')
