-- ===== src/Threads/Wakeups/Heap.antt =====
-- A worker's turn on the linked lists of threadpool.c, against the turn on the list of tasks.
use voice.Prelude.{ℕ, ◌≡◌, ◌≢◌, refl, Bool, true, false, some, List, [], ◌∷◌, ==_iff}
use voice.Prelude.Run.{Run, ok}
use voice.Dll.{null, Node}
use voice.Dll.Insert.{load-some}
use voice.Threads.{ThreadPool, Turn, worker_turn}
use voice.Threads.Tasks.{HasTasks, turn_takes}
use voice.Threads.Wakeups.{turn_of, tasks_after}

abbrev pub addresses : List (ℕ × ℕ) → List ℕ
addresses [] = []
addresses ((t, d) ∷ xs) = t ∷ addresses xs

-- What a worker's turn on the lists comes to.
abbrev pub TurnsAs : Bool → List (ℕ × ℕ) → Run (Turn × ThreadPool) → Type 0
TurnsAs terminate xs r =
    (pool' : ThreadPool) × (ys : List (ℕ × ℕ)) × (r ≡ ok (turn_of terminate (addresses xs), pool'))
    × HasTasks pool' ys
    × (addresses ys ≡ tasks_after terminate (addresses xs))

-- On the linked list of the tasks, with its worker's flag read from the heap, a worker does what the turn
-- on the list of the tasks says: it ends and leaves the tasks, or waits when there is none, or takes
-- the first.
pub worker_turn-turn_of :
    (pool : ThreadPool) (worker : ℕ) (xs : List (ℕ × ℕ)) (w : Node Bool)
    → HasTasks pool xs
    → worker ≢ null
    → pool.worker_heap worker ≡ some w
    → TurnsAs w.payload xs (worker_turn worker pool)
unfolding worker_turn
worker_turn-turn_of pool worker xs w v ne at = by_flag w.payload refl xs v
  where
    by_flag :
        (b : Bool)
        → w.payload ≡ b
        → (xs : List (ℕ × ℕ)) → HasTasks pool xs
        → TurnsAs b xs (worker_turn worker pool)
    by_flag true q xs v =
        (pool, xs, rw (load-some worker w pool.worker_heap ne at, q) refl, v, refl)
    by_flag false q [] v = (
      pool,
      [],
      rw (load-some worker w pool.worker_heap ne at, q, (==_iff pool.tasks null).1 v.head) refl,
      v,
      refl,
    )
    by_flag false q ((t, d) ∷ xs) v =
        let (pool', run, v', w') = turn_takes pool worker t d xs v (ne, w, at, q) in
        (pool', xs, run, v', refl)
