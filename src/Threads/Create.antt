-- ===== src/Threads/Create.antt =====
-- threadpool.c: the creation of a pool with its workers, by what malloc and pthread_create answer.
use voice.Prelude.{
  ℕ, zero, suc, ◌+◌, ◌<◌, ◌≡◌, refl, subst, Bool, true, false, List, [], ◌∷◌, length, All, arith,
}
use voice.Prelude.Int.{ℤ, pos, negsuc}
use voice.Threads.Wakeups.Waits.{Fresh}
use voice.Threads.Wakeups.{at_lock, Worker, pushing, PoolRun}

-- For a worker: the memory that malloc gives has `terminate` zero or not, and memset does not reach it.
pub data CreateAnswer : Type 0 where
  no_memory no_thread : CreateAnswer
  started : Bool → CreateAnswer

abbrev pub new_worker : Bool → Worker
new_worker terminate = record { state = at_lock; terminate = terminate }

-- The loop, with the list of workers, the last one first.
abbrev pub create_one :
    CreateAnswer → (List Worker → ℤ × List Worker) → List Worker → ℤ × List Worker
create_one no_memory more workers = (negsuc 1, workers)
create_one no_thread more workers = (negsuc 2, workers)
create_one (started terminate) more workers = more (new_worker terminate ∷ workers)

unfoldable pub create_workers : ℕ → (ℕ → CreateAnswer) → ℕ → List Worker → ℤ × List Worker
create_workers zero answers i workers = (pos 0, workers)
create_workers (suc n) answers i workers =
    create_one (answers i) (create_workers n answers (suc i)) workers

abbrev pub at_least_one : ℤ → ℕ
at_least_one (pos zero) = 1
at_least_one (pos (suc n)) = suc n
at_least_one (negsuc n) = 1

unfoldable pub pool_create : Bool → ℤ → (ℕ → CreateAnswer) → ℤ × List Worker
unfolding create_workers
pool_create true num_workers answers = (negsuc 0, [])
pool_create false num_workers answers = create_workers (at_least_one num_workers) answers 0 []

-- The pool when none of its workers has run.
abbrev pub created_pool : List Worker → PoolRun
created_pool workers = record {
  tasks = [];
  workers = workers;
  phase = pushing;
  pushed = [];
  ran = [];
  dropped = [];
}

-- What malloc answers with memory that is zero.
abbrev pub Zeroed : CreateAnswer → Type 0
Zeroed no_memory = Unit
Zeroed no_thread = Unit
Zeroed (started terminate) = terminate ≡ false

abbrev pub IsNew : Worker → Type 0
IsNew w = (w.state ≡ at_lock) × (w.terminate ≡ false)

-- A result of zero with so many workers, none of which has run, or a negative one with fewer.
abbrev pub Created : ℕ → ℤ × List Worker → Type 0
Created n (pos k, ws) = (k ≡ 0) × (length ws ≡ n) × Fresh (created_pool ws)
Created n (negsuc k, ws) = (length ws < n) × All IsNew ws

create_one-Created :
    (n : ℕ) (a : CreateAnswer) (more : List Worker → ℤ × List Worker) (ws : List Worker)
    → Zeroed a
    → All IsNew ws
    → ((v : Worker) → IsNew v → Created (n + length (v ∷ ws)) (more (v ∷ ws)))
    → Created (suc n + length ws) (create_one a more ws)
create_one-Created n no_memory more ws z h later = (omega arith, h)
create_one-Created n no_thread more ws z h later = (omega arith, h)
create_one-Created n (started terminate) more ws z h later =
    subst (λ (k : ℕ). Created k (more (new_worker terminate ∷ ws))) {x = n + suc (length ws)}
      {y = suc n + length ws} (omega arith) (later (new_worker terminate) (refl, z))

module _ (answers : ℕ → CreateAnswer) (zeroed : (i : ℕ) → Zeroed (answers i)) where
  create_workers-Created :
      (n i : ℕ) (ws : List Worker)
      → All IsNew ws
      → Created (n + length ws) (create_workers n answers i ws)
  unfolding create_workers
  create_workers-Created zero i ws h = (refl, omega arith, (refl, h))
  create_workers-Created (suc n) i ws h =
      create_one-Created n (answers i) (create_workers n answers (suc i)) ws (zeroed i) h
        (λ v is_new. create_workers-Created n (suc i) (v ∷ ws) (is_new, h))

  pool_create_least :
      (num_workers : ℤ) → Created (at_least_one num_workers) (pool_create false num_workers answers)
  unfolding pool_create
  pool_create_least num_workers =
      subst (λ (k : ℕ). Created k (create_workers (at_least_one num_workers) answers 0 []))
        {x = at_least_one num_workers + 0} {y = at_least_one num_workers} (omega arith)
        (create_workers-Created (at_least_one num_workers) 0 [] tt)

  -- When malloc gives memory that is zero, nThreadPoolCreate returns 0 with as many workers as it was asked
  -- for, or with one when it was asked for none or a negative number, all of them before their first turn
  -- and not told to end; or it returns a negative number, and has fewer.
  pub pool_create-Created :
      ((n : ℕ) → Created (suc n) (pool_create false (pos (suc n)) answers))
      × Created 1 (pool_create false (pos 0) answers)
      × ((n : ℕ) → Created 1 (pool_create false (negsuc n) answers))
  pool_create-Created = (
    (λ n. pool_create_least (pos (suc n))),
    pool_create_least (pos 0),
    (λ n. pool_create_least (negsuc n)),
  )
