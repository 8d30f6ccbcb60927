-- ===== src/Threads/Wakeups/Turns.antt =====
-- What the turn of a worker does to a pool, while tasks are pushed and after the broadcast.
use voice.Prelude.{
  ℕ, zero, suc, ◌≤◌, ◌≡◌, ◌≢◌, refl, ap, subst, ◌∙◌, ◌⊎◌, inl, inr, Bool, true, false, Option, some,
  List, [], ◌∷◌, get_elem?, All-get, get_elem?-set_self, get_elem?-set_ne, get_elem?-length, arith,
}
use voice.Threads.Wakeups.{
  WorkerState, at_lock, asleep, over, busy, Worker, MainPhase, pushing, broadcasted, PoolRun, turn,
  terminate_one, terminating, terminate_at, at_start, then_acts, turn_of, tasks_after, state_after,
  take_turn, pool_step, IsAwake, CanAct, Reached,
}
use voice.Threads.Wakeups.Waits.{
  weight, awake, Served, Unflagged, Flagged, InPhase, Fresh, pool_run-Wakes,
}

at_lock_or : (state : WorkerState) → (state ≡ at_lock) ⊎ (weight state ≡ 0)
at_lock_or at_lock = inl refl
at_lock_or asleep = inr refl
at_lock_or over = inr refl
at_lock_or (busy t) = inr refl

one_is_up :
    (ws : List Worker)
    → 1 ≤ awake ws
    → (k : ℕ) × (w : Worker) × (get_elem? ws k ≡ some w) × (w.state ≡ at_lock)
one_is_up [] h = absurd (omega (arith, h))
one_is_up (w ∷ ws) h = elim (at_lock_or w.state) [
  | inl at ↦ (0, w, refl, at)
  | inr light ↦ let (k, w', e, at) = one_is_up ws (omega (arith, h, light)) in (suc k, w', e, at)
]

-- One that tests the tasks next, when a worker sleeps and a task waits.
awake_for :
    (ws : List Worker) (k : ℕ) (w : Worker) (task : ℕ) (rest : List ℕ)
    → get_elem? ws k ≡ some w
    → w.state ≡ asleep
    → Served (task ∷ rest) ws
    → (j : ℕ) × (v : Worker) × (get_elem? ws j ≡ some v) × (v.state ≡ at_lock)
awake_for ws k w task rest e sleeps (inl none_sleeps) =
    absurd (All-get IsAwake ws k w none_sleeps e sleeps)
awake_for ws k w task rest e sleeps (inr enough) = one_is_up ws (omega (arith, enough))

pub in_phase :
    (s t : PoolRun) (p : MainPhase)
    → Fresh s
    → Reached s t
    → t.phase ≡ p
    → InPhase p t.tasks t.workers
in_phase s t p fresh comes at =
    subst (λ (p : MainPhase). InPhase p t.tasks t.workers) at (pool_run-Wakes s t fresh comes)

turn_state :
    (t : PoolRun) (k : ℕ) (w : Worker) (state : WorkerState)
    → get_elem? t.workers k ≡ some w
    → state_after (turn_of w.terminate t.tasks) ≡ state
    → get_elem? (pool_step (turn k) t).workers k ≡ some (record w { state = state })
unfolding pool_step
turn_state t k w state e q =
    ap (λ (o : Option Worker). get_elem? (take_turn k o t).workers k) e
    ∙ get_elem?-set_self t.workers k
        (record w { state = state_after (turn_of w.terminate t.tasks) })
        (get_elem?-length t.workers k w e)
    ∙ ap (λ (state : WorkerState). some (record w { state = state })) q

-- While tasks are pushed to a pool whose workers are created with `terminate` zero: when a worker sleeps and
-- a task waits, there is a worker that can take the lock, and its turn takes the first task to run it.
pub waiting_task-taken :
    (s t : PoolRun) (k : ℕ) (w : Worker) (task : ℕ) (rest : List ℕ)
    → Fresh s
    → Reached s t
    → t.phase ≡ pushing
    → get_elem? t.workers k ≡ some w
    → w.state ≡ asleep
    → t.tasks ≡ task ∷ rest
    → (j : ℕ) × (v : Worker) × CanAct (turn j) t
      × (get_elem? (pool_step (turn j) t).workers j ≡ some (record v { state = busy task }))
      × ((pool_step (turn j) t).tasks ≡ rest)
unfolding pool_step
waiting_task-taken s t k w task rest fresh comes at e sleeps waiting =
    let (unflagged, served) = in_phase s t pushing fresh comes at in
    let served' = subst (λ (tasks : List ℕ). Served tasks t.workers) waiting served in
    let (j, v, e', at') = awake_for t.workers k w task rest e sleeps served' in
    let q = All-get Unflagged t.workers j v unflagged e' in
    (
      j,
      v,
      (v, e', at'),
      turn_state t j v (busy task) e' (
          ap (λ (b : Bool). state_after (turn_of b t.tasks)) q
          ∙ ap (λ (tasks : List ℕ). state_after (turn_of false tasks)) waiting),
      ap (λ (o : Option Worker). (take_turn j o t).tasks) e'
          ∙ ap (λ (b : Bool). tasks_after b t.tasks) q
          ∙ ap (tasks_after false) waiting,
    )

-- After the broadcast no worker of such a pool sleeps, and the turn of each that can take the lock ends it
-- and takes no task.
pub broadcast-ends :
    (s t : PoolRun) (k : ℕ) (w : Worker)
    → Fresh s
    → Reached s t
    → t.phase ≡ broadcasted
    → get_elem? t.workers k ≡ some w
    → (w.state ≢ asleep)
      × (get_elem? (pool_step (turn k) t).workers k ≡ some (record w { state = over }))
      × ((pool_step (turn k) t).tasks ≡ t.tasks)
unfolding pool_step
broadcast-ends s t k w fresh comes at e =
    let (flagged, none_sleeps) = in_phase s t broadcasted fresh comes at in
    let q = All-get Flagged t.workers k w flagged e in
    (
      All-get IsAwake t.workers k w none_sleeps e,
      turn_state t k w over e (ap (λ (b : Bool). state_after (turn_of b t.tasks)) q),
      ap (λ (o : Option Worker). (take_turn k o t).tasks) e
          ∙ ap (λ (b : Bool). tasks_after b t.tasks) q,
    )

before_it :
    (ws : List Worker) (k : ℕ) (w : Worker)
    → get_elem? ws (suc k) ≡ some w
    → (v : Worker) × (get_elem? ws k ≡ some v)
before_it [] k w e = absurd (cc)
before_it (v ∷ ws) zero w e = (v, refl)
before_it (v ∷ ws) (suc k) w e = before_it ws k w e

-- The loop of nThreadPoolDestory from the head up to a worker.
comes_to :
    (s : PoolRun) (k : ℕ) (w : Worker)
    → s.phase ≡ pushing
    → get_elem? s.workers k ≡ some w
    → (t : PoolRun) × Reached s t
      × (((t.phase ≡ pushing) × (k ≡ 0)) ⊎ (t.phase ≡ terminating k))
      × ((j : ℕ) → k ≤ j → get_elem? t.workers j ≡ get_elem? s.workers j)
unfolding pool_step
comes_to s zero w pushes e = (s, at_start s, inl (pushes, refl), λ j h. refl)
comes_to s (suc k) w pushes e =
    let (v, e') = before_it s.workers k w e in
    let (t, comes, phase, same) = comes_to s k v pushes e' in
    let there = same k (omega arith) ∙ e' in
    (
      pool_step (terminate_one k) t,
      then_acts s t (terminate_one k) comes (v, there, phase),
      inr refl,
      λ j h.
          ap (λ (o : Option Worker). get_elem? (terminate_at k o t).workers j) there
          ∙ get_elem?-set_ne t.workers _ (λ q. omega (arith, h, q))
          ∙ same j (omega (arith, h)),
    )

-- For each worker of a pool whose workers are created with `terminate` zero there is an order of the threads
-- in which it ends, and so frees itself, when nThreadPoolDestory, which goes through the workers from the
-- head, has told it to and no later one: the next step of that loop reads this worker's `next`.
pub terminating_worker-ends :
    (s : PoolRun) (k : ℕ) (w : Worker)
    → Fresh s
    → get_elem? s.workers k ≡ some w
    → (t : PoolRun) × Reached s t
      × (t.phase ≡ terminating (suc k))
      × (get_elem? t.workers k ≡ some (record { state = over; terminate = true }))
unfolding pool_step
terminating_worker-ends s k w (pushes, fresh) e =
    let told : Worker = record w { terminate = true } in
    let (r, comes, phase, same) = comes_to s k w pushes e in
    let there = same k (omega arith) ∙ e in
    let t = pool_step (terminate_one k) r in
    let (at, unflagged) =
      All-get (λ (w : Worker). (w.state ≡ at_lock) × (w.terminate ≡ false)) s.workers k w fresh e in
    let told_is : get_elem? t.workers k ≡ some told =
      ap (λ (o : Option Worker). get_elem? (terminate_at k o r).workers k) there
      ∙ get_elem?-set_self r.workers k told (get_elem?-length r.workers k w there) in
    (
      pool_step (turn k) t,
      then_acts s t (turn k) (then_acts s r (terminate_one k) comes (w, there, phase))
          (told, told_is, at),
      ap (λ (o : Option Worker). (take_turn k o t).phase) told_is,
      turn_state t k told over told_is refl,
    )
