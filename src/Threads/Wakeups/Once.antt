-- ===== src/Threads/Wakeups/Once.antt =====
-- Where the tasks that are pushed are.
use voice.Prelude.{
  ℕ, ◌+◌, ◌≡◌, refl, ap, sym, subst, ◌∙◌, Bool, true, false, Option, none, some, List, [], ap₂, ◌∷◌,
  ◌==◌, if◌then◌else◌, get_elem?, set, map, occurrences, occurrences-append, arith,
}
use voice.Threads.Wakeups.{
  WorkerState, at_lock, asleep, over, busy, Worker, PoolRun, PoolAction, turn, finish, wake_up,
  terminate_one, push, broadcast, clear, turn_of, tasks_after, state_after, take_turn, finish_task,
  run_task, awoken, woken, wake_one, terminate_at, pool_step, CanAct, Reached, at_start, then_acts,
}
use voice.Threads.Wakeups.Total.{total, total-set}

abbrev pub holds : ℕ → WorkerState → ℕ
holds t at_lock = 0
holds t asleep = 0
holds t over = 0
holds t (busy u) = if t == u then 1 else 0

abbrev pub held_by : ℕ → List Worker → ℕ
held_by t = total (holds t)

-- A task that was pushed waits, is run by one worker, has been run, or was dropped by the destruction.
abbrev pub Accounted : ℕ → PoolRun → Type 0
Accounted t s =
    occurrences t s.pushed
    ≡ occurrences t s.tasks + held_by t s.workers + (occurrences t s.ran + occurrences t s.dropped)

module _ (t : ℕ) where
  turn_keeps :
      (b : Bool) (tasks : List ℕ)
      → occurrences t (tasks_after b tasks) + holds t (state_after (turn_of b tasks))
        ≡ occurrences t tasks
  turn_keeps true tasks = omega arith
  turn_keeps false [] = omega arith
  turn_keeps false (u ∷ tasks) = ground arith

  awoken_holds : (state : WorkerState) → holds t (awoken state) ≡ holds t state
  awoken_holds at_lock = refl
  awoken_holds asleep = refl
  awoken_holds over = refl
  awoken_holds (busy u) = refl

  woken-All : (ws : List Worker) → held_by t (map woken ws) ≡ held_by t ws
  woken-All [] = refl
  woken-All (w ∷ ws) = ap₂ (λ (m n : ℕ). m + n) (awoken_holds w.state) (woken-All ws)

  woken_one :
      (ws : List Worker) (k : ℕ) (w : Worker)
      → get_elem? ws k ≡ some w
      → held_by t (set ws k (woken w)) ≡ held_by t ws
  woken_one ws k w e =
      let moved = total-set (holds t) ws k w (woken w) e in
      let same = awoken_holds w.state in omega (arith, moved, same)

  one_more : (u : ℕ) (xs : List ℕ) → occurrences t (u ∷ xs) ≡ holds t (busy u) + occurrences t xs
  one_more u xs = ground arith

  terminated :
      (s : PoolRun) (k : ℕ) (o : Option Worker)
      → get_elem? s.workers k ≡ o
      → Accounted t s
      → Accounted t (terminate_at k o s)
  terminated s k none e h = h
  terminated s k (some w) e h =
      let moved = total-set (holds t) s.workers k w (record w { terminate = true }) e in
      omega (arith, h, moved)

  pushed_one :
      (u : ℕ) (s : PoolRun)
      → Accounted t s
      → (ws : List Worker) → held_by t ws ≡ held_by t s.workers
      → occurrences t (u ∷ s.pushed)
        ≡ occurrences t (u ∷ s.tasks)
          + held_by t ws
          + (occurrences t s.ran + occurrences t s.dropped)
  pushed_one u s h ws same =
      one_more u s.pushed
      ∙ omega (arith, h, same)
      ∙ ap (λ (n : ℕ). n + held_by t ws + (occurrences t s.ran + occurrences t s.dropped))
          (sym (one_more u s.tasks))

  pool_step-Accounted :
      (s : PoolRun) (a : PoolAction) → Accounted t s → CanAct a s → Accounted t (pool_step a s)
  unfolding pool_step
  pool_step-Accounted s (turn k) h (w, e, at) =
      let state = state_after (turn_of w.terminate s.tasks) in
      let moved = total-set (holds t) s.workers k w (record w { state = state }) e in
      let none_held = ap (holds t) at in
      let kept = turn_keeps w.terminate s.tasks in
      subst (λ (o : Option Worker). Accounted t (take_turn k o s)) (sym e)
        (omega (arith, h, moved, none_held, kept))
  pool_step-Accounted s (finish k) h (w, u, e, at) =
      let moved = total-set (holds t) s.workers k w (record w { state = at_lock }) e in
      let one_held = ap (holds t) at in
      subst (λ (o : Option Worker). Accounted t (finish_task k o s)) (sym e)
        (subst (λ (state : WorkerState). Accounted t (run_task k state w s)) (sym at)
          ((let ran = one_more u s.ran in
            subst
              (λ (n : ℕ).
                occurrences t s.pushed
                ≡ occurrences t s.tasks
                  + held_by t (set s.workers k (record w { state = at_lock }))
                  + (n + occurrences t s.dropped))
              (sym ran) (omega (arith, h, moved, one_held)))))
  pool_step-Accounted s (wake_up k) h (w, e, at) =
      let same = woken_one s.workers k w e in
      subst (λ (o : Option Worker). Accounted t (wake_one k o s)) (sym e) (omega (arith, h, same))
  pool_step-Accounted s (terminate_one k) h can = terminated s k (get_elem? s.workers k) refl h
  pool_step-Accounted s (push u none) h can = pushed_one u s h s.workers refl
  pool_step-Accounted s (push u (some k)) h (at, w, e, sleeps) =
      let same = woken_one s.workers k w e in
      subst
        (λ (o : Option Worker).
          Accounted t (wake_one k o (record s { tasks = u ∷ s.tasks; pushed = u ∷ s.pushed })))
        (sym e) (pushed_one u s h (set s.workers k (woken w)) same)
  pool_step-Accounted s broadcast h can = let same = woken-All s.workers in omega (arith, h, same)
  pool_step-Accounted s clear h can =
      let both = occurrences-append t s.tasks s.dropped in omega (arith, h, both)

  -- Every task that was pushed waits, is being run by one worker, has been run or was dropped when the pool
  -- was destroyed, as often as it was pushed.
  pub pool_run-Accounted : (s s' : PoolRun) → Reached s s' → Accounted t s → Accounted t s'
  pool_run-Accounted s _ (at_start _) h = h
  pool_run-Accounted s _ (then_acts _ s' a before can) h =
      pool_step-Accounted s' a (pool_run-Accounted s s' before h) can
