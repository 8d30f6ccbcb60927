-- ===== src/Threads/Wakeups/Waits.antt =====
-- Which workers sleep while tasks wait.
use voice.Prelude.{
  ℕ, ◌+◌, ◌≤◌, ◌≡◌, ◌≢◌, ap, sym, subst, ◌⊎◌, inl, inr, Bool, true, false, Option, none, some, List,
  [], ◌∷◌, length, get_elem?, set, map, All, All-set, All-get, arith,
}
use voice.Threads.Wakeups.Total.{total, total-set}
use voice.Threads.Wakeups.{
  WorkerState, at_lock, asleep, over, busy, Worker, MainPhase, pushing, terminating, broadcasted,
  PoolRun, PoolAction, turn, finish, wake_up, terminate_one, push, broadcast, clear, turn_of,
  tasks_after, state_after, take_turn, finish_task, awoken, woken, wake_one, run_task, pool_step,
  IsAwake, CanAct, Reached, at_start, then_acts,
}

abbrev pub weight : WorkerState → ℕ
weight at_lock = 1
weight asleep = 0
weight over = 0
weight (busy t) = 0

-- The workers that test the tasks next.
abbrev pub awake : List Worker → ℕ
awake = total weight

awake-set :
    (ws : List Worker) (k : ℕ) (w w' : Worker)
    → get_elem? ws k ≡ some w
    → awake (set ws k w') + weight w.state ≡ awake ws + weight w'.state
awake-set = total-set weight

-- No wake-up is lost: none sleeps, or the workers that test the tasks next are enough for them.
abbrev pub Served : List ℕ → List Worker → Type 0
Served tasks ws = All IsAwake ws ⊎ (length tasks ≤ awake ws)

abbrev pub Unflagged : Worker → Type 0
Unflagged w = w.terminate ≡ false

abbrev pub Flagged : Worker → Type 0
Flagged w = w.terminate ≡ true

abbrev pub InPhase : MainPhase → List ℕ → List Worker → Type 0
InPhase pushing tasks ws = All Unflagged ws × Served tasks ws
InPhase (terminating n) tasks ws = Unit
InPhase broadcasted tasks ws = All Flagged ws × All IsAwake ws

-- What holds of a pool at any time: while tasks are pushed no worker is told to end and no wake-up is
-- lost; after the broadcast all are told and none sleeps.
abbrev pub Wakes : PoolRun → Type 0
Wakes s = InPhase s.phase s.tasks s.workers

-- A worker's turn.
turn_unflagged :
    (tasks : List ℕ) (ws : List Worker) (k : ℕ) (w : Worker)
    → get_elem? ws k ≡ some w
    → w.state ≡ at_lock
    → w.terminate ≡ false
    → Served tasks ws
    → Served
        (tasks_after false tasks)
        (set ws k (record w { state = state_after (turn_of false tasks) }))
turn_unflagged [] ws k w e at q served = inr (omega arith)
turn_unflagged (t ∷ tasks) ws k w e at q (inl none_sleeps) =
    inl (All-set IsAwake ws k _ none_sleeps (λ r. cc))
turn_unflagged (t ∷ tasks) ws k w e at q (inr enough) =
    let moved = awake-set ws k w (record w { state = busy t }) e in
    let one = ap weight at in inr (omega (arith, enough, moved, one))

turn-InPhase :
    (phase : MainPhase) (tasks : List ℕ) (ws : List Worker) (k : ℕ) (w : Worker)
    → get_elem? ws k ≡ some w
    → w.state ≡ at_lock
    → InPhase phase tasks ws
    → InPhase phase
        (tasks_after w.terminate tasks)
        (set ws k (record w { state = state_after (turn_of w.terminate tasks) }))
turn-InPhase pushing tasks ws k w e at (unflagged, served) =
    let q = All-get Unflagged ws k w unflagged e in
    (
      All-set Unflagged ws k _ unflagged q,
      subst
          (λ (b : Bool).
            Served (tasks_after b tasks)
              (set ws k (record w { state = state_after (turn_of b tasks) })))
          (sym q) (turn_unflagged tasks ws k w e at q served),
    )
turn-InPhase (terminating n) tasks ws k w e at h = tt
turn-InPhase broadcasted tasks ws k w e at (flagged, none_sleeps) =
    let q = All-get Flagged ws k w flagged e in
    (
      All-set Flagged ws k _ flagged q,
      All-set IsAwake ws k _ none_sleeps
          (subst (λ (b : Bool). state_after (turn_of b tasks) ≢ asleep) (sym q) (λ r. cc)),
    )

-- A worker that was not to test the tasks next, and now is.
rises :
    (phase : MainPhase) (tasks : List ℕ) (ws : List Worker) (k : ℕ) (w : Worker)
    → get_elem? ws k ≡ some w
    → weight w.state ≡ 0
    → InPhase phase tasks ws
    → InPhase phase tasks (set ws k (record w { state = at_lock }))
rises pushing tasks ws k w e light (unflagged, inl none_sleeps) = (
  All-set Unflagged ws k _ unflagged (All-get Unflagged ws k w unflagged e),
  inl (All-set IsAwake ws k _ none_sleeps (λ r. cc)),
)
rises pushing tasks ws k w e light (unflagged, inr enough) =
    let moved = awake-set ws k w (record w { state = at_lock }) e in
    (
      All-set Unflagged ws k _ unflagged (All-get Unflagged ws k w unflagged e),
      inr (omega (arith, enough, moved, light)),
    )
rises (terminating n) tasks ws k w e light h = tt
rises broadcasted tasks ws k w e light (flagged, none_sleeps) = (
  All-set Flagged ws k _ flagged (All-get Flagged ws k w flagged e),
  All-set IsAwake ws k _ none_sleeps (λ r. cc),
)

-- The signal of a push wakes a worker for the task.
push_wakes :
    (t : ℕ) (tasks : List ℕ) (ws : List Worker) (k : ℕ) (w : Worker)
    → get_elem? ws k ≡ some w
    → w.state ≡ asleep
    → InPhase pushing tasks ws
    → InPhase pushing (t ∷ tasks) (set ws k (record w { state = at_lock }))
push_wakes t tasks ws k w e at (unflagged, inl none_sleeps) =
    absurd (All-get IsAwake ws k w none_sleeps e at)
push_wakes t tasks ws k w e at (unflagged, inr enough) =
    let moved = awake-set ws k w (record w { state = at_lock }) e in
    let none = ap weight at in
    (
      All-set Unflagged ws k _ unflagged (All-get Unflagged ws k w unflagged e),
      inr (omega (arith, enough, moved, none)),
    )

awoken_awake : (state : WorkerState) → awoken state ≢ asleep
awoken_awake at_lock = λ q. cc
awoken_awake asleep = λ q. cc
awoken_awake over = λ q. cc
awoken_awake (busy t) = λ q. cc

woken-All :
    (ws : List Worker) → All Flagged ws → All Flagged (map woken ws) × All IsAwake (map woken ws)
woken-All [] h = (tt, tt)
woken-All (w ∷ ws) h = let (f, a) = woken-All ws h.1 in ((h.0, f), (awoken_awake w.state, a))

pool_step-Wakes : (s : PoolRun) (a : PoolAction) → Wakes s → CanAct a s → Wakes (pool_step a s)
unfolding pool_step
pool_step-Wakes s (turn k) h (w, e, at) =
    subst (λ (o : Option Worker). Wakes (take_turn k o s)) (sym e)
      (turn-InPhase s.phase s.tasks s.workers k w e at h)
pool_step-Wakes s (finish k) h (w, t, e, at) =
    subst (λ (o : Option Worker). Wakes (finish_task k o s)) (sym e)
      (subst (λ (state : WorkerState). Wakes (run_task k state w s)) (sym at)
        (rises s.phase s.tasks s.workers k w e (ap weight at) h))
pool_step-Wakes s (wake_up k) h (w, e, at) =
    subst (λ (o : Option Worker). Wakes (wake_one k o s)) (sym e)
      (subst
        (λ (state : WorkerState).
          InPhase s.phase s.tasks (set s.workers k (record w { state = state })))
        (sym (ap awoken at)) (rises s.phase s.tasks s.workers k w e (ap weight at) h))
pool_step-Wakes s (terminate_one k) h can = tt
pool_step-Wakes s (push t none) h (at, none_sleeps) =
    let h' = subst (λ (p : MainPhase). InPhase p s.tasks s.workers) at h in
    subst (λ (p : MainPhase). InPhase p (t ∷ s.tasks) s.workers) (sym at) (h'.0, inl none_sleeps)
pool_step-Wakes s (push t (some k)) h (at, w, e, sleeps) =
    let h' = subst (λ (p : MainPhase). InPhase p s.tasks s.workers) at h in
    subst
      (λ (o : Option Worker).
        Wakes (wake_one k o (record s { tasks = t ∷ s.tasks; pushed = t ∷ s.pushed })))
      (sym e)
      (subst
        (λ (state : WorkerState).
          InPhase s.phase (t ∷ s.tasks) (set s.workers k (record w { state = state })))
        (sym (ap awoken sleeps))
        (subst
          (λ (p : MainPhase).
            InPhase p (t ∷ s.tasks) (set s.workers k (record w { state = at_lock })))
          (sym at) (push_wakes t s.tasks s.workers k w e sleeps h')))
pool_step-Wakes s broadcast h (at, flagged) = woken-All s.workers flagged
pool_step-Wakes s clear h at =
    let h' = subst (λ (p : MainPhase). InPhase p s.tasks s.workers) at h in
    subst (λ (p : MainPhase). InPhase p [] s.workers) (sym at) h'

-- What a pool is when its workers have been created and none has run.
abbrev pub Fresh : PoolRun → Type 0
Fresh s =
    (s.phase ≡ pushing)
    × All (λ (w : Worker). (w.state ≡ at_lock) × (w.terminate ≡ false)) s.workers

fresh-Unflagged :
    (ws : List Worker)
    → All (λ (w : Worker). (w.state ≡ at_lock) × (w.terminate ≡ false)) ws
    → All Unflagged ws × All IsAwake ws
fresh-Unflagged [] h = (tt, tt)
fresh-Unflagged (w ∷ ws) h =
    let (u, a) = fresh-Unflagged ws h.1 in
    ((h.0.1, u), (subst (λ (state : WorkerState). state ≢ asleep) (sym h.0.0) (λ q. cc), a))

Fresh-Wakes : (s : PoolRun) → Fresh s → Wakes s
Fresh-Wakes s (at, fresh) =
    let (u, a) = fresh-Unflagged s.workers fresh in
    subst (λ (p : MainPhase). InPhase p s.tasks s.workers) (sym at) (u, inl a)

-- At any time of a pool whose workers are created with `terminate` zero: while tasks are pushed, no worker
-- is told to end, and none sleeps or those that test the tasks next are enough for the tasks; after the
-- broadcast all are told to end and none sleeps.
pub pool_run-Wakes : (s t : PoolRun) → Fresh s → Reached s t → Wakes t
pool_run-Wakes s _ fresh (at_start _) = Fresh-Wakes s fresh
pool_run-Wakes s _ fresh (then_acts _ t a before can) =
    pool_step-Wakes t a (pool_run-Wakes s t fresh before) can
