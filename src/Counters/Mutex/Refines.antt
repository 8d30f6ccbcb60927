-- ===== src/Counters/Mutex/Refines.antt =====
-- That the lock keeps the threads apart, and no addition is lost.
use voice.Prelude.{
  ℕ, zero, suc, ◌+◌, ◌<◌, ◌≡◌, ◌≢◌, ◌⊎◌, refl, ap, ap₂, sym, subst, ◌∙◌, Bool, true, false, Option,
  none, some, List, ◌∷◌, map, ltb, lt→ltb, ltb→lt, Bool-cases, Option-cases, inl, inr, get_elem?,
  set_cases, set, replicate, some_injective,
}
use voice.Counters.Atomic.{wrap, inc, Counter, atomic_step, atomic_run, atomic_start, run_schedule}
use voice.Counters.Atomic.Total.{get_elem?-map, map-set, set_same, schedule-refines, schedule-Fits}
use voice.Counters.Mutex.{
  MutexThread, outside, locked, loaded, written, counted, MutexState, put_thread, lock,
  mutex_thread, mutex_step, mutex_start,
}

-- The addition is made where the number is written.
abbrev pub mutex_added : MutexThread → ℕ
mutex_added (outside i) = i
mutex_added (locked i) = i
mutex_added (loaded i v) = i
mutex_added (written i) = suc i
mutex_added (counted i) = i

abbrev pub mutex_view : MutexState → Counter
mutex_view s = record { number = s.number; counts = map mutex_added s.threads }

-- Between the lock and the unlock.
abbrev pub inside : MutexThread → Bool
inside (outside i) = false
inside (locked i) = true
inside (loaded i v) = true
inside (written i) = true
inside (counted i) = true

-- A thread inside holds the lock, and what it has read is the number.
abbrev At : ℕ → ℕ → Option ℕ → ℕ → MutexThread → Type 0
At limit number owner k (outside i) = Unit
At limit number owner k (locked i) = (owner ≡ some k) × (i < limit)
At limit number owner k (loaded i v) = (owner ≡ some k) × (i < limit) × (v ≡ number)
At limit number owner k (written i) = owner ≡ some k
At limit number owner k (counted i) = owner ≡ some k

abbrev Fits : ℕ → MutexState → Type 0
Fits limit s =
    (k : ℕ) (t : MutexThread) → get_elem? s.threads k ≡ some t → At limit s.number s.owner k t

-- A thread that does not hold the lock does not mind.
not_owner :
    (limit number number' : ℕ) (owner owner' : Option ℕ) (k : ℕ) (t : MutexThread)
    → owner ≢ some k
    → At limit number owner k t
    → At limit number' owner' k t
not_owner limit number number' owner owner' k (outside i) ne h = tt
not_owner limit number number' owner owner' k (locked i) ne h = absurd (ne h.0)
not_owner limit number number' owner owner' k (loaded i v) ne h = absurd (ne h.0)
not_owner limit number number' owner owner' k (written i) ne h = absurd (ne h)
not_owner limit number number' owner owner' k (counted i) ne h = absurd (ne h)

some_ne : (k j : ℕ) → j ≢ k → some k ≢ some j
some_ne k j ne e = ne (sym (some_injective e))

module _ (limit k : ℕ) (s : MutexState) (fits : Fits limit s) where
  abbrev Next : MutexState → Type 0
  Next s' =
      Fits limit s'
      × ((mutex_view s' ≡ mutex_view s) ⊎ (mutex_view s' ≡ atomic_step limit k (mutex_view s)))

  -- No other thread holds the lock.
  abbrev Free : Type 0
  Free = (j : ℕ) → j ≢ k → s.owner ≢ some j

  own_free : s.owner ≡ some k → Free
  own_free e j ne q = some_ne k j ne (sym e ∙ q)

  moved_Fits :
      (t : MutexThread) (number : ℕ) (owner : Option ℕ)
      → Free
      → At limit number owner k t
      → Fits limit (put_thread k t (record s { number = number; owner = owner }))
  moved_Fits t number owner free at j u e = elim (set_cases s.threads k j t u e) [
    | inl (is_k, is_t) ↦
        subst (λ (v : MutexThread). At limit number owner j v) (sym is_t)
          (subst (λ (i : ℕ). At limit number owner i t) (sym is_k) at)
    | inr (ne, there) ↦
        not_owner limit s.number number s.owner owner j u (free j ne) (fits j u there)
  ]

  -- A step that adds nothing.
  unseen :
      (t t' : MutexThread) (owner : Option ℕ)
      → get_elem? s.threads k ≡ some t
      → mutex_added t' ≡ mutex_added t
      → Free
      → At limit s.number owner k t'
      → Next (put_thread k t' (record s { owner = owner }))
  unseen t t' owner e same free at = (
    moved_Fits t' s.number owner free at,
    inl (
        ap (λ (ns : List ℕ). record { number = s.number; counts = ns })
          (map-set mutex_added s.threads k t'
            ∙ ap (set (map mutex_added s.threads) k) same
            ∙ set_same (map mutex_added s.threads) k (mutex_added t)
                (get_elem?-map mutex_added s.threads k t e))),
  )

  writes :
      (i v : ℕ)
      → get_elem? s.threads k ≡ some (loaded i v)
      → At limit s.number s.owner k (loaded i v)
      → Next (put_thread k (written i) (record s { number = wrap (v + 1) }))
  unfolding atomic_step inc
  writes i v e (owns, lt, current) = (
    moved_Fits (written i) (wrap (v + 1)) s.owner (own_free owns) owns,
    inr (
        rw (atomic_step, get_elem?-map mutex_added s.threads k _ e, lt→ltb i limit lt)
          (ap₂ (λ (n : ℕ) (ns : List ℕ). record { number = wrap (n + 1); counts = ns }) current
            (map-set mutex_added s.threads k (written i)))),
  )

  tries :
      (i : ℕ) (owner : Option ℕ)
      → s.owner ≡ owner
      → i < limit
      → get_elem? s.threads k ≡ some (outside i)
      → Next (lock k i owner s)
  unfolding lock
  tries i none free lt e =
      unseen (outside i) (locked i) (some k) e refl (λ j ne q. elim (none_some (sym free ∙ q)) [ ])
        (refl, lt)
    where
      none_some : {j : ℕ} → none ≡ some j → ⊥
      none_some q = cc
  tries i (some holder) held lt e = (fits, inl refl)

  of_thread :
      (t : MutexThread)
      → get_elem? s.threads k ≡ some t
      → At limit s.number s.owner k t
      → Next (mutex_thread limit k t s)
  unfolding mutex_thread
  of_thread (outside i) e at = elim (Bool-cases (ltb i limit)) [
    | inl q ↦ rw (q) (tries i s.owner refl (ltb→lt i limit q) e)
    | inr q ↦ rw (q) (fits, inl refl)
  ]
  of_thread (locked i) e (owns, lt) =
      unseen (locked i) (loaded i s.number) s.owner e refl (own_free owns) (owns, lt, refl)
  of_thread (loaded i v) e at = writes i v e at
  of_thread (written i) e owns =
      unseen (written i) (counted (suc i)) s.owner e refl (own_free owns) owns
  of_thread (counted i) e owns = unseen (counted i) (outside i) none e refl (own_free owns) tt

  mutex_step-Next : Next (mutex_step limit k s)
  unfolding mutex_step
  mutex_step-Next = elim (Option-cases (get_elem? s.threads k)) [
    | inl e ↦ rw (mutex_step, e) (fits, inl refl)
    | inr (t, e) ↦ rw (mutex_step, e) (of_thread t e (fits k t e))
  ]

start-Fits : (limit threads : ℕ) → Fits limit (mutex_start threads)
start-Fits limit threads k t e = subst (At limit 0 none k) (sym (all_outside threads k t e)) tt
  where
    all_outside :
        (n j : ℕ) (u : MutexThread) → get_elem? (replicate n (outside 0)) j ≡ some u → u ≡ outside 0
    all_outside zero j u q = cc
    all_outside (suc n) zero u q = cc
    all_outside (suc n) (suc j) u q = all_outside n j u q

view_start : (threads : ℕ) → mutex_view (mutex_start threads) ≡ atomic_start threads
view_start threads = ap (λ (ns : List ℕ). record { number = 0; counts = ns }) (zeros threads)
  where
    zeros : (n : ℕ) → map mutex_added (replicate n (outside 0)) ≡ replicate n 0
    zeros zero = refl
    zeros (suc n) = ap (λ (ns : List ℕ). 0 ∷ ns) (zeros n)

-- Whatever order the threads of MutexLock.c go in, the number and what each has added are those of a run
-- of Atomic.c, although the addition is a read and a write.
pub mutex_step-refines :
    (limit threads : ℕ) (schedule : List ℕ)
    → (schedule' : List ℕ) × (mutex_view
          (run_schedule (mutex_step limit) schedule (mutex_start threads))
        ≡ atomic_run limit schedule' (atomic_start threads))
mutex_step-refines limit threads schedule =
    let (schedule', e) =
      schedule-refines limit (mutex_step limit) mutex_view (Fits limit)
        (λ k s fits. mutex_step-Next limit k s fits) schedule (mutex_start threads)
        (start-Fits limit threads) in
    (schedule', e ∙ ap (atomic_run limit schedule') (view_start threads))

owner_of :
    (limit number : ℕ) (owner : Option ℕ) (k : ℕ) (t : MutexThread)
    → inside t ≡ true
    → At limit number owner k t
    → owner ≡ some k
owner_of limit number owner k (outside i) e h = cc
owner_of limit number owner k (locked i) e h = h.0
owner_of limit number owner k (loaded i v) e h = h.0
owner_of limit number owner k (written i) e h = h
owner_of limit number owner k (counted i) e h = h

-- While a thread is between the lock and the unlock, no other is.
pub mutex_step-excludes :
    (limit threads : ℕ) (schedule : List ℕ) (j k : ℕ) (t u : MutexThread)
    → let s = run_schedule (mutex_step limit) schedule (mutex_start threads) in
      get_elem? s.threads j ≡ some t
      → get_elem? s.threads k ≡ some u
      → j ≢ k
      → inside t ≡ true
      → inside u ≡ false
mutex_step-excludes limit threads schedule j k t u at_j at_k ne in_t =
    let fits =
      schedule-Fits limit (mutex_step limit) mutex_view (Fits limit)
        (λ i s f. mutex_step-Next limit i s f) schedule (mutex_start threads)
        (start-Fits limit threads) in
    elim (Bool-cases (inside u)) [
      | inr e ↦ e
      | inl in_u ↦ absurd (
          ne (
            some_injective (
              sym (owner_of limit _ _ j t in_t (fits j t at_j))
              ∙ owner_of limit _ _ k u in_u (fits k u at_k))))
    ]
