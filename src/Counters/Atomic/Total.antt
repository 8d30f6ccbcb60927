-- ===== src/Counters/Atomic/Total.antt =====
-- What the threads have added, in any order, and runs of other programs that do the same.
use voice.Prelude.{
  ℕ, zero, suc, ◌+◌, ◌*◌, ◌≤◌, ◌<◌, ◌≡◌, ◌≢◌, ◌⊎◌, refl, ap, sym, subst, ◌∙◌, some, List, [], ◌∷◌,
  arith, map, ◌==◌, ==_iff, ltb, leb, if◌then◌else◌, Bool-cases, Option-cases, inl, inr, length,
  get_elem?, set, replicate, length-set, length-replicate, some_injective, occurrences,
  get_elem?-set_self, get_elem?-set_ne,
}
use voice.Counters.Atomic.{wrap, inc, Counter, atomic_step, atomic_run, atomic_start, run_schedule}

abbrev pub total : List ℕ → ℕ
total [] = 0
total (n ∷ ns) = n + total ns

total-set :
    (ns : List ℕ) (k i : ℕ) → get_elem? ns k ≡ some i → total (set ns k (suc i)) ≡ suc (total ns)
total-set [] k i e = cc
total-set (n ∷ ns) zero i e = omega (arith, some_injective e)
total-set (n ∷ ns) (suc k) i e = omega (arith, total-set ns k i e)

-- The number is what the threads have counted.
pub record IsTotal (c : Counter) : Type 0 where
  pub sum : c.number ≡ wrap (total c.counts)

atomic_step-IsTotal : (limit k : ℕ) (c : Counter) → IsTotal c → IsTotal (atomic_step limit k c)
unfolding atomic_step inc
atomic_step-IsTotal limit k c v = elim (Option-cases (get_elem? c.counts k)) [
  | inl e ↦ rw (atomic_step, e) v
  | inr (i, e) ↦ elim (Bool-cases (ltb i limit)) [
    | inr q ↦ rw (atomic_step, e, q) v
    | inl q ↦
        rw (atomic_step, e, q) (record { sum = omega (arith, v.sum, total-set c.counts k i e) })
  ]
]

atomic_run-IsTotal :
    (limit : ℕ) (schedule : List ℕ) (c : Counter)
    → IsTotal c
    → IsTotal (atomic_run limit schedule c)
unfolding atomic_run
atomic_run-IsTotal limit [] c v = v
atomic_run-IsTotal limit (k ∷ schedule) c v =
    atomic_run-IsTotal limit schedule _ (atomic_step-IsTotal limit k c v)

abbrev pub at_most : ℕ → ℕ → ℕ
at_most limit n = if leb n limit then n else limit

get_elem?-lt : (ns : List ℕ) (k : ℕ) {i : ℕ} → get_elem? ns k ≡ some i → k < length ns
get_elem?-lt [] k e = cc
get_elem?-lt (n ∷ ns) zero e = omega arith
get_elem?-lt (n ∷ ns) (suc k) e = omega (arith, get_elem?-lt ns k e)

-- A step of a thread counts its loop up, unless it is over.
step_self :
    (limit k i : ℕ) (c : Counter)
    → get_elem? c.counts k ≡ some i
    → i ≤ limit
    → get_elem? (atomic_step limit k c).counts k ≡ some (at_most limit (suc i))
unfolding atomic_step
step_self limit k i c e h = elim (Bool-cases (ltb i limit)) [
  | inl q ↦
      rw (atomic_step, e, q)
        (get_elem?-set_self c.counts k (suc i) (get_elem?-lt c.counts k e) ∙ ap some (ground arith))
  | inr q ↦ rw (atomic_step, e, q) (e ∙ ap some (ground arith))
]

step_other :
    (limit k j : ℕ) (c : Counter)
    → k ≢ j
    → get_elem? (atomic_step limit k c).counts j ≡ get_elem? c.counts j
unfolding atomic_step
step_other limit k j c ne = elim (Option-cases (get_elem? c.counts k)) [
  | inl e ↦ rw (atomic_step, e) refl
  | inr (i, e) ↦ elim (Bool-cases (ltb i limit)) [
    | inl q ↦ rw (atomic_step, e, q) (get_elem?-set_ne c.counts (suc i) ne)
    | inr q ↦ rw (atomic_step, e, q) refl
  ]
]

-- A thread has counted as often as it went, up to the limit.
atomic_run-counts :
    (limit j : ℕ) (schedule : List ℕ) (i : ℕ) (c : Counter)
    → get_elem? c.counts j ≡ some i
    → i ≤ limit
    → get_elem? (atomic_run limit schedule c).counts j
      ≡ some (at_most limit (i + occurrences j schedule))
unfolding atomic_run
atomic_run-counts limit j [] i c e h = e ∙ ap some (ground arith)
atomic_run-counts limit j (k ∷ schedule) i c e h = elim (Bool-cases (j == k)) [
  | inl same ↦
      let k_is = (==_iff j k).0 same in
      rw (same) (
        atomic_run-counts limit j schedule (at_most limit (suc i)) (atomic_step limit k c)
          (subst
            (λ (n : ℕ). get_elem? (atomic_step limit n c).counts j ≡ some (at_most limit (suc i)))
            k_is (step_self limit j i c e h))
          (ground arith)
        ∙ ap some (ground arith))
  | inr other ↦ rw (other) (
      atomic_run-counts limit j schedule i (atomic_step limit k c)
        (step_other limit k j c (ground arith) ∙ e) h)
]

total_all :
    (limit : ℕ) (ns : List ℕ)
    → ((j : ℕ) → j < length ns → get_elem? ns j ≡ some limit)
    → total ns ≡ length ns * limit
total_all limit [] h = omega arith
total_all limit (n ∷ ns) h = omega (
  arith,
  some_injective (h 0 (omega arith)),
  total_all limit ns (λ j lt. h (suc j) (omega (arith, lt))),
)

length-atomic_step :
    (limit k : ℕ) (c : Counter) → length (atomic_step limit k c).counts ≡ length c.counts
unfolding atomic_step
length-atomic_step limit k c = elim (Option-cases (get_elem? c.counts k)) [
  | inl e ↦ rw (atomic_step, e) refl
  | inr (i, e) ↦ elim (Bool-cases (ltb i limit)) [
    | inl q ↦ rw (atomic_step, e, q) (length-set c.counts k (suc i))
    | inr q ↦ rw (atomic_step, e, q) refl
  ]
]

length-atomic_run :
    (limit : ℕ) (schedule : List ℕ) (c : Counter)
    → length (atomic_run limit schedule c).counts ≡ length c.counts
unfolding atomic_run
length-atomic_run limit [] c = refl
length-atomic_run limit (k ∷ schedule) c =
    length-atomic_run limit schedule (atomic_step limit k c) ∙ length-atomic_step limit k c

get_elem?-replicate : (n k : ℕ) → k < n → get_elem? (replicate {A = ℕ} n 0) k ≡ some 0
get_elem?-replicate zero k h = elim h [ ]
get_elem?-replicate (suc n) zero h = refl
get_elem?-replicate (suc n) (suc k) h = get_elem?-replicate n k (omega (arith, h))

total-zeros : (n : ℕ) → total (replicate n 0) ≡ 0
total-zeros zero = refl
total-zeros (suc n) = omega (arith, total-zeros n)

-- Once every thread has gone as often as its loop says, or oftener, the number is the product of the
-- threads and the rounds, as an int of 32 bits, in whatever order they went.
pub atomic_run-total :
    (limit threads : ℕ) (schedule : List ℕ)
    → ((k : ℕ) → k < threads → limit ≤ occurrences k schedule)
    → (atomic_run limit schedule (atomic_start threads)).number ≡ wrap (threads * limit)
atomic_run-total limit threads schedule often =
    (atomic_run-IsTotal limit schedule (atomic_start threads)
      (record { sum = ap wrap (sym (total-zeros threads)) })).sum
    ∙ ap wrap (total_all limit after.counts finished ∙ ap (λ (n : ℕ). n * limit) threads_kept)
  where
    after : Counter
    after = atomic_run limit schedule (atomic_start threads)

    threads_kept : length after.counts ≡ threads
    threads_kept =
        length-atomic_run limit schedule (atomic_start threads) ∙ length-replicate threads 0

    finished : (j : ℕ) → j < length after.counts → get_elem? after.counts j ≡ some limit
    finished j lt =
        atomic_run-counts limit j schedule 0 (atomic_start threads)
          (get_elem?-replicate threads j (omega (arith, lt, threads_kept))) (omega arith)
        ∙ ap some (all_rounds (often j (omega (arith, lt, threads_kept))))
      where
        all_rounds : {n : ℕ} → limit ≤ n → at_most limit (0 + n) ≡ limit
        all_rounds h = ground arith

module _ {A B : Type 0} (f : A → B) where
  pub get_elem?-map :
      (ts : List A) (k : ℕ) (t : A) → get_elem? ts k ≡ some t → get_elem? (map f ts) k ≡ some (f t)
  get_elem?-map [] k t e = cc
  get_elem?-map (x ∷ ts) zero t e = cc
  get_elem?-map (x ∷ ts) (suc k) t e = get_elem?-map ts k t e

  pub map-set : (ts : List A) (k : ℕ) (t : A) → map f (set ts k t) ≡ set (map f ts) k (f t)
  map-set [] k t = refl
  map-set (x ∷ ts) zero t = refl
  map-set (x ∷ ts) (suc k) t = ap (λ xs. f x ∷ xs) (map-set ts k t)

-- A write of what is there.
pub set_same :
    {A : Type 0} (ns : List A) (k : ℕ) (n : A) → get_elem? ns k ≡ some n → set ns k n ≡ ns
set_same [] k n e = refl
set_same (m ∷ ns) zero n e = cc
set_same (m ∷ ns) (suc k) n e = ap (λ xs. m ∷ xs) (set_same ns k n e)

-- Programs that are seen as the atomic one: each step is a step of it, or is not seen there.
module _ {A : Type 0} (limit : ℕ) (step : ℕ → A → A) (view : A → Counter) (Fits : A → Type 0)
    (simulates : (k : ℕ) (s : A)
      → Fits s
      → Fits (step k s)
        × ((view (step k s) ≡ view s) ⊎ (view (step k s) ≡ atomic_step limit k (view s)))) where
  pub schedule-Fits : (schedule : List ℕ) (s : A) → Fits s → Fits (run_schedule step schedule s)
  schedule-Fits [] s v = v
  schedule-Fits (k ∷ schedule) s v = schedule-Fits schedule (step k s) (simulates k s v).0

  pub schedule-refines :
      (schedule : List ℕ) (s : A)
      → Fits s
      → (schedule' : List ℕ) × (view (run_schedule step schedule s)
          ≡ atomic_run limit schedule' (view s))
  unfolding atomic_run
  schedule-refines [] s v = ([], refl)
  schedule-refines (k ∷ schedule) s v =
      let (fits, seen) = simulates k s v in
      let (schedule', e) = schedule-refines schedule (step k s) fits in
      elim seen [
        | inl same ↦ (schedule', e ∙ ap (atomic_run limit schedule') same)
        | inr moved ↦ (k ∷ schedule', e ∙ ap (atomic_run limit schedule') moved)
      ]
