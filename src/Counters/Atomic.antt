-- ===== src/Counters/Atomic.antt =====
-- Atomic.c: the locked addition, and ten threads that call it in a loop. Its number is also what the
-- other two programs are to keep.
pub mod Total
use voice.Prelude.{
  ℕ, zero, suc, ◌+◌, ◌%◌, Bool, true, false, Option, none, some, List, [], ◌∷◌, ltb, if◌then◌else◌,
  get_elem?, set, replicate,
}

-- An int, as the 32 bits it stands for.
abbrev pub wrap : ℕ → ℕ
wrap n = n % 4294967296

-- The old value, and the new one.
unfoldable pub inc : ℕ → ℕ → ℕ × ℕ
inc value add = (value, wrap (value + add))

-- The number, and how far each thread is in its loop.
pub record Counter : Type 0 where
  pub number : ℕ
  pub counts : List ℕ

unfoldable pub atomic_step : ℕ → ℕ → Counter → Counter
unfolding inc
atomic_step limit k c = elim (get_elem? c.counts k) [
  | none ↦ c
  | some i ↦
      if ltb i limit
      then record { number = (inc c.number 1).1; counts = set c.counts k (suc i) }
      else c
]

unfoldable pub atomic_run : ℕ → List ℕ → Counter → Counter
unfolding atomic_step
atomic_run limit [] c = c
atomic_run limit (k ∷ schedule) c = atomic_run limit schedule (atomic_step limit k c)

-- A schedule with any steps.
abbrev pub run_schedule : {A : Type 0} → (ℕ → A → A) → List ℕ → A → A
run_schedule step [] s = s
run_schedule step (k ∷ schedule) s = run_schedule step schedule (step k s)

abbrev pub atomic_start : ℕ → Counter
atomic_start threads = record { number = 0; counts = replicate threads 0 }
