-- ===== src/Counters/Cas.antt =====
-- CAS.c: an addition as a loop of a read and a compare-and-swap. The swap is one step, the read another.
pub mod Unchanged
use voice.Prelude.{
  ℕ, zero, suc, ◌+◌, Bool, true, false, Option, none, some, List, [], ◌∷◌, map, ◌==◌, ltb,
  if◌then◌else◌, get_elem?, set, replicate,
}
use voice.Counters.Atomic.{wrap, Counter}

-- In the loop of thread_callback, behind the read of atomic_add with what was read, or before the read
-- again, the swap having failed.
pub data CasThread : Type 0 where
  counting : ℕ → CasThread
  adding : (count : ℕ) (old_value : ℕ) → CasThread
  retrying : ℕ → CasThread

pub record CasState : Type 0 where
  pub number : ℕ
  pub threads : List CasThread

-- Whether the test succeeded, and the number. The instruction is `cmpxchgl %2, %1`, and operand 2 is
-- expected_val (operand 0 is success, 1 is *addr, 3 is new_val): a success stores what was there.
unfoldable pub cas : ℕ → ℕ → ℕ → Bool × ℕ
cas addr expected_val new_val = if addr == expected_val then (true, expected_val) else (false, addr)

unfoldable pub cas_thread : ℕ → ℕ → CasThread → ℕ × CasThread
unfolding cas
cas_thread limit number (counting j) =
    if ltb j limit then (number, adding j number) else (number, counting j)
cas_thread limit number (adding j old_value) =
    let (success, number') = cas number old_value (wrap (old_value + 1)) in
    if success then (number', counting (suc j)) else (number', retrying j)
cas_thread limit number (retrying j) = (number, adding j number)

unfoldable pub cas_step : ℕ → ℕ → CasState → CasState
unfolding cas_thread
cas_step limit k s = elim (get_elem? s.threads k) [
  | none ↦ s
  | some t ↦
      let (number, t') = cas_thread limit s.number t in
      record { number = number; threads = set s.threads k t' }
]

abbrev pub cas_start : ℕ → CasState
cas_start threads = record { number = 0; threads = replicate threads (counting 0) }
