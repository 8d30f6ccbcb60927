-- ===== src/Counters/Cas/Unchanged.antt =====
-- What the compare-and-swap of CAS.c, as it is written, does to the number.
use voice.Prelude.{
  ℕ, zero, suc, ◌≡◌, ◌≢◌, refl, sym, subst, some, List, [], ◌∷◌, ltb, Bool-cases, Option-cases, inl,
  inr, get_elem?, set_cases, set, replicate,
}
use voice.Counters.Atomic.{run_schedule}
use voice.Counters.Cas.{
  CasThread, counting, adding, retrying, CasState, cas, cas_thread, cas_step, cas_start,
}

-- The thread has read the number only as 0, and no swap of it has failed.
abbrev AtZero : CasThread → Type 0
AtZero (counting j) = Unit
AtZero (adding j old_value) = old_value ≡ 0
AtZero (retrying j) = ⊥

abbrev AllAtZero : CasState → Type 0
AllAtZero s = (s.number ≡ 0) × ((k : ℕ) (t : CasThread) → get_elem? s.threads k ≡ some t → AtZero t)

set-AtZero :
    (s : CasState) (k : ℕ) (t' : CasThread)
    → AllAtZero s
    → AtZero t'
    → AllAtZero (record { number = 0; threads = set s.threads k t' })
set-AtZero s k t' (_, old) is = (
  refl,
  λ i t q. elim (set_cases s.threads k i t' t q) [
    | inl (_, e) ↦ subst AtZero (sym e) is
    | inr (_, there) ↦ old i t there
  ],
)

cas_thread-AtZero :
    (limit : ℕ) (t : CasThread)
    → AtZero t
    → ((cas_thread limit 0 t).0 ≡ 0) × AtZero ((cas_thread limit 0 t).1)
unfolding cas_thread cas
cas_thread-AtZero limit (counting j) is = elim (Bool-cases (ltb j limit)) [
  | inl q ↦ rw q (refl, refl)
  | inr q ↦ rw q (refl, tt)
]
cas_thread-AtZero limit (adding j old_value) is = rw is (refl, tt)
cas_thread-AtZero limit (retrying j) is = absurd is

cas_step-AllAtZero : (limit k : ℕ) (s : CasState) → AllAtZero s → AllAtZero (cas_step limit k s)
unfolding cas_step
cas_step-AllAtZero limit k s h = elim (Option-cases (get_elem? s.threads k)) [
  | inl e ↦ rw (cas_step, e) h
  | inr (t, e) ↦
      let (number, is) = cas_thread-AtZero limit t (h.1 k t e) in
      rw (cas_step, e, h.0, number) (set-AtZero s k (cas_thread limit 0 t).1 h is)
]

run-AllAtZero :
    (limit : ℕ) (schedule : List ℕ) (s : CasState)
    → AllAtZero s
    → AllAtZero (run_schedule (cas_step limit) schedule s)
run-AllAtZero limit [] s h = h
run-AllAtZero limit (k ∷ schedule) s h =
    run-AllAtZero limit schedule (cas_step limit k s) (cas_step-AllAtZero limit k s h)

start-AtZero :
    (threads k : ℕ) (t : CasThread)
    → get_elem? (replicate threads (counting 0)) k ≡ some t
    → AtZero t
start-AtZero zero k t e = cc
start-AtZero (suc n) zero t e = (let same : counting 0 ≡ t = cc in subst AtZero same tt)
start-AtZero (suc n) (suc k) t e = start-AtZero n k t e

-- Whatever order the threads of CAS.c go in, the number is still 0, and no thread has had a swap fail.
pub cas_step-unchanged :
    (limit threads : ℕ) (schedule : List ℕ)
    → ((run_schedule (cas_step limit) schedule (cas_start threads)).number ≡ 0)
      × ((k j : ℕ)
          → get_elem? (run_schedule (cas_step limit) schedule (cas_start threads)).threads k
            ≢ some (retrying j))
cas_step-unchanged limit threads schedule =
    let h = run-AllAtZero limit schedule (cas_start threads) (refl, start-AtZero threads) in
    (h.0, λ k j e. h.1 k (retrying j) e)
