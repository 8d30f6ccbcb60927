-- ===== src/Threads/Wakeups/Total.antt =====
-- Numbers that the states of the workers add up to.
use voice.Prelude.{
  ℕ, zero, suc, ◌+◌, ◌≡◌, ap, some, List, [], ◌∷◌, get_elem?, set, some_injective, arith,
}
use voice.Threads.Wakeups.{WorkerState, Worker}

abbrev pub total : (WorkerState → ℕ) → List Worker → ℕ
total f [] = 0
total f (w ∷ ws) = f w.state + total f ws

pub total-set :
    (f : WorkerState → ℕ) (ws : List Worker) (k : ℕ) (w w' : Worker)
    → get_elem? ws k ≡ some w
    → total f (set ws k w') + f w.state ≡ total f ws + f w'.state
total-set f [] k w w' e = absurd (cc)
total-set f (x ∷ ws) zero w w' e =
    let same = ap (λ (v : Worker). f v.state) (some_injective e) in omega (arith, same)
total-set f (x ∷ ws) (suc k) w w' e = let rest = total-set f ws k w w' e in omega (arith, rest)
