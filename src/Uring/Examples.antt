-- ===== src/Uring/Examples.antt =====
-- A server that has just started, and two clients.
use voice.Prelude.{◌≡◌, refl, [], ◌∷◌, arith}
use voice.Prelude.Int.{pos}
use voice.Uring.{Server, main_step, Reachable, at_start, by_main, started}
use voice.Uring.Crosstalk.{answered-crosstalk}

abbrev submitted : (s : Server) × Reachable (pos 3) s
unfolding main_step
submitted =
    let r0 : Reachable (pos 3) (started (pos 3)) = at_start in (_, by_main r0 (omega arith) refl)

crosstalk_example :
    (s : Server) × Reachable (pos 3) s
    × (s.received ≡ (pos 5, 104 ∷ 105 ∷ []) ∷ (pos 6, 121 ∷ 111 ∷ []) ∷ [])
    × (s.sent ≡ (pos 5, 121 ∷ 111 ∷ []) ∷ [])
crosstalk_example =
    answered-crosstalk (pos 3) (pos 5) (pos 6) 104 121 (105 ∷ []) (111 ∷ []) (omega arith)
      (omega arith)
