-- ===== src/Images/Examples.antt =====
-- Two threads, one of which never starts, and two images.
use voice.Prelude.{ℕ, ◌+◌, Bool, true, Option, some, List, [], ◌∷◌}
use voice.Images.{Images, ImageMove, pushes, turn_of, destroys}

abbrev handles : ℕ → ℕ × Bool
handles i = (i + 100, true)

abbrev files : ℕ → Option ℕ
files t = some 500

abbrev moves : List ImageMove
moves = pushes 1 ∷ pushes 2 ∷ turn_of 0 ∷ turn_of 1 ∷ turn_of 0 ∷ turn_of 0 ∷ destroys ∷ []
