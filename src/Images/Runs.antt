-- ===== src/Images/Runs.antt =====
-- Runs of the program, in any order of its threads.
use voice.Prelude.{ℕ, ◌≡◌, ◌≢◌, true, Option, some, List, [], ◌∷◌, get_elem?}
use voice.Prelude.Run.{Ensures}
use voice.Images.{
  get_conn, fetched, ImageWorker, Images, ImageMove, pushes, turn_of, destroys, image_move,
}

-- A thread that asks for a connection finds one.
abbrev pub Supplied : ImageMove → Images → Type 0
Supplied (pushes t) s = Unit
Supplied destroys s = Unit
Supplied (turn_of k) s =
    (w : ImageWorker) (t : ℕ)
    → get_elem? s.workers k ≡ some w
    → w.doing ≡ fetched t
    → (get_conn s.slots).0 ≢ 0

abbrev pub AllSupplied : (ℕ → Option ℕ) → List ImageMove → Images → Type 0
AllSupplied files [] s = Unit
AllSupplied files (m ∷ moves) s =
    Supplied m s × Ensures (AllSupplied files moves) (image_move files m s)

-- Destruction sets a flag of the workers.
abbrev stopped : ImageWorker → ImageWorker
stopped w = record w { terminate = true }
