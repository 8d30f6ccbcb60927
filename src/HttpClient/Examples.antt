-- ===== src/HttpClient/Examples.antt =====
-- A response in two pieces, the first with a NUL in it.
use voice.Prelude.{List, [], ◌∷◌}
use voice.HttpClient.{Piece, piece, no_more}

abbrev pieces : List Piece
pieces = piece 72 (0 ∷ 73 ∷ []) ∷ piece 84 [] ∷ no_more ∷ []
