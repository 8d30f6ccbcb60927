-- ===== src/HttpClient/Pieces.antt =====
-- The response of http.c is what the pieces have before their NULs.
use voice.Prelude.{ℕ, ◌+◌, ◌≡◌, ◌≢◌, List, [], ◌∷◌, ◌++◌, length, take, drop, replicate, All}
use voice.Prelude.Run.{Run}
use voice.HttpClient.{buffer_szie, before_nul, Piece, piece, no_more}

-- A block whose text is `text`.
pub record Text (block : List ℕ) (text : List ℕ) : Type 0 where
  pub plain : All (λ c. c ≢ 0) text
  pub rest : List ℕ
  pub block_is : block ≡ text ++ 0 ∷ rest

module _ (received block text : List ℕ) (v : Text block text) where
  abbrev size : ℕ
  size = length text + length received + 1

  -- What the larger block has behind the text.
  abbrev fresh : List ℕ
  fresh = take (length received + 1) (0 ∷ (v.rest ++ replicate size 0))

  abbrev after : List ℕ
  after = drop (length (before_nul received ++ 0 ∷ [])) fresh

-- The parts of the pieces that are kept.
abbrev pub kept : List Piece → List ℕ
kept [] = []
kept (no_more ∷ pieces) = []
kept (piece x bytes ∷ pieces) = before_nul (take buffer_szie (x ∷ bytes)) ++ kept pieces
