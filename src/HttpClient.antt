-- ===== src/HttpClient.antt =====
-- http.c: a GET request, and the response put together piece by piece. What the resolver, the sockets and
-- `select` answer are arguments.
pub mod Pieces
mod Examples
use voice.Prelude.{
  ℕ, zero, suc, ◌+◌, Bool, true, false, Option, none, some, List, [], ◌∷◌, ◌++◌, ◌==◌, ltb,
  if◌then◌else◌, length, take, replicate,
}
use voice.Prelude.Run.{Run, ok, fault, of_option, ◌>>=◌}
use voice.Prelude.Text.{codes, c_string}
use voice.Prelude.Memory.{write_bytes, realloc}

abbrev pub buffer_szie : ℕ
buffer_szie = 4096

unfoldable pub request_text : List ℕ → List ℕ → List ℕ
request_text resource hostname =
    codes "GET "
    ++ (resource
        ++ (codes " HTTP/1.1\r\nHost: " ++ (hostname ++ codes "\r\nConnection: close\r\n\r\n")))

-- sprintf into `buffer`, with the NUL.
unfoldable pub print_request : List ℕ → List ℕ → Run (List ℕ)
unfolding request_text
print_request resource hostname =
    let text = request_text resource hostname in
    if ltb (length text) buffer_szie then ok text else fault

-- strncat's part of its source: to the first NUL.
unfoldable pub before_nul : List ℕ → List ℕ
before_nul [] = []
before_nul (c ∷ s) = elim (c == 0) [ true ↦ [] | false ↦ c ∷ before_nul s ]

-- A round of the loop: `select` says that there is something, and `recv` gives bytes, or the loop ends.
pub data Piece : Type 0 where
  piece : ℕ → List ℕ → Piece
  no_more : Piece

-- realloc and strncat.
unfoldable pub append_piece : List ℕ → List ℕ → Run (List ℕ)
unfolding before_nul
append_piece received result = of_option (c_string result) >>= λ text. of_option (
    write_bytes (realloc result (length text + length received + 1)) (length text)
      (before_nul received ++ 0 ∷ []))

-- As far as the rounds that are given.
unfoldable pub receive_loop : List Piece → List ℕ → Run (List ℕ)
unfolding append_piece
receive_loop [] result = ok result
receive_loop (no_more ∷ pieces) result = ok result
receive_loop (piece x bytes ∷ pieces) result =
    append_piece (take buffer_szie (x ∷ bytes)) result >>= λ result'. receive_loop pieces result'

-- The request that was sent, with the response, or NULL. `ip` and `sockfd` say whether the two helpers
-- succeed, `sent` whether `send` does.
unfoldable pub http_send_request :
    (ip sockfd sent : Bool) → List ℕ → List ℕ → List Piece → Run (Option (List ℕ × List ℕ))
unfolding print_request receive_loop
http_send_request false sockfd sent hostname resource pieces = ok none
http_send_request true false sent hostname resource pieces = ok none
http_send_request true true sent hostname resource pieces =
    print_request resource hostname >>= λ text.
    if sent
    then receive_loop pieces (replicate 4 0) >>= (λ result. ok (some (text, result)))
    else ok none
