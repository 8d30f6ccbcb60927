-- ===== src/WebSocket/Handshake/Line.antt =====
-- `readline` on lines that end in CRLF, and the walk of `handshake` over a request's header lines.
use voice.Prelude.{
  ℕ, zero, suc, ◌+◌, ◌≡◌, ◌≢◌, ◌<◌, ◌≤◌, refl, ap, ◌∙◌, false, true, some, List, [], ◌∷◌, ◌++◌,
  arith, ==_ne, length, All, append_assoc, drop-length-append, length-append, get_or-append,
}
use voice.Prelude.Text.{strstr}
use voice.WebSocket.Conn.{Conn}
use voice.WebSocket.Handshake.{
  cr, lf, key_name, readline_from, readline, at_blank, OpenSsl, answer, handshake_loop,
}

readline_from-append :
    (level : ℕ) (line rest : List ℕ)
    → All (λ c. c ≢ cr) line
    → readline_from level (line ++ (cr ∷ lf ∷ rest)) ≡ (some (level + length line + 2), line)
unfolding readline_from
readline_from-append level [] rest h = ap (λ (n : ℕ). (some n, [])) (omega arith)
readline_from-append level (c ∷ line) rest h =
    rw (readline_from-append (level + 1) line rest h.1, ==_ne c cr h.0)
      (ap (λ (n : ℕ). (some n, c ∷ line)) (omega arith))

-- Behind `pre`, `readline` returns a line up to its CRLF and the index of the next line.
pub readline-append :
    (pre line rest : List ℕ)
    → All (λ c. c ≢ cr) line
    → readline (pre ++ (line ++ (cr ∷ lf ∷ rest))) (length pre)
      ≡ (some (length pre + length line + 2), line)
unfolding readline
readline-append pre line rest h =
    rw (drop-length-append pre (line ++ (cr ∷ lf ∷ rest)))
      (readline_from-append (length pre) line rest h)

-- A header line: not empty, and no carriage return in it.
pub record IsLine (l : List ℕ) : Type 0 where
  pub ne_nil : l ≢ []
  pub no_cr : All (λ c. c ≢ cr) l

pub record IsOther (l : List ℕ) : Type 0 where
  pub line : IsLine l
  pub no_key : strstr l key_name ≡ false

-- Lines as they stand in a request.
abbrev pub lines_text : List (List ℕ) → List ℕ
lines_text [] = []
lines_text (l ∷ ls) = l ++ (cr ∷ lf ∷ lines_text ls)

pub length-lines_text : (ls : List (List ℕ)) → length ls ≤ length (lines_text ls)
length-lines_text [] = omega arith
length-lines_text (l ∷ ls) =
    omega (arith, length-append l (cr ∷ lf ∷ lines_text ls), length-lines_text ls)

not_blank_at : (pre l rest : List ℕ) → IsLine l → at_blank (pre ++ (l ++ rest)) (length pre) ≡ false
unfolding at_blank
not_blank_at pre [] rest h = absurd (h.ne_nil refl)
not_blank_at pre (c ∷ l) rest h = rw (get_or-append pre c (l ++ rest) 0, ==_ne c cr h.no_cr.0)

-- What is left of the request when the lines `ls` stand before the key's line.
abbrev pub request : List (List ℕ) → List ℕ → List ℕ → List ℕ
request ls key_line rest = lines_text ls ++ (key_line ++ (cr ∷ lf ∷ rest))

not_blank :
    (pre : List ℕ) (ls : List (List ℕ)) (key_line rest : List ℕ)
    → All IsOther ls
    → IsLine key_line
    → at_blank (pre ++ request ls key_line rest) (length pre) ≡ false
not_blank pre [] key_line rest h k = not_blank_at pre key_line (cr ∷ lf ∷ rest) k
not_blank pre (l ∷ ls) key_line rest h k =
    rw (append_assoc l (cr ∷ lf ∷ lines_text ls) (key_line ++ (cr ∷ lf ∷ rest)))
      (not_blank_at pre l (cr ∷ lf ∷ request ls key_line rest) h.0.line)

-- The text read so far, after one more line.
abbrev read_on : List ℕ → List ℕ → List ℕ
read_on pre l = pre ++ (l ++ (cr ∷ lf ∷ []))

read_on-append : (pre l rest : List ℕ) → read_on pre l ++ rest ≡ pre ++ (l ++ (cr ∷ lf ∷ rest))
read_on-append pre l rest = simp append_assoc

length-read_on : (pre l : List ℕ) → length (read_on pre l) ≡ length pre + length l + 2
length-read_on pre l =
    omega (arith, length-append pre (l ++ (cr ∷ lf ∷ [])), length-append l (cr ∷ lf ∷ []))

request-cons :
    (pre l : List ℕ) (ls : List (List ℕ)) (key_line rest : List ℕ)
    → pre ++ request (l ∷ ls) key_line rest ≡ read_on pre l ++ request ls key_line rest
request-cons pre l ls key_line rest = simp append_assoc

readline-read_on :
    (pre l rest : List ℕ)
    → All (λ c. c ≢ cr) l
    → readline (read_on pre l ++ rest) (length pre) ≡ (some (length (read_on pre l)), l)
readline-read_on pre l rest h =
    rw (read_on-append pre l rest, length-read_on pre l) (readline-append pre l rest h)

module _ (ssl : OpenSsl) (c : Conn) where
  -- One round of the loop that goes on to the next line.
  handshake_loop-suc :
      (fuel : ℕ) (text line : List ℕ) (idx i : ℕ)
      → readline text idx ≡ (some i, line)
      → strstr line key_name ≡ false
      → at_blank text i ≡ false
      → handshake_loop ssl (suc fuel) text idx c ≡ handshake_loop ssl fuel text i c
  unfolding handshake_loop
  handshake_loop-suc fuel text line idx i read other more = rw (read, other, more)

module _ (ssl : OpenSsl) (c : Conn) (key_line rest : List ℕ) (k : IsLine key_line)
    (named : strstr key_line key_name ≡ true) where
  -- The walk passes over the other lines and answers the key's.
  pub handshake_loop-request :
      (fuel : ℕ) (pre : List ℕ) (ls : List (List ℕ))
      → All IsOther ls
      → length ls < fuel
      → handshake_loop ssl fuel (pre ++ request ls key_line rest) (length pre) c
        ≡ answer ssl key_line c
  unfolding handshake_loop
  handshake_loop-request zero pre ls h enough = absurd (omega arith)
  handshake_loop-request (suc fuel) pre [] h enough =
      rw (readline-append pre key_line rest k.no_cr, named)
  handshake_loop-request (suc fuel) pre (l ∷ ls) h enough =
      ap (λ text. handshake_loop ssl (suc fuel) text (length pre) c)
        (request-cons pre l ls key_line rest)
      ∙ handshake_loop-suc ssl c fuel _ l _ _
          (readline-read_on pre l (request ls key_line rest) h.0.line.no_cr) h.0.no_key
          (not_blank (read_on pre l) ls key_line rest h.1 k)
      ∙ handshake_loop-request fuel (read_on pre l) ls h.1 (omega arith)
