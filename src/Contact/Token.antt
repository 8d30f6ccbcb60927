-- ===== src/Contact/Token.antt =====
-- contact.c, paraser_token: the parser of a line, and what it makes of the lines that save_file writes.
use voice.Prelude.{
  ℕ, zero, suc, ◌+◌, ◌-◌, ◌≤◌, ◌<◌, ◌≡◌, ◌≢◌, refl, Bool, true, false, some, List, [], ◌∷◌, ◌++◌,
  arith, ◌==◌, ==_ne, if◌then◌else◌, length, length-append, ltb, All, All-append, replicate,
  append_assoc,
}
use voice.Prelude.Int.{ℤ, pos, negsuc}
use voice.Prelude.Run.{Run, ok, fault, of_option, ◌>>=◌}
use voice.Prelude.Text.{codes, c_string, c_string-append}
use voice.Contact.{Person, name_length, phone_length, line_of}

abbrev pub min_length : ℕ
min_length = 5

-- The first loop: what is written to `name`, with room for so many bytes, and the buffer from ',' on.
unfoldable pub name_part : ℕ → Bool → List ℕ → Run (List ℕ × List ℕ)
name_part room status [] = fault
name_part room status (c ∷ s) = elim (c == 44) [
  | true ↦ ok ([], c ∷ s)
  | false ↦ elim (c == 32) [
    | true ↦ name_part room true s
    | false ↦ elim status [
      | false ↦ name_part room false s
      | true ↦ elim room [
        | zero ↦ fault
        | suc room' ↦ name_part room' true s >>= λ (w, rest). ok (c ∷ w, rest)
      ]
    ]
  ]
]

-- The second loop: what is written to `phone` by the next `n` bytes.
unfoldable pub phone_part : ℕ → Bool → ℕ → List ℕ → Run (List ℕ)
phone_part room status zero s = ok []
phone_part room status (suc n) [] = fault
phone_part room status (suc n) (c ∷ s) = elim (c == 32) [
  | true ↦ phone_part room true n s
  | false ↦ elim status [
    | false ↦ phone_part room false n s
    | true ↦ elim room [ zero ↦ fault | suc room' ↦ phone_part room' true n s >>= λ w. ok (c ∷ w) ]
  ]
]

-- An array of `cap` bytes, zeroed and then written from its start.
abbrev pub array : ℕ → List ℕ → List ℕ
array cap w = w ++ replicate (cap - length w) 0

-- The return code and the two arrays of the caller. The last line of the body prints both as strings.
unfoldable pub paraser_token : List ℕ → ℕ → Run (ℤ × List ℕ × List ℕ)
paraser_token buffer len =
    if ltb len min_length then ok (negsuc 1, array name_length [], array phone_length []) else (do
      (name, rest) ← name_part name_length false buffer
      phone ← phone_part phone_length false (len - (length buffer - length rest)) rest
      printed ← of_option (c_string (array name_length name))
      printed' ← of_option (c_string (array phone_length phone))
      ok (pos 0, array name_length name, array phone_length phone))

-- A person whose fields survive the format of the file: words without blanks that fit their arrays,
-- a name without ',' and room for the newline behind the phone.
pub record Plain (p : Person) : Type 0 where
  pub name : All (λ c. (c ≢ 0) × (c ≢ 10) × (c ≢ 32) × (c ≢ 44)) p.name
  pub phone : All (λ c. (c ≢ 0) × (c ≢ 10) × (c ≢ 32)) p.phone
  pub name_fits : length p.name < name_length
  pub phone_fits : length p.phone + 1 < phone_length

pub All-mono {ℓ κ ν} :
    {A : Type ℓ} (P : A → Type κ) (Q : A → Type ν) (xs : List A)
    → All P xs
    → ((a : A) → P a → Q a)
    → All Q xs
All-mono P Q [] h k = tt
All-mono P Q (x ∷ xs) h k = (k x h.0, All-mono P Q xs h.1 k)

name_part-word :
    (room : ℕ) (w rest : List ℕ)
    → All (λ c. (c ≢ 44) × (c ≢ 32)) w
    → length w ≤ room
    → name_part room true (w ++ 44 ∷ rest) ≡ ok (w, 44 ∷ rest)
unfolding name_part
name_part-word room [] rest h l = refl
name_part-word zero (c ∷ w) rest h l = absurd (omega arith)
name_part-word (suc room) (c ∷ w) rest h l =
    rw (name_part, ==_ne c 44 h.0.0, ==_ne c 32 h.0.1, name_part-word room w rest h.1 (omega arith))

phone_part-word :
    (room : ℕ) (w rest : List ℕ)
    → All (λ c. c ≢ 32) w
    → length w ≤ room
    → phone_part room true (length w) (w ++ rest) ≡ ok w
unfolding phone_part
phone_part-word room [] rest h l = refl
phone_part-word zero (c ∷ w) rest h l = absurd (omega arith)
phone_part-word (suc room) (c ∷ w) rest h l =
    rw (phone_part, ==_ne c 32 h.0, phone_part-word room w rest h.1 (omega arith))

pub array-string :
    (cap : ℕ) (w : List ℕ) → All (λ c. c ≢ 0) w → length w < cap → c_string (array cap w) ≡ some w
array-string cap w h l = rw (spare) (c_string-append w (replicate (cap - length w - 1) 0) h)
  where
    spare : cap - length w ≡ suc (cap - length w - 1)
    spare = omega arith

-- The buffer that holds the line of a person, by its parts.
line_parts :
    (p : Person) (pad : List ℕ)
    → line_of p ++ pad
      ≡ codes "name: " ++ (p.name ++ 44 ∷ (codes "phone: " ++ ((p.phone ++ 10 ∷ []) ++ pad)))
line_parts p pad = rw (append_assoc p.name _ pad) refl

length-line : (p : Person) → length (line_of p) ≡ 14 + (length p.name + length (p.phone ++ 10 ∷ []))
length-line p = omega (arith, length-append p.name (codes ",phone: " ++ (p.phone ++ 10 ∷ [])))

pub length-line_lt : (p : Person) → Plain p → length (line_of p) < 127
length-line_lt p v =
    omega (arith, length-line p, length-append p.phone (10 ∷ []), v.name_fits, v.phone_fits)

phone_text : (p : Person) → Plain p → All (λ c. (c ≢ 0) × (c ≢ 32)) (p.phone ++ 10 ∷ [])
phone_text p v =
    All-append _ p.phone (10 ∷ [])
      (All-mono _ (λ c. (c ≢ 0) × (c ≢ 32)) p.phone v.phone (λ c h. (h.0, h.2)))
      (((λ e. omega (arith, e)), (λ e. omega (arith, e))), tt)

abbrev phone_end : Person → List ℕ → List ℕ
phone_end p pad = 44 ∷ (codes "phone: " ++ ((p.phone ++ 10 ∷ []) ++ pad))

-- How many bytes stand from ',' on.
abbrev behind : Person → ℕ
behind p = suc (suc (suc (suc (suc (suc (suc (suc (length (p.phone ++ 10 ∷ [])))))))))

name_part-line :
    (p : Person) (pad : List ℕ)
    → Plain p
    → name_part name_length false (line_of p ++ pad) ≡ ok (p.name, phone_end p pad)
unfolding name_part
name_part-line p pad v = rw (line_parts p pad) (
    name_part-word name_length p.name (codes "phone: " ++ ((p.phone ++ 10 ∷ []) ++ pad))
      (All-mono _ _ p.name v.name (λ c h. (h.3, h.2))) (omega (arith, v.name_fits)))

phone_part-line :
    (p : Person) (pad : List ℕ)
    → Plain p
    → phone_part phone_length false (behind p) (phone_end p pad) ≡ ok (p.phone ++ 10 ∷ [])
unfolding phone_part
phone_part-line p pad v =
    (phone_part-word phone_length (p.phone ++ 10 ∷ []) pad
      (All-mono _ _ (p.phone ++ 10 ∷ []) (phone_text p v) (λ c h. h.1))
      (omega (arith, length-append p.phone (10 ∷ []), v.phone_fits)))

left_over :
    (p : Person) (pad : List ℕ)
    → length (line_of p) - (length (line_of p ++ pad) - length (phone_end p pad)) ≡ behind p
left_over p pad =
    omega
      (arith, length-line p, length-append (line_of p) pad, length-append (p.phone ++ 10 ∷ []) pad)

long_enough : (p : Person) → ltb (length (line_of p)) min_length ≡ false
long_enough p = ground (arith, length-line p)

-- The line of a person whose name has no NUL, newline, blank or comma, whose phone number has no NUL, newline
-- or blank, and whose name and phone number fit their arrays, the newline behind the phone number included, is
-- taken apart again, except that the newline becomes the end of the phone number.
pub paraser_token-line :
    (p : Person) (pad : List ℕ)
    → Plain p
    → paraser_token (line_of p ++ pad) (length (line_of p))
      ≡ ok (pos 0, array name_length p.name, array phone_length (p.phone ++ 10 ∷ []))
unfolding paraser_token
paraser_token-line p pad v = rw (
  long_enough p,
  name_part-line p pad v,
  left_over p pad,
  phone_part-line p pad v,
  array-string name_length p.name (All-mono _ _ p.name v.name (λ c h. h.0)) v.name_fits,
  array-string phone_length (p.phone ++ 10 ∷ [])
      (All-mono _ _ (p.phone ++ 10 ∷ []) (phone_text p v) (λ c h. h.0))
      (omega (arith, length-append p.phone (10 ∷ []), v.phone_fits)),
)
