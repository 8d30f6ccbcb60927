-- ===== src/Contact/File/Load.antt =====
-- What load_file makes of a file that save_file wrote.
use voice.Prelude.{
  ℕ, zero, suc, ◌+◌, ◌-◌, ◌≤◌, ◌<◌, ◌≡◌, ◌≢◌, refl, ap, sym, subst, ◌∙◌, Bool, true, false, Option,
  none, some, List, [], ◌∷◌, ◌++◌, arith, ◌==◌, ==_ne, if◌then◌else◌, length, length-append, All,
  All-append, replicate, append_assoc,
}
use voice.Prelude.Int.{ℤ, pos}
use voice.Prelude.Run.{Run, ok, ◌>>=◌}
use voice.Prelude.Text.{codes, c_string}
use voice.Dll.{null}
use voice.Dll.Chain.{has}
use voice.Contact.{Person, Book, name_length, phone_length, line_of, person_insert}
use voice.Contact.Token.{
  array, paraser_token, Plain, All-mono, array-string, length-line_lt, paraser_token-line,
}
use voice.Contact.Entries.{
  Entry, people, lines, IsContact, Holds, Became, fits, traversal_lines, list_insert-new,
}
use voice.Contact.File.{
  buffer_length, fgets, save_file, save_book, save_entry, Mallocs, load_node, load_line, load_round,
  load_lines, load_file, load_book, load_entry,
}

-- `fgets` reads a line with its newline.
fgets-line :
    (n : ℕ) (w rest : List ℕ)
    → All (λ c. c ≢ 10) w
    → length w < n
    → fgets n (w ++ 10 ∷ rest) ≡ (w ++ 10 ∷ [], rest, false)
unfolding fgets
fgets-line zero w rest h l = absurd (omega arith)
fgets-line (suc n) [] rest h l = refl
fgets-line (suc n) (c ∷ w) rest h l = rw (==_ne c 10 h.0, fgets-line n w rest h.1 (omega arith))

-- A line without its newline.
abbrev body_of : Person → List ℕ
body_of p = codes "name: " ++ (p.name ++ (codes ",phone: " ++ p.phone))

line_of-body : (p : Person) → line_of p ≡ body_of p ++ 10 ∷ []
line_of-body p = rw (append_assoc p.name (codes ",phone: " ++ p.phone) (10 ∷ [])) refl

abbrev free : ℕ → List ℕ → Bool
free c [] = true
free c (d ∷ s) = if d == c then false else free c s

All-of-free : (c : ℕ) (s : List ℕ) → free c s ≡ true → All (λ d. d ≢ c) s
All-of-free c [] e = tt
All-of-free c (d ∷ s) e = (ground arith, All-of-free c s (ground arith))

body-free :
    (c : ℕ) (p : Person)
    → free c (codes "name: ") ≡ true
    → free c (codes ",phone: ") ≡ true
    → All (λ d. d ≢ c) p.name
    → All (λ d. d ≢ c) p.phone
    → All (λ d. d ≢ c) (body_of p)
body-free c p e e' n m = All-append _ (codes "name: ") _ (All-of-free c (codes "name: ") e) (
    All-append _ p.name _ n
      (All-append _ (codes ",phone: ") _ (All-of-free c (codes ",phone: ") e') m))

abbrev zeros : ℕ → List ℕ
zeros n = array n []

line-free : (p : Person) → Plain p → All (λ d. d ≢ 0) (line_of p)
line-free p v = subst (All (λ d. d ≢ 0)) (sym (line_of-body p)) (
    All-append _ (body_of p) (10 ∷ [])
      (body-free 0 p refl refl (All-mono _ _ p.name v.name (λ c h. h.0))
        (All-mono _ _ p.phone v.phone (λ c h. h.0)))
      ((λ e. omega (arith, e)), tt))

fgets-line_of :
    (p : Person) (rest : List ℕ)
    → Plain p
    → fgets (buffer_length - 1) (line_of p ++ rest) ≡ (line_of p, rest, false)
fgets-line_of p rest v =
    ap (λ w. fgets (buffer_length - 1) (w ++ rest)) (line_of-body p)
    ∙ ap (fgets (buffer_length - 1)) (append_assoc (body_of p) (10 ∷ []) rest)
    ∙ fgets-line 127 (body_of p) rest
        (body-free 10 p refl refl (All-mono _ _ p.name v.name (λ c h. h.1))
          (All-mono _ _ p.phone v.phone (λ c h. h.1)))
        (omega (
          arith,
          length-line_lt p v,
          ap length (line_of-body p),
          length-append (body_of p) (10 ∷ []),
        ))
    ∙ ap (λ w. (w, rest, false)) (sym (line_of-body p))

-- A line that holds a person is skipped.
load_line-skips :
    (m : Mallocs) (p : Person) (b : Book) → Plain p → load_line m (line_of p) b ≡ ok (none, m, b)
unfolding load_line
load_line-skips m p b v = rw (
  load_line,
  array-string buffer_length (line_of p) (line-free p v) (omega (arith, length-line_lt p v)),
  paraser_token-line p (replicate (buffer_length - length (line_of p)) 0) v,
)

load_line-blank :
    (m : Mallocs) (b : Book)
    → load_line m [] b ≡ load_node m (zeros name_length) (zeros phone_length) b
unfolding load_line c_string paraser_token
load_line-blank m b = refl

fgets-end : fgets (buffer_length - 1) [] ≡ ([], [], true)
unfolding fgets
fgets-end = refl

-- The last round, at the end of the file.
abbrev at_end : Option ℤ × Mallocs × Book → Run (ℤ × Book)
at_end (ret, m, b) = elim ret [ some code ↦ ok (code, b) | none ↦ ok (pos 0, b) ]

load_round-blank :
    (next : Mallocs → List ℕ → Book → Run (ℤ × Book)) (m : Mallocs) (b : Book)
    → load_round next m b ([], [], true)
      ≡ (load_node m (zeros name_length) (zeros phone_length) b >>= at_end)
unfolding load_round
load_round-blank next m b = rw (load_line-blank m b)

load_round-skips :
    (next : Mallocs → List ℕ → Book → Run (ℤ × Book)) (m : Mallocs) (b : Book) (p : Person)
    → (rest : List ℕ) → Plain p
    → load_round next m b (line_of p, rest, false) ≡ next m rest b
unfolding load_round
load_round-skips next m b p rest v = rw (load_line-skips m p b v)

load_lines-blank :
    (fuel : ℕ) (m : Mallocs) (ps : List Person) (b : Book)
    → All Plain ps
    → length ps < fuel
    → load_lines fuel m (lines ps) b
      ≡ (load_node m (zeros name_length) (zeros phone_length) b >>= at_end)
unfolding load_lines
load_lines-blank zero m ps b v l = absurd (omega arith)
load_lines-blank (suc fuel) m [] b v l = rw (fgets-end) (load_round-blank (load_lines fuel) m b)
load_lines-blank (suc fuel) m (p ∷ ps) b v l = rw (fgets-line_of p (lines ps) v.0) (
    load_round-skips (load_lines fuel) m b p (lines ps) v.0
    ∙ load_lines-blank fuel m ps b v.1 (omega arith))

length-lines : (ps : List Person) → length ps ≤ length (lines ps)
length-lines [] = omega arith
length-lines (p ∷ ps) = omega (
  arith,
  length-lines ps,
  length-append (line_of p) (lines ps),
  ap length (line_of-body p),
  length-append (body_of p) (10 ∷ []),
)

-- A file that save_entry wrote, of plain persons, is read to its end, but none of its persons enters
-- the book: load_entry puts one person in front, whose name and phone are empty. The node is new and
-- there is memory for it.
pub load_entry-blank :
    (b saved : Book) (xs : List Entry) (ps : List Person) (fresh : ℕ) (m : Mallocs) (word : List ℕ)
    → IsContact b xs
    → Holds saved ps
    → All Plain ps
    → fresh ≢ null
    → has fresh xs ≡ false
    → length word < name_length
    → (file : List ℕ) × (save_entry word true (some saved) ≡ ok (some saved, pos 0, some file))
      × Became
          (record { name = []; phone = [] } ∷ people xs)
          (pos 0)
          tt
          (load_entry word ((fresh, true) ∷ m) (some file) (some b))
unfolding load_entry load_book load_file load_node person_insert save_entry save_book save_file
    c_string
load_entry-blank b saved xs ps fresh m word v (ys, w, e) plain ne out l =
    let p : Person = record { name = []; phone = [] } in
    let put = list_insert-new b xs fresh p v ne out in
    (
      lines ps,
      rw (
        save_book,
        fits name_length word l,
        save_file,
        w.list.head,
        traversal_lines saved.heap null (saved.count + 1) ys w.list.chain (omega (arith, w.bound)),
        e,
      ),
      record {
        book = record { nnode = fresh; count = b.count + 1; heap = put.heap };
        done = rw (
          load_book,
          fits name_length word l,
          load_lines-blank (length (lines ps) + 1) ((fresh, true) ∷ m) ps b plain
              (omega (arith, length-lines ps)),
          load_node,
          ==_ne fresh null ne,
          put.done,
        );
        holds = ((fresh, p) ∷ xs, record { list = put.list; bound = omega (arith, v.bound) }, refl);
      },
    )
