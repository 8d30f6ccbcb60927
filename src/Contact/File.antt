-- ===== src/Contact/File.antt =====
-- contact.c: save_file, load_file, their entries and the menu.
pub mod Load
use voice.Prelude.{
  ℕ, zero, suc, ◌+◌, ◌-◌, Bool, true, false, Option, none, some, List, [], ◌∷◌, ◌++◌, ◌==◌,
  if◌then◌else◌, length, replicate,
}
use voice.Prelude.Int.{ℤ, pos, negsuc}
use voice.Prelude.Run.{Run, ok, fault, out_of_fuel, of_option, ◌>>=◌}
use voice.Prelude.Text.{c_string, scan_word}
use voice.Dll.{null, Node, Heap, write}
use voice.Dll.Chain.{node}
use voice.Contact.{
  Person, Book, name_length, phone_length, person_insert, person_traversal, with_book, insert_entry,
  delete_entry, search_entry, print_entry,
}
use voice.Contact.Token.{paraser_token}

abbrev pub buffer_length : ℕ
buffer_length = 128

-- What `fgets` reads with room for so many bytes, the rest of the file, and whether it met its end.
unfoldable pub fgets : ℕ → List ℕ → List ℕ × List ℕ × Bool
fgets zero s = ([], s, false)
fgets (suc n) [] = ([], [], true)
fgets (suc n) (c ∷ s) =
    let (l, rest, eof) = fgets n s in if c == 10 then (c ∷ [], s, false) else (c ∷ l, rest, eof)

-- The loop writes what `person_traversal` prints; `opened` is the answer of `fopen`.
unfoldable pub save_file : Bool → Book → Run (Option (List ℕ))
save_file opened b =
    if opened
    then (person_traversal (b.count + 1) b.nnode b.heap >>= λ text. ok (some text))
    else ok none

unfoldable pub save_book : List ℕ → Bool → Book → Run (Book × ℤ × Option (List ℕ))
unfolding save_file
save_book word opened b = do
  filename ← scan_word name_length word
  text ← save_file opened b
  ok (b, pos 0, text)

unfoldable pub save_entry : List ℕ → Bool → Option Book → Run (Option Book × ℤ × Option (List ℕ))
unfolding save_book
save_entry word opened = with_book none (save_book word opened)

-- The answers of `malloc` to come: the node's address, and whether there is memory for its person.
abbrev pub Mallocs : Type 0
Mallocs = List (ℕ × Bool)

-- The part of the loop behind the `continue`: the code it returns with, if it does.
unfoldable pub load_node : Mallocs → List ℕ → List ℕ → Book → Run (Option ℤ × Mallocs × Book)
load_node [] name phone b = ok (some (negsuc 1), [], b)
load_node ((fresh, got_data) ∷ m) name phone b =
    if fresh == null
    then ok (some (negsuc 1), m, b)
    else if got_data
    then (do
      name' ← of_option (c_string name)
      phone' ← of_option (c_string phone)
      let p : Person = record { name = name'; phone = phone' }
      (ret, head, h) ← person_insert b.nnode fresh (write b.heap fresh (some (node p null null)))
      ok (none, m, record b { nnode = head; count = b.count + 1; heap = h }))
    else ok (some (negsuc 2), m, b)

-- A round of the loop: `if (!paraser_token(...)) continue;`.
unfoldable pub load_line : Mallocs → List ℕ → Book → Run (Option ℤ × Mallocs × Book)
unfolding load_node
load_line m line b = do
  let buffer = line ++ replicate (buffer_length - length line) 0
  text ← of_option (c_string buffer)
  (ret, name, phone) ← paraser_token buffer (length text)
  elim ret [ pos zero ↦ ok (none, m, b) | _ ↦ load_node m name phone b ]

-- What a round does with the line it read; `next` is the rest of the loop.
unfoldable pub load_round :
    (Mallocs → List ℕ → Book → Run (ℤ × Book))
    → Mallocs
    → Book
    → List ℕ × List ℕ × Bool
    → Run (ℤ × Book)
unfolding load_line
load_round next m b (line, rest, eof) = load_line m line b >>= λ (ret, m', b'). elim ret [
  | some code ↦ ok (code, b')
  | none ↦ elim eof [ true ↦ ok (pos 0, b') | false ↦ next m' rest b' ]
]

unfoldable pub load_lines : ℕ → Mallocs → List ℕ → Book → Run (ℤ × Book)
load_lines zero m file b = out_of_fuel
load_lines (suc fuel) m file b = load_round (load_lines fuel) m b (fgets (buffer_length - 1) file)

-- `file` is what the file holds, if it can be opened. Each round reads a byte or meets the end.
unfoldable pub load_file : Mallocs → Option (List ℕ) → Book → Run (ℤ × Book)
unfolding load_lines
load_file m none b = ok (negsuc 0, b)
load_file m (some file) b = load_lines (length file + 1) m file b

-- What `load_file` answers is not looked at.
unfoldable pub load_book : List ℕ → Mallocs → Option (List ℕ) → Book → Run (Book × ℤ × Unit {0})
unfolding load_file
load_book word m file b = do
  filename ← scan_word name_length word
  (ret, b') ← load_file m file b
  ok (b', pos 0, tt)

unfoldable pub load_entry :
    List ℕ → Mallocs → Option (List ℕ) → Option Book → Run (Option Book × ℤ × Unit {0})
unfolding load_book
load_entry word m file = with_book tt (load_book word m file)

-- An empty book, as main allocates it.
abbrev pub new_book : Book
new_book = record { nnode = null; count = 0; heap = λ p. none }
