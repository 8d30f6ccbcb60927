-- ===== src/Contact.antt =====
-- contact.c: the list of persons and the entries of the menu. Memory is a heap of nodes, each with
-- its person; what `malloc` returns and what the user types are arguments.
pub mod Entries
mod Examples
pub mod Token
pub mod File
use voice.Prelude.{
  ℕ, zero, suc, ◌+◌, Bool, true, false, Option, none, some, List, [], ◌∷◌, ◌++◌, ◌==◌,
  if◌then◌else◌,
}
use voice.Prelude.Int.{ℤ, pos, negsuc}
use voice.Prelude.Run.{Run, ok, fault, out_of_fuel, ◌>>=◌}
use voice.Prelude.Text.{codes, str_eq, scan_word}
use voice.Dll.{null, Node, Heap, write, load, list_insert, list_remove}
use voice.Dll.Chain.{node}

pub record Person : Type 0 where
  pub name : List ℕ
  pub phone : List ℕ

abbrev pub name_length : ℕ
name_length = 15

abbrev pub phone_length : ℕ
phone_length = 20

-- struct contact, with the memory behind it.
pub record Book : Type 0 where
  pub nnode : ℕ
  pub count : ℕ
  pub heap : Heap Person

-- The return code, the new head and the heap.
unfoldable pub person_insert : ℕ → ℕ → Heap Person → Run (ℤ × ℕ × Heap Person)
person_insert people ps h =
    if ps == null
    then ok (negsuc 0, people, h)
    else (do (head, h') ← list_insert ps people h; ok (pos 0, head, h'))

unfoldable pub person_delete : ℕ → ℕ → Heap Person → Run (ℤ × ℕ × Heap Person)
person_delete people ps h =
    if ps == null
    then ok (negsuc 0, people, h)
    else if people == null
    then ok (negsuc 1, people, h)
    else (do (head, h') ← list_remove ps people h; ok (pos 0, head, h'))

-- The first node with the name, or NULL.
unfoldable pub person_search : ℕ → ℕ → List ℕ → Heap Person → Run ℕ
person_search zero item name h = out_of_fuel
person_search (suc fuel) item name h = elim (item == null) [
  | true ↦ ok null
  | false ↦ load item h >>= λ n. elim (str_eq n.payload.name name) [
    | true ↦ ok item
    | false ↦ person_search fuel n.next name h
  ]
]

-- "name: %s,phone: %s\n"
abbrev pub line_of : Person → List ℕ
line_of p = codes "name: " ++ (p.name ++ (codes ",phone: " ++ (p.phone ++ 10 ∷ [])))

-- What the loops of `person_traversal` and `save_file` write.
unfoldable pub person_traversal : ℕ → ℕ → Heap Person → Run (List ℕ)
person_traversal zero item h = out_of_fuel
person_traversal (suc fuel) item h = elim (item == null) [
  | true ↦ ok []
  | false ↦
      load item h >>= λ n. person_traversal fuel n.next h >>= λ rest. ok (line_of n.payload ++ rest)
]

-- The guard `if (!cts) return -1` of every entry.
abbrev pub with_book {ℓ} :
    {A : Type ℓ} → A → (Book → Run (Book × ℤ × A)) → Option Book → Run (Option Book × ℤ × A)
with_book nothing body none = ok (none, negsuc 0, nothing)
with_book nothing body (some b) = body b >>= λ (b', ret, a). ok (some b', ret, a)

-- The two calls of `malloc` return `fresh`, and memory for the person if `got_data`.
unfoldable pub insert_book :
    (fresh : ℕ) → (got_data : Bool) → (name phone : List ℕ) → Book → Run (Book × ℤ × Unit {0})
insert_book fresh got_data name phone b =
    if fresh == null
    then ok (b, negsuc 1, tt)
    else if got_data
    then (do
      name' ← scan_word name_length name
      phone' ← scan_word phone_length phone
      let p : Person = record { name = name'; phone = phone' }
      (ret, head, h) ← person_insert b.nnode fresh (write b.heap fresh (some (node p null null)))
      elim ret [
        | pos zero ↦ ok (record b { nnode = head; count = b.count + 1; heap = h }, pos 0, tt)
        | _ ↦ ok (record b { nnode = head; heap = write h fresh none }, negsuc 3, tt)
      ])
    else ok (b, negsuc 2, tt)

unfoldable pub insert_entry :
    (fresh : ℕ)
    → (got_data : Bool) → (name phone : List ℕ) → Option Book
    → Run (Option Book × ℤ × Unit {0})
unfolding insert_book
insert_entry fresh got_data name phone = with_book tt (insert_book fresh got_data name phone)

-- `count` is left as it is.
unfoldable pub delete_book : List ℕ → Book → Run (Book × ℤ × Unit {0})
delete_book word b = do
  name ← scan_word name_length word
  item ← person_search (b.count + 1) b.nnode name b.heap
  (if item == null then ok (b, negsuc 1, tt) else (do
    (ret, head, h) ← person_delete b.nnode item b.heap
    ok (record b { nnode = head; heap = write h item none }, pos 0, tt)))

unfoldable pub delete_entry : List ℕ → Option Book → Run (Option Book × ℤ × Unit {0})
unfolding delete_book
delete_entry word = with_book tt (delete_book word)

-- The line that is printed, if there is one.
unfoldable pub search_book : List ℕ → Book → Run (Book × ℤ × Option (List ℕ))
search_book word b = do
  name ← scan_word name_length word
  item ← person_search (b.count + 1) b.nnode name b.heap
  (if item == null
      then ok (b, negsuc 1, none)
      else (load item b.heap >>= λ n. ok (b, pos 0, some (line_of n.payload))))

unfoldable pub search_entry : List ℕ → Option Book → Run (Option Book × ℤ × Option (List ℕ))
unfolding search_book
search_entry word = with_book none (search_book word)

unfoldable pub print_book : Book → Run (Book × ℤ × List ℕ)
print_book b = person_traversal (b.count + 1) b.nnode b.heap >>= λ text. ok (b, pos 0, text)

unfoldable pub print_entry : Option Book → Run (Option Book × ℤ × List ℕ)
unfolding print_book
print_entry = with_book [] print_book
