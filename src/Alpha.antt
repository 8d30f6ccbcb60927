-- ===== src/Alpha.antt =====
-- 26Alpha_contact.c: the address book with a list for each initial letter. The list macros and the
-- functions `person_insert` and `person_search` are those of contact.c, word for word.
pub mod Index
mod Examples
use voice.Prelude.{
  ℕ, zero, suc, ◌+◌, ◌-◌, Bool, true, false, ◌&&◌, ◌||◌, Option, none, some, List, [], ◌∷◌, ◌++◌,
  ◌==◌, leb, ltb, if◌then◌else◌, length, replicate,
}
use voice.Prelude.Int.{ℤ, pos, negsuc}
use voice.Prelude.Run.{Run, ok, fault, out_of_fuel, of_option, ◌>>=◌}
use voice.Prelude.Text.{codes, c_string, scan_word}
use voice.Dll.{null, Node, Heap, write, load, list_remove}
use voice.Dll.Chain.{node}
use voice.Contact.{
  Person, name_length, phone_length, person_insert, person_search, line_of, person_traversal,
}
use voice.Contact.Token.{array, min_length, phone_part}
use voice.Contact.File.{fgets, buffer_length, Mallocs}

abbrev pub alpha_count : ℕ
alpha_count = 26

pub record AlphaBook : Type 0 where
  pub heads : ℕ → ℕ
  pub count : ℕ
  pub heap : Heap Person

abbrev pub set_head : (ℕ → ℕ) → ℕ → ℕ → ℕ → ℕ
set_head heads i p j = if i == j then p else heads j

-- `none` is -1.
unfoldable pub get_index_by_name : List ℕ → Option ℕ
get_index_by_name [] = none
get_index_by_name (ch ∷ name) =
    if leb 65 ch && leb ch 90
    then some (ch - 65)
    else if leb 97 ch && leb ch 122
    then some (ch - 97)
    else none

unfoldable pub alpha_delete : ℕ → ℕ → Heap Person → Run (ℤ × ℕ × Heap Person)
alpha_delete people ps h =
    if ps == null || people == null
    then ok (negsuc 0, people, h)
    else (do (head, h') ← list_remove ps people h; ok (pos 0, head, h'))

-- The guard `if (!cts) return -1` of every entry.
abbrev pub with_cts {ℓ} :
    {A : Type ℓ}
    → A
    → (AlphaBook → Run (AlphaBook × ℤ × A))
    → Option AlphaBook
    → Run (Option AlphaBook × ℤ × A)
with_cts nothing body none = ok (none, negsuc 0, nothing)
with_cts nothing body (some b) = body b >>= λ (b', ret, a). ok (some b', ret, a)

unfoldable pub alpha_insert :
    (fresh : ℕ)
    → (got_data : Bool) → (name phone : List ℕ) → AlphaBook
    → Run (AlphaBook × ℤ × Unit {0})
alpha_insert fresh got_data name phone b =
    if fresh == null
    then ok (b, negsuc 1, tt)
    else if got_data
    then (do
      name' ← scan_word name_length name
      phone' ← scan_word phone_length phone
      let p : Person = record { name = name'; phone = phone' }
      elim (get_index_by_name name') [
        | none ↦ ok (b, negsuc 3, tt)
        | some i ↦
            person_insert (b.heads i) fresh (write b.heap fresh (some (node p null null)))
            >>= λ (ret, head, h). ok (
              record { heads = set_head b.heads i head; count = b.count + 1; heap = h },
              pos 0,
              tt,
            )
      ])
    else ok (b, negsuc 2, tt)

-- The person that is searched for in the list of the name's letter, or the code -2 or -3.
unfoldable pub find_in : List ℕ → AlphaBook → Run (Option ℕ × ℕ)
find_in name b = elim (get_index_by_name name) [
  | none ↦ ok (none, null)
  | some i ↦ person_search (b.count + 1) (b.heads i) name b.heap >>= λ item. ok (some i, item)
]

-- "name: %s, phone: %s\n"
abbrev pub alpha_line_of : Person → List ℕ
alpha_line_of p = codes "name: " ++ (p.name ++ (codes ", phone: " ++ (p.phone ++ 10 ∷ [])))

unfoldable pub alpha_traversal : ℕ → ℕ → Heap Person → Run (List ℕ)
alpha_traversal zero item h = out_of_fuel
alpha_traversal (suc fuel) item h = elim (item == null) [
  | true ↦ ok []
  | false ↦ load item h >>= λ n.
      alpha_traversal fuel n.next h >>= λ rest. ok (alpha_line_of n.payload ++ rest)
]

-- The letters that are printed, each with its lines.
unfoldable pub print_from : ℕ → ℕ → AlphaBook → Run (List (ℕ × List ℕ))
unfolding alpha_traversal
print_from zero i b = ok []
print_from (suc n) i b =
    let rest = print_from n (suc i) b in
    if b.heads i == null
    then rest
    else (alpha_traversal (b.count + 1) (b.heads i) b.heap >>= λ text.
        rest >>= λ more. ok ((65 + i, text) ∷ more))

unfoldable pub alpha_search : List ℕ → AlphaBook → Run (AlphaBook × ℤ × Option (List ℕ))
unfolding find_in
alpha_search word b = do
  name ← scan_word name_length word
  (index, item) ← find_in name b
  elim index [
    | none ↦ ok (b, negsuc 1, none)
    | some i ↦
        if item == null
        then ok (b, negsuc 2, none)
        else (load item b.heap >>= λ n. ok (b, pos 0, some (alpha_line_of n.payload)))
  ]

unfoldable pub alpha_remove : List ℕ → AlphaBook → Run (AlphaBook × ℤ × Unit {0})
unfolding find_in alpha_delete
alpha_remove word b = do
  name ← scan_word name_length word
  (index, item) ← find_in name b
  elim index [
    | none ↦ ok (b, negsuc 1, tt)
    | some i ↦
        if item == null
        then ok (b, negsuc 2, tt)
        else (alpha_delete (b.heads i) item b.heap >>= λ (ret, head, h).
            ok (record b { heads = set_head b.heads i head; heap = write h item none }, pos 0, tt))
  ]

-- What the loops of save_entry write: the lists of the letters from `i` on.
unfoldable pub save_from : ℕ → ℕ → AlphaBook → Run (List ℕ)
save_from zero i b = ok []
save_from (suc n) i b = person_traversal (b.count + 1) (b.heads i) b.heap >>= λ text.
    save_from n (suc i) b >>= λ rest. ok (text ++ rest)

unfoldable pub alpha_save : List ℕ → Bool → AlphaBook → Run (AlphaBook × ℤ × Option (List ℕ))
unfolding save_from
alpha_save word opened b = do
  filename ← scan_word name_length word
  (if opened
      then (save_from alpha_count 0 b >>= λ text. ok (b, pos 0, some text))
      else ok (b, negsuc 1, none))

-- The first loop of this paraser_token, which also stops after `n` bytes: what is written, how many
-- bytes are left, and the buffer from there.
unfoldable pub name_loop : ℕ → Bool → ℕ → List ℕ → Run (List ℕ × ℕ × List ℕ)
name_loop room status n [] = fault
name_loop room status zero (c ∷ s) = ok ([], zero, c ∷ s)
name_loop room status (suc n) (c ∷ s) = elim (c == 44) [
  | true ↦ ok ([], suc n, c ∷ s)
  | false ↦ elim (c == 32) [
    | true ↦ name_loop room true n s
    | false ↦ elim status [
      | false ↦ name_loop room false n s
      | true ↦ elim room [
        | zero ↦ fault
        | suc room' ↦ name_loop room' true n s >>= λ (w, left, rest). ok (c ∷ w, left, rest)
      ]
    ]
  ]
]

unfoldable pub alpha_token : List ℕ → ℕ → Run (ℤ × List ℕ × List ℕ)
unfolding name_loop
alpha_token buffer len =
    if ltb len min_length then ok (negsuc 0, array name_length [], array phone_length []) else (do
      (name, left, rest) ← name_loop name_length false len buffer
      phone ← phone_part phone_length false left rest
      printed ← of_option (c_string (array name_length name))
      printed' ← of_option (c_string (array phone_length phone))
      ok (pos 0, array name_length name, array phone_length phone))

-- The part of load_entry's loop behind the two `continue`s: the code it returns with, if it does.
unfoldable pub alpha_node :
    Mallocs → ℕ → List ℕ → List ℕ → AlphaBook → Run (Option ℤ × Mallocs × AlphaBook)
alpha_node [] i name phone b = ok (some (negsuc 2), [], b)
alpha_node ((fresh, got_data) ∷ m) i name phone b =
    if fresh == null
    then ok (some (negsuc 2), m, b)
    else if got_data
    then (do
      phone' ← of_option (c_string phone)
      let p : Person = record { name = name; phone = phone' }
      (ret, head, h) ←
          person_insert (b.heads i) fresh (write b.heap fresh (some (node p null null)))
      ok (none, m, record { heads = set_head b.heads i head; count = b.count + 1; heap = h }))
    else ok (some (negsuc 3), m, b)

unfoldable pub alpha_line : Mallocs → List ℕ → AlphaBook → Run (Option ℤ × Mallocs × AlphaBook)
unfolding alpha_token alpha_node
alpha_line m line b = do
  let buffer = line ++ replicate (buffer_length - length line) 0
  text ← of_option (c_string buffer)
  (ret, name, phone) ← alpha_token buffer (length text)
  elim ret [
    | pos zero ↦ of_option (c_string name) >>= λ name'. elim (get_index_by_name name') [
      | none ↦ ok (none, m, b)
      | some i ↦ alpha_node m i name' phone b
    ]
    | _ ↦ ok (none, m, b)
  ]

unfoldable pub alpha_round :
    (Mallocs → List ℕ → AlphaBook → Run (ℤ × AlphaBook))
    → Mallocs
    → AlphaBook
    → List ℕ × List ℕ × Bool
    → Run (ℤ × AlphaBook)
unfolding alpha_line
alpha_round next m b (line, rest, eof) = alpha_line m line b >>= λ (ret, m', b'). elim ret [
  | some code ↦ ok (code, b')
  | none ↦ elim eof [ true ↦ ok (pos 0, b') | false ↦ next m' rest b' ]
]

unfoldable pub alpha_lines : ℕ → Mallocs → List ℕ → AlphaBook → Run (ℤ × AlphaBook)
alpha_lines zero m file b = out_of_fuel
alpha_lines (suc fuel) m file b =
    alpha_round (alpha_lines fuel) m b (fgets (buffer_length - 1) file)

unfoldable pub alpha_load :
    List ℕ → Mallocs → Option (List ℕ) → AlphaBook → Run (AlphaBook × ℤ × Unit {0})
unfolding alpha_lines
alpha_load word m none b = scan_word name_length word >>= λ filename. ok (b, negsuc 1, tt)
alpha_load word m (some file) b = do
  filename ← scan_word name_length word
  (ret, b') ← alpha_lines (length file + 1) m file b
  ok (b', ret, tt)

unfoldable pub alpha_insert_entry :
    (fresh : ℕ)
    → (got_data : Bool) → (name phone : List ℕ) → Option AlphaBook
    → Run (Option AlphaBook × ℤ × Unit {0})
unfolding alpha_insert
alpha_insert_entry fresh got_data name phone = with_cts tt (alpha_insert fresh got_data name phone)

unfoldable pub alpha_print_entry : Option AlphaBook → Run (Option AlphaBook × ℤ × List (ℕ × List ℕ))
unfolding print_from
alpha_print_entry = with_cts [] (λ b. print_from alpha_count 0 b >>= λ text. ok (b, pos 0, text))

unfoldable pub alpha_delete_entry :
    List ℕ → Option AlphaBook → Run (Option AlphaBook × ℤ × Unit {0})
unfolding alpha_remove
alpha_delete_entry word = with_cts tt (alpha_remove word)

unfoldable pub alpha_search_entry :
    List ℕ → Option AlphaBook → Run (Option AlphaBook × ℤ × Option (List ℕ))
unfolding alpha_search
alpha_search_entry word = with_cts none (alpha_search word)

unfoldable pub alpha_save_entry :
    List ℕ → Bool → Option AlphaBook → Run (Option AlphaBook × ℤ × Option (List ℕ))
unfolding alpha_save
alpha_save_entry word opened = with_cts none (alpha_save word opened)

unfoldable pub alpha_load_entry :
    List ℕ → Mallocs → Option (List ℕ) → Option AlphaBook → Run (Option AlphaBook × ℤ × Unit {0})
unfolding alpha_load
alpha_load_entry word m file = with_cts tt (alpha_load word m file)
