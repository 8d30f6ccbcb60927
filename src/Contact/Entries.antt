-- ===== src/Contact/Entries.antt =====
-- What the entries of contact.c do to the address book, seen as a list of persons.
use voice.Prelude.{
  ℕ, zero, suc, ◌+◌, ◌≤◌, ◌<◌, ◌≡◌, ◌≢◌, refl, ap, sym, subst, true, false, Option, none, some,
  List, [], ◌∷◌, ◌++◌, map, arith, ◌==◌, ==_ne, if◌then◌else◌, length, length-append, lt→ltb,
  Bool-cases, ◌⊎◌, inl, inr,
}
use voice.Prelude.Int.{ℤ, pos, negsuc}
use voice.Prelude.Run.{Run, ok}
use voice.Prelude.Text.{str_eq, scan_word}
use voice.Dll.{null, Heap, write, list_insert}
use voice.Dll.Chain.{node, first, last, has, Chain, IsList, Chain-frame, Chain-back, ne-of-has}
use voice.Dll.Insert.{load-some, write_self, Inserted, list_insert-cons}
use voice.Dll.Remove.{list_remove-append}
use voice.Contact.{
  Person, Book, name_length, phone_length, person_insert, person_delete, person_search,
  person_traversal, line_of, insert_book, insert_entry, delete_book, delete_entry, search_book,
  search_entry, print_book, print_entry,
}

abbrev pub Entry : Type 0
Entry = ℕ × Person

abbrev pub person_of : Entry → Person
person_of (a, p) = p

abbrev pub people : List Entry → List Person
people = map person_of

-- The first person with the name.
abbrev pub lookup : List ℕ → List Person → Option Person
lookup name [] = none
lookup name (p ∷ ps) = if str_eq p.name name then some p else lookup name ps

-- The list without that person.
abbrev pub erase : List ℕ → List Person → List Person
erase name [] = []
erase name (p ∷ ps) = if str_eq p.name name then ps else p ∷ erase name ps

abbrev pub lines : List Person → List ℕ
lines [] = []
lines (p ∷ ps) = line_of p ++ lines ps

-- The list in memory and its bound; `count` may be too large.
pub record IsContact (b : Book) (xs : List Entry) : Type 0 where
  pub list : IsList b.heap b.nnode xs
  pub bound : length xs ≤ b.count

-- The book stands for these persons, in the order of the list.
abbrev pub Holds : Book → List Person → Type 0
Holds b ps = (xs : List Entry) × IsContact b xs × (people xs ≡ ps)

pub fits : (cap : ℕ) (word : List ℕ) → length word < cap → scan_word cap word ≡ ok word
unfolding scan_word
fits cap word h = rw (lt→ltb (length word) cap h)

-- Where the first person with the name stands.
pub record Found (name : List ℕ) (xs : List Entry) : Type 0 where
  pub front : List Entry
  pub address : ℕ
  pub person : Person
  pub back : List Entry
  pub split : xs ≡ front ++ (address, person) ∷ back
  pub looked_up : lookup name (people xs) ≡ some person
  pub erased : erase name (people xs) ≡ people (front ++ back)

pub record Missing (name : List ℕ) (xs : List Entry) : Type 0 where
  pub looked_up : lookup name (people xs) ≡ none
  pub erased : erase name (people xs) ≡ people xs

-- The search answers the first match, or NULL.
abbrev pub Searched : Heap Person → ℕ → ℕ → List ℕ → List Entry → Type 0
Searched h b fuel name xs =
    ((f : Found name xs) × (person_search fuel (first null xs) name h ≡ ok f.address))
    ⊎ (Missing name xs × (person_search fuel (first null xs) name h ≡ ok null))

step :
    (h : Heap Person) (fuel a b : ℕ) (p : Person) (name : List ℕ) (xs : List Entry)
    → Chain h b null ((a, p) ∷ xs)
    → person_search (suc fuel) a name h
      ≡ (if str_eq p.name name then ok a else person_search fuel (first null xs) name h)
unfolding person_search str_eq
step h fuel a b p name xs c =
    rw (person_search, ==_ne a null c.0, load-some a _ h c.0 c.1)
      (elim (Bool-cases (str_eq p.name name)) [ inl e ↦ rw (e) | inr e ↦ rw (e) ])

pub search_cases :
    (h : Heap Person) (b fuel : ℕ) (name : List ℕ) (xs : List Entry)
    → Chain h b null xs
    → length xs < fuel
    → Searched h b fuel name xs
unfolding person_search
search_cases h b zero name xs c l = absurd (omega arith)
search_cases h b (suc fuel) name [] c l = inr (record { looked_up = refl; erased = refl }, refl)
search_cases h b (suc fuel) name ((a, p) ∷ xs) c l = elim (Bool-cases (str_eq p.name name)) [
  | inl e ↦ inl (
    record {
      front = [];
      address = a;
      person = p;
      back = xs;
      split = refl;
      looked_up = rw (e);
      erased = rw (e);
    },
    rw (step h fuel a b p name xs c, e),
  )
  | inr e ↦ elim (search_cases h a fuel name xs c.3 (omega arith)) [
    | inl (f, r) ↦ inl (
      record {
        front = (a, p) ∷ f.front;
        address = f.address;
        person = f.person;
        back = f.back;
        split = ap (◌∷◌ (a, p)) f.split;
        looked_up = rw (e) (f.looked_up);
        erased = rw (e) (ap (◌∷◌ p) f.erased);
      },
      rw (step h fuel a b p name xs c, e) r,
    )
    | inr (m, r) ↦ inr (
      record { looked_up = rw (e) (m.looked_up); erased = rw (e) (ap (◌∷◌ p) m.erased) },
      rw (step h fuel a b p name xs c, e) r,
    )
  ]
]

-- What `search_entry` answers and prints, from the persons alone.
abbrev pub answer : Option Person → ℤ × Option (List ℕ)
answer none = (negsuc 1, none)
answer (some p) = (pos 0, some (line_of p))

-- What `delete_entry` answers.
abbrev pub deleted : Option Person → ℤ
deleted none = negsuc 1
deleted (some p) = pos 0

-- The cell of a list at its place.
pub in_place :
    (h : Heap Person) (xs front : List Entry) (a : ℕ) (p : Person) (back : List Entry)
    → Chain h null null xs
    → xs ≡ front ++ (a, p) ∷ back
    → (a ≢ null) × (h a ≡ some (node p (first null back) (last null front)))
in_place h xs front a p back c e =
    let k = Chain-back h null null front ((a, p) ∷ back) (subst (Chain h null null) e c) in
    (k.0, k.1)

pub traversal_lines :
    (h : Heap Person) (b fuel : ℕ) (xs : List Entry)
    → Chain h b null xs
    → length xs < fuel
    → person_traversal fuel (first null xs) h ≡ ok (lines (people xs))
unfolding person_traversal
traversal_lines h b zero xs c l = absurd (omega arith)
traversal_lines h b (suc fuel) [] c l = refl
traversal_lines h b (suc fuel) ((a, p) ∷ xs) c l = rw (
  person_traversal,
  ==_ne a null c.0,
  load-some a _ h c.0 c.1,
  traversal_lines h a fuel xs c.3 (omega arith),
)

-- With a name that fits its array, search_entry leaves the book as it is and answers the first person
-- with the name, or -2 where there is none; the list is walked within its memory.
pub search_entry-lookup :
    (b : Book) (ps : List Person) (name : List ℕ)
    → Holds b ps
    → length name < name_length
    → search_entry name (some b)
      ≡ ok (some b, (answer (lookup name ps)).0, (answer (lookup name ps)).1)
unfolding search_entry search_book
search_entry-lookup b ps name (xs, v, e) l =
    rw (fits name_length name l, v.list.head, sym e)
      (elim (search_cases b.heap null (b.count + 1) name xs v.list.chain (omega (arith, v.bound))) [
        | inl (f, r) ↦
            let c = in_place b.heap xs f.front f.address f.person f.back v.list.chain f.split in
            rw (r, f.looked_up, ==_ne f.address null c.0, load-some f.address _ b.heap c.0 c.1) refl
        | inr (m, r) ↦ rw (r, m.looked_up) refl
      ])

-- print_entry prints one line for each person, in the order of the list.
pub print_entry-lines :
    (b : Book) (ps : List Person) → Holds b ps → print_entry (some b) ≡ ok (some b, pos 0, lines ps)
unfolding print_entry print_book
print_entry-lines b ps (xs, v, e) = rw (
  v.list.head,
  traversal_lines b.heap null (b.count + 1) xs v.list.chain (omega (arith, v.bound)),
  e,
)

-- What an entry leaves: the new book, and what it stands for.
pub record Became {ℓ} {A : Type ℓ} (ps : List Person) (ret : ℤ) (out : A)
    (r : Run (Option Book × ℤ × A)) : Type ℓ where
  pub book : Book
  pub done : r ≡ ok (some book, ret, out)
  pub holds : Holds book ps

abbrev pub with_node : Book → ℕ → Person → Heap Person
with_node b fresh p = write b.heap fresh (some (node p null null))

pub list_insert-new :
    (b : Book) (xs : List Entry) (fresh : ℕ) (p : Person)
    → IsContact b xs
    → fresh ≢ null
    → has fresh xs ≡ false
    → Inserted (with_node b fresh p) fresh p xs (list_insert fresh b.nnode (with_node b fresh p))
list_insert-new b xs fresh p v ne out =
    list_insert-cons (with_node b fresh p) b.nnode fresh (node p null null) xs
      (record {
        head = v.list.head;
        chain =
            Chain-frame b.heap (with_node b fresh p) null null xs
              (λ q i. rw (==_ne fresh q (λ e. ne-of-has fresh q xs out i (sym e)))) v.list.chain;
      })
      ne (write_self b.heap fresh _) out

-- A new node, with memory for it, enters the book in front, if its address is not in use and the two
-- words fit their arrays.
pub insert_entry-cons :
    (b : Book) (xs : List Entry) (fresh : ℕ) (name phone : List ℕ)
    → IsContact b xs
    → fresh ≢ null
    → has fresh xs ≡ false
    → length name < name_length
    → length phone < phone_length
    → Became
        (record { name = name; phone = phone } ∷ people xs)
        (pos 0)
        tt
        (insert_entry fresh true name phone (some b))
unfolding insert_entry insert_book person_insert
insert_entry-cons b xs fresh name phone v ne out l m =
    let p : Person = record { name = name; phone = phone } in
    let put = list_insert-new b xs fresh p v ne out in
    record {
      book = record { nnode = fresh; count = b.count + 1; heap = put.heap };
      done = rw (
        insert_book,
        ==_ne fresh null ne,
        fits name_length name l,
        fits phone_length phone m,
        put.done,
      );
      holds = ((fresh, p) ∷ xs, record { list = put.list; bound = omega (arith, v.bound) }, refl);
    }

head_ne :
    (b : Book) (xs front : List Entry) (a : ℕ) (p : Person) (back : List Entry)
    → IsContact b xs
    → xs ≡ front ++ (a, p) ∷ back
    → (b.nnode == null) ≡ false
head_ne b [] [] a p back v e = cc
head_ne b [] (y ∷ front) a p back v e = cc
head_ne b ((x, q) ∷ xs) front a p back v e = rw (v.list.head) (==_ne x null v.list.chain.0)

-- delete_entry takes the first person with the name out of the book, and answers -2 where there is
-- none; the name fits its array.
pub delete_entry-erase :
    (b : Book) (ps : List Person) (name : List ℕ)
    → Holds b ps
    → length name < name_length
    → Became (erase name ps) (deleted (lookup name ps)) tt (delete_entry name (some b))
unfolding delete_entry delete_book person_delete
delete_entry-erase b ps name (xs, v, e) l =
    elim (search_cases b.heap null (b.count + 1) name xs v.list.chain (omega (arith, v.bound))) [
      | inl (f, r) ↦
          let rm =
            list_remove-append b.heap b.nnode f.address f.person f.front f.back
              (subst (IsList b.heap b.nnode) f.split v.list) in
          let c = in_place b.heap xs f.front f.address f.person f.back v.list.chain f.split in
          record {
            book = record b {
              nnode = first null (f.front ++ f.back);
              heap = write rm.heap f.address none;
            };
            done = rw (
              delete_book,
              fits name_length name l,
              v.list.head,
              r,
              ==_ne f.address null c.0,
              sym v.list.head,
              head_ne b xs f.front f.address f.person f.back v f.split,
              rm.done,
              sym e,
              f.looked_up,
            );
            holds = (
              f.front ++ f.back,
              record {
                list = record {
                  head = refl;
                  chain =
                      Chain-frame rm.heap _ null null (f.front ++ f.back)
                        (λ q i.
                          rw (==_ne f.address q (λ k. ne-of-has f.address q _ rm.out i (sym k))))
                        rm.list.chain;
                };
                bound = omega (
                  arith,
                  v.bound,
                  ap length f.split,
                  length-append f.front ((f.address, f.person) ∷ f.back),
                  length-append f.front f.back,
                );
              },
              rw (sym e) (sym f.erased),
            );
          }
      | inr (m, r) ↦ record {
        book = b;
        done = rw (delete_book, fits name_length name l, v.list.head, r, sym e, m.looked_up);
        holds = (xs, v, rw (sym e) (sym m.erased));
      }
    ]
