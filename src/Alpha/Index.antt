-- ===== src/Alpha/Index.antt =====
-- The lists of the letters: every person stands in the list of the initial, so a search there is enough.
use voice.Prelude.{
  ℕ, ◌+◌, ◌≤◌, ◌<◌, ◌≡◌, ◌≢◌, ap, sym, subst, ◌∙◌, true, false, none, some, List, [], ◌∷◌, arith,
  ◌==◌, ==_ne, if◌then◌else◌, length, All, Bool-cases, some_injective, inl, inr,
}
use voice.Prelude.Int.{pos}
use voice.Prelude.Run.{ok}
use voice.Prelude.Text.{str_eq, eq-of-str_eq}
use voice.Dll.{null, Heap, write, list_insert}
use voice.Dll.Chain.{node, has, IsList, Chain-frame, ne-of-has}
use voice.Dll.Insert.{load-some, write_self, Inserted, list_insert-cons}
use voice.Contact.{Person, name_length, phone_length, person_insert}
use voice.Contact.Entries.{Entry, people, lookup, fits, in_place, search_cases}
use voice.Alpha.{
  AlphaBook, alpha_count, get_index_by_name, find_in, alpha_search, alpha_search_entry,
  alpha_line_of, set_head, alpha_insert, alpha_insert_entry,
}

-- The list of each letter, no node in two of them, and every name under its index.
pub record IsAlpha (b : AlphaBook) (lists : ℕ → List Entry) : Type 0 where
  pub list : (i : ℕ) → IsList b.heap (b.heads i) (lists i)
  pub bound : (i : ℕ) → length (lists i) ≤ b.count
  pub apart : (i j p : ℕ) → i ≢ j → has p (lists i) ≡ true → has p (lists j) ≡ false
  pub filed : (i : ℕ) → All (λ p. get_index_by_name p.name ≡ some i) (people (lists i))

-- The index is one of the 26.
pub get_index_by_name_lt :
    (name : List ℕ) (i : ℕ) → get_index_by_name name ≡ some i → i < alpha_count
unfolding get_index_by_name
get_index_by_name_lt [] i e = cc
get_index_by_name_lt (ch ∷ name) i e = ground arith

lookup_other :
    (name : List ℕ) (q : Person) (ps : List Person)
    → str_eq q.name name ≡ false
    → lookup name (q ∷ ps) ≡ lookup name ps
lookup_other name q ps e = rw (e)

lookup-filed :
    (name : List ℕ) (i : ℕ) (ps : List Person) (p : Person)
    → All (λ q. get_index_by_name q.name ≡ some i) ps
    → lookup name ps ≡ some p
    → get_index_by_name name ≡ some i
lookup-filed name i [] p h e = cc
lookup-filed name i (q ∷ ps) p h e = elim (Bool-cases (str_eq q.name name)) [
  | inl same ↦ ap get_index_by_name (sym (eq-of-str_eq q.name name same)) ∙ h.0
  | inr other ↦ lookup-filed name i ps p h.1 (sym (lookup_other name q ps other) ∙ e)
]

none_ne : {p : Person} → none ≡ some p → ⊥
none_ne e = cc

-- A person who is in any of the lists is found by the name, whatever letter the list is of: the search
-- in the list of the initial is enough. The name fits its array.
pub alpha_search_entry-lookup :
    (b : AlphaBook) (lists : ℕ → List Entry) (j : ℕ) (name : List ℕ) (p : Person)
    → IsAlpha b lists
    → length name < name_length
    → lookup name (people (lists j)) ≡ some p
    → alpha_search_entry name (some b) ≡ ok (some b, pos 0, some (alpha_line_of p))
unfolding alpha_search_entry alpha_search find_in
alpha_search_entry-lookup b lists j name p v l e =
    let index = lookup-filed name j (people (lists j)) p (v.filed j) e in
    elim (search_cases b.heap null (b.count + 1) name (lists j) (v.list j).chain
      (omega (arith, v.bound j))) [
        | inl (f, r) ↦
            let c =
              in_place b.heap (lists j) f.front f.address f.person f.back (v.list j).chain
                f.split in
            let same : f.person ≡ p = some_injective (sym f.looked_up ∙ e) in
            rw (
              alpha_search,
              fits name_length name l,
              find_in,
              index,
              (v.list j).head,
              r,
              ==_ne f.address null c.0,
              load-some f.address _ b.heap c.0 c.1,
              same,
            )
        | inr (m, r) ↦ absurd (none_ne (sym m.looked_up ∙ e))
      ]

abbrev pub set_list : (ℕ → List Entry) → ℕ → List Entry → ℕ → List Entry
set_list lists i xs k = if i == k then xs else lists k

module _ (b : AlphaBook) (lists : ℕ → List Entry) (i fresh : ℕ) (p : Person) (v : IsAlpha b lists)
    (ne : fresh ≢ null) (out : (k : ℕ) → has fresh (lists k) ≡ false)
    (index : get_index_by_name p.name ≡ some i) where
  abbrev start : Heap Person
  start = write b.heap fresh (some (node p null null))

  untouched : (k q : ℕ) → has q (lists k) ≡ true → start q ≡ b.heap q
  untouched k q h = rw (==_ne fresh q (λ e. ne-of-has fresh q (lists k) (out k) h (sym e)))

  put : Inserted start fresh p (lists i) (list_insert fresh (b.heads i) start)
  put =
      list_insert-cons start (b.heads i) fresh (node p null null) (lists i)
        (record {
          head = (v.list i).head;
          chain = Chain-frame b.heap start null null (lists i) (untouched i) (v.list i).chain;
        })
        ne (write_self b.heap fresh _) (out i)

  abbrev filled : AlphaBook
  filled = record { heads = set_head b.heads i fresh; count = b.count + 1; heap = put.heap }

  abbrev more : ℕ → List Entry
  more = set_list lists i ((fresh, p) ∷ lists i)

  other-IsList : (k : ℕ) → i ≢ k → IsList put.heap (b.heads k) (lists k)
  other-IsList k d = record {
    head = (v.list k).head;
    chain =
        Chain-frame b.heap put.heap null null (lists k)
          (λ q h. put.same q (outside q h) ∙ untouched k q h) (v.list k).chain;
  }
    where
      outside : (q : ℕ) → has q (lists k) ≡ true → has q ((fresh, p) ∷ lists i) ≡ false
      outside q h =
          ground (arith, ne-of-has fresh q (lists k) (out k) h, v.apart k i q (λ e. d (sym e)) h)

  filled-IsAlpha : IsAlpha filled more
  filled-IsAlpha = record {
    list = λ k. elim (Bool-cases (i == k)) [
      | inl e ↦ rw (e) put.list
      | inr e ↦ rw (e) (other-IsList k (ground arith))
    ];
    bound = λ k. ground (arith, v.bound k, v.bound i);
    apart =
        λ j k q d h. ground (arith, v.apart j k q d, out k, out j, v.apart i k q, v.apart j i q);
    filed = λ k. elim (Bool-cases (i == k)) [
      | inl e ↦ rw (e) (
          subst (λ n. All (λ q. get_index_by_name q.name ≡ some n) (p ∷ people (lists i)))
            (ground arith) (index, v.filed i))
      | inr e ↦ rw (e) (v.filed k)
    ];
  }

-- A person whose name has an index is put in front of the list of that index, and the other lists are
-- as they were. The node's address is not in use and the two words fit their arrays.
pub alpha_insert_entry-files :
    (b : AlphaBook) (lists : ℕ → List Entry) (i fresh : ℕ) (name phone : List ℕ)
    → IsAlpha b lists
    → fresh ≢ null
    → ((k : ℕ) → has fresh (lists k) ≡ false)
    → get_index_by_name name ≡ some i
    → length name < name_length
    → length phone < phone_length
    → (b' : AlphaBook) × (alpha_insert_entry fresh true name phone (some b)
        ≡ ok (some b', pos 0, tt))
      × IsAlpha b' (set_list lists i ((fresh, record { name = name; phone = phone }) ∷ lists i))
unfolding alpha_insert_entry alpha_insert person_insert
alpha_insert_entry-files b lists i fresh name phone v ne out index l m =
    let p : Person = record { name = name; phone = phone } in
    (
      filled b lists i fresh p v ne out index,
      rw (
        alpha_insert,
        ==_ne fresh null ne,
        fits name_length name l,
        fits phone_length phone m,
        index,
        ==_ne fresh null ne,
        (put b lists i fresh p v ne out index).done,
      ),
      filled-IsAlpha b lists i fresh p v ne out index,
    )
