-- ===== src/Dll/Insert.antt =====
-- LIST_INSERT puts a node in front of a list.
use voice.Prelude.{
  ℕ, ◌≡◌, ◌≢◌, refl, sym, ◌∙◌, true, false, Option, some, List, [], ◌∷◌, arith, ==_ne, ==_refl,
}
use voice.Prelude.Run.{Run, ok}
use voice.Dll.{null, Node, Heap, write, load, set_next, set_prev, list_insert}
use voice.Dll.Chain.{
  node, first, has, Chain, IsList, SameOutside, Chain-frame, Chain-set_prev, ne-of-has,
}

module _ {ℓ} {A : Type ℓ} where
  pub load-some : (p : ℕ) (n : Node A) (h : Heap A) → p ≢ null → h p ≡ some n → load p h ≡ ok n
  unfolding load
  load-some p n h ne e = rw (==_ne p null ne, e)

  pub set_next-some :
      (p q : ℕ) (n : Node A) (h : Heap A)
      → p ≢ null
      → h p ≡ some n
      → set_next p q h ≡ ok (write h p (some (record n { next = q })))
  unfolding set_next
  set_next-some p q n h ne e = rw (==_ne p null ne, e)

  pub set_prev-some :
      (p q : ℕ) (n : Node A) (h : Heap A)
      → p ≢ null
      → h p ≡ some n
      → set_prev p q h ≡ ok (write h p (some (record n { prev = q })))
  unfolding set_prev
  set_prev-some p q n h ne e = rw (==_ne p null ne, e)

  pub write_self : (h : Heap A) (p : ℕ) (c : Option (Node A)) → write h p c p ≡ c
  write_self h p c = rw (==_refl p)

  pub has_head : (a : ℕ) (d : A) (xs : List (ℕ × A)) → has a ((a, d) ∷ xs) ≡ true
  has_head a d xs = rw (==_refl a)

  skip_both :
      (h : Heap A) (p q : ℕ) (c c' : Option (Node A)) → q ≢ p → write (write h p c) p c' q ≡ h q
  skip_both h p q c c' ne = rw (==_ne p q (λ e. ne (sym e)))

  -- What the caller gets: the new head and a heap for the longer list.
  pub record Inserted (h : Heap A) (item : ℕ) (d : A) (xs : List (ℕ × A)) (r : Run (ℕ × Heap A))
      : Type ℓ where
    pub heap : Heap A
    pub done : r ≡ ok (item, heap)
    pub list : IsList heap item ((item, d) ∷ xs)
    pub same : SameOutside ((item, d) ∷ xs) h heap

  insert_empty :
      (h : Heap A) (item : ℕ) (n : Node A)
      → item ≢ null
      → h item ≡ some n
      → Inserted h item n.payload [] (list_insert item null h)
  unfolding list_insert
  insert_empty h item n ne e =
      let h1 = write h item (some (record n { prev = null })) in
      let at1 = write_self h item (some (record n { prev = null })) in
      record {
        heap = write h1 item (some (node n.payload null null));
        done = rw (set_prev-some item null n h ne e, set_next-some item null _ h1 ne at1);
        list = record { head = refl; chain = (ne, write_self h1 item _, refl, tt) };
        same = λ q o. ground arith;
      }

  insert_front :
      (h : Heap A) (item a : ℕ) (n : Node A) (d : A) (xs : List (ℕ × A))
      → Chain h null null ((a, d) ∷ xs)
      → item ≢ null
      → h item ≡ some n
      → has item ((a, d) ∷ xs) ≡ false
      → Inserted h item n.payload ((a, d) ∷ xs) (list_insert item a h)
  unfolding list_insert
  insert_front h item a n d xs c ne e out =
      let h1 = write h item (some (record n { prev = null })) in
      let mine = node n.payload a null in
      let h2 = write h1 item (some mine) in
      let old = node d (first null xs) null in
      let h3 = write h2 a (some (record old { prev = item })) in
      let at1 = write_self h item (some (record n { prev = null })) in
      let kept : (q : ℕ) → has q ((a, d) ∷ xs) ≡ true → h2 q ≡ h q =
        λ q i. skip_both h item q _ _ (ne-of-has item q ((a, d) ∷ xs) out i) in
      let at2 : h2 a ≡ some old = kept a (has_head a d xs) ∙ c.1 in
      let apart = ne-of-has item a ((a, d) ∷ xs) out (has_head a d xs) in
      record {
        heap = h3;
        done = rw (
          set_prev-some item null n h ne e,
          set_next-some item a _ h1 ne at1,
          ==_ne a null c.0,
          set_prev-some a item old h2 c.0 at2,
        );
        list = record {
          head = refl;
          chain = (
            ne,
            rw (==_ne a item apart) (write_self h1 item (some mine)),
            out,
            Chain-set_prev h2 null item null a d xs old
                (Chain-frame h h2 null null ((a, d) ∷ xs) kept c) at2,
          );
        };
        same = λ q o. ground arith;
      }

  -- A node that is not in the list becomes its first; only it and the list's nodes are written.
  pub list_insert-cons :
      (h : Heap A) (p item : ℕ) (n : Node A) (xs : List (ℕ × A))
      → IsList h p xs
      → item ≢ null
      → h item ≡ some n
      → has item xs ≡ false
      → Inserted h item n.payload xs (list_insert item p h)
  list_insert-cons h p item n [] v ne e out = rw (v.head) (insert_empty h item n ne e)
  list_insert-cons h p item n ((a, d) ∷ xs) v ne e out =
      rw (v.head) (insert_front h item a n d xs v.chain ne e out)
