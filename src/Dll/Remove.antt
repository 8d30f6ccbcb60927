-- ===== src/Dll/Remove.antt =====
-- LIST_REMOVE unlinks a node and joins what stood before and behind it.
use mathlib.Core.Bool.{false≢true}
use voice.Prelude.{
  ℕ, ◌≡◌, ◌≢◌, refl, sym, ◌∙◌, true, false, some, List, [], ◌∷◌, ◌++◌, arith, ◌==◌, ==_ne, ==_refl,
  if◌then◌else◌, Bool-cases, inl, inr,
}
use voice.Prelude.Run.{Run, ok, ◌>>=◌}
use voice.Dll.{null, Heap, write, load, set_next, set_prev, list_remove}
use voice.Dll.Chain.{
  node, first, last, has, Chain, IsList, SameOutside, has-append, has-last, Chain-frame,
  Chain-front, Chain-back, Chain-apart, append-Chain, Chain-set_next, Chain-set_prev, Chain-last,
  ne-of-has,
}
use voice.Dll.Insert.{load-some, set_next-some, set_prev-some, write_self, has_head}

module _ {ℓ} {A : Type ℓ} where
  -- The half of the macro that looks at `prev`.
  record Joined (h : Heap A) (nx : ℕ) (ys : List (ℕ × A)) (r : Run (Heap A)) : Type ℓ where
    heap : Heap A
    done : r ≡ ok heap
    chain : Chain heap null nx ys
    same : SameOutside ys h heap

  abbrev join_prev : ℕ → ℕ → Heap A → Run (Heap A)
  join_prev pv nx h = if pv == null then ok h else set_next pv nx h

  join_before :
      (h : Heap A) (a nx : ℕ) (ys : List (ℕ × A))
      → Chain h null a ys
      → Joined h nx ys (join_prev (last null ys) nx h)
  join_before h a nx [] c = record { heap = h; done = refl; chain = tt; same = λ q o. refl }
  join_before h a nx ((y, d) ∷ ys) c =
      let (n, at_last, ne) = Chain-last h null a y d ys c in
      record {
        heap = write h (last y ys) (some (record n { next = nx }));
        done = rw (==_ne (last y ys) null ne) (set_next-some (last y ys) nx n h ne at_last);
        chain = Chain-set_next h null a nx y d ys n c at_last;
        same = λ q o.
            rw (==_ne (last y ys) q (ne-of-has q (last y ys) ((y, d) ∷ ys) o (has-last y d ys)));
      }

  -- The half that looks at `next`.
  record Behind (h : Heap A) (pv : ℕ) (zs : List (ℕ × A)) (r : Run (Heap A)) : Type ℓ where
    heap : Heap A
    done : r ≡ ok heap
    chain : Chain heap pv null zs
    same : SameOutside zs h heap

  abbrev join_next : ℕ → ℕ → Heap A → Run (Heap A)
  join_next nx pv h = if nx == null then ok h else set_prev nx pv h

  join_behind :
      (h : Heap A) (a pv : ℕ) (zs : List (ℕ × A))
      → Chain h a null zs
      → Behind h pv zs (join_next (first null zs) pv h)
  join_behind h a pv [] c = record { heap = h; done = refl; chain = tt; same = λ q o. refl }
  join_behind h a pv ((z, d) ∷ zs) c =
      let n = node d (first null zs) a in
      record {
        heap = write h z (some (record n { prev = pv }));
        done = rw (==_ne z null c.0) (set_prev-some z pv n h c.0 c.1);
        chain = Chain-set_prev h a pv null z d zs n c c.1;
        same = λ q o. rw (==_ne z q (ne-of-has q z ((z, d) ∷ zs) o (has_head z d zs)));
      }

  -- The new head.
  head_step :
      (h : Heap A) (a : ℕ) (d : A) (ys zs : List (ℕ × A))
      → Chain h null null (ys ++ (a, d) ∷ zs)
      → (if first null (ys ++ (a, d) ∷ zs) == a
          then (load (first null (ys ++ (a, d) ∷ zs)) h >>= λ n. ok n.next)
          else ok (first null (ys ++ (a, d) ∷ zs)))
        ≡ ok (first null (ys ++ zs))
  head_step h a d [] zs c = rw (==_refl a, load-some a _ h c.0 c.1)
  head_step h a d ((y, e) ∷ ys) zs c =
      let apart = Chain-apart h null null y ((y, e) ∷ ys) ((a, d) ∷ zs) c (has_head y e ys) in
      rw (==_ne y a (λ q. ne-of-has y a ((a, d) ∷ zs) apart (has_head a d zs) (sym q)))

  pub record Removed (h : Heap A) (a : ℕ) (d : A) (ys zs : List (ℕ × A)) (r : Run (ℕ × Heap A))
      : Type ℓ where
    pub heap : Heap A
    pub done : r ≡ ok (first null (ys ++ zs), heap)
    pub list : IsList heap (first null (ys ++ zs)) (ys ++ zs)
    pub out : has a (ys ++ zs) ≡ false
    pub unlinked : heap a ≡ some (node d null null)
    pub same : SameOutside (ys ++ (a, d) ∷ zs) h heap

  -- What the two-sided list gives about the three parts.
  module _ (h : Heap A) (a : ℕ) (d : A) (ys zs : List (ℕ × A))
      (c : Chain h null null (ys ++ (a, d) ∷ zs)) where
    outside_front : (q : ℕ) → has q ((a, d) ∷ zs) ≡ true → has q ys ≡ false
    outside_front q i = elim (Bool-cases (has q ys)) [
      | inr o ↦ o
      | inl o ↦ absurd (false≢true (sym (Chain-apart h null null q ys ((a, d) ∷ zs) c o) ∙ i))
    ]

    item_out : has a ys ≡ false
    item_out = outside_front a (has_head a d zs)

    behind_out : (q : ℕ) → has q zs ≡ true → has q ys ≡ false
    behind_out q i = outside_front q (ground (arith, i))

    at_item :
        (a ≢ null)
        × (h a ≡ some (node d (first null zs) (last null ys)))
        × (has a zs ≡ false)
        × Chain h a null zs
    at_item = Chain-back h null null ys ((a, d) ∷ zs) c

    before : Joined h (first null zs) ys (join_prev (last null ys) (first null zs) h)
    before = join_before h a (first null zs) ys (Chain-front h null null ys ((a, d) ∷ zs) c)

    behind :
        Behind before.heap (last null ys) zs (join_next (first null zs) (last null ys) before.heap)
    behind =
        join_behind before.heap a (last null ys) zs
          (Chain-frame h before.heap a null zs (λ q i. before.same q (behind_out q i)) at_item.3)

    abbrev cut : Heap A
    cut =
        write (write behind.heap a (some (node d null (last null ys)))) a (some (node d null null))

    at_before : before.heap a ≡ some (node d (first null zs) (last null ys))
    at_before = before.same a item_out ∙ at_item.1

    at_behind : behind.heap a ≡ some (node d (first null zs) (last null ys))
    at_behind = behind.same a at_item.2 ∙ at_before

    cut_else : (q : ℕ) → q ≢ a → cut q ≡ behind.heap q
    cut_else q ne = rw (==_ne a q (λ e. ne (sym e)))

    remove_done : list_remove a (first null (ys ++ (a, d) ∷ zs)) h ≡ ok (first null (ys ++ zs), cut)
    unfolding list_remove
    remove_done = rw (
      head_step h a d ys zs c,
      load-some a _ h at_item.0 at_item.1,
      before.done,
      load-some a _ before.heap at_item.0 at_before,
      behind.done,
      set_next-some a null _ behind.heap at_item.0 at_behind,
      set_prev-some a null _ _ at_item.0 (write_self behind.heap a _),
    )

    remove_list : Chain cut null null (ys ++ zs)
    remove_list =
        append-Chain cut null null ys zs
          (Chain-frame before.heap cut null (first null zs) ys
            (λ q i. cut_else q (ne-of-has a q ys item_out i) ∙ behind.same q (front_out q i))
            before.chain)
          (Chain-frame behind.heap cut (last null ys) null zs
            (λ q i. cut_else q (ne-of-has a q zs at_item.2 i)) behind.chain)
          front_out
      where
        front_out : (q : ℕ) → has q ys ≡ true → has q zs ≡ false
        front_out q i = ground (arith, Chain-apart h null null q ys ((a, d) ∷ zs) c i)

    same_else : (q : ℕ) → has q (ys ++ (a, d) ∷ zs) ≡ false → cut q ≡ h q
    same_else q o =
        let parts = has-append q ys ((a, d) ∷ zs) in
        let f : has q ys ≡ false = ground (arith, o, parts) in
        let k : has q zs ≡ false = ground (arith, o, parts) in
        let ne : q ≢ a = ground (arith, o, parts) in
        cut_else q ne ∙ behind.same q k ∙ before.same q f

  -- A node of the list is unlinked: the list is what stood before it and what stood behind, its own
  -- pointers are NULL, and only nodes of the list are written.
  pub list_remove-append :
      (h : Heap A) (p a : ℕ) (d : A) (ys zs : List (ℕ × A))
      → IsList h p (ys ++ (a, d) ∷ zs)
      → Removed h a d ys zs (list_remove a p h)
  list_remove-append h p a d ys zs v = rw (v.head) (record {
    heap = cut h a d ys zs v.chain;
    done = remove_done h a d ys zs v.chain;
    list = record { head = refl; chain = remove_list h a d ys zs v.chain };
    out =
        ground (
          arith,
          has-append a ys zs,
          item_out h a d ys zs v.chain,
          (at_item h a d ys zs v.chain).2,
        );
    unlinked = rw (==_refl a);
    same = same_else h a d ys zs v.chain;
  })
