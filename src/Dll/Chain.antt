-- ===== src/Dll/Chain.antt =====
-- What a doubly linked list stands for: its addresses and payloads, in order.
use mathlib.Core.Bool.{or_assoc, false≢true}
use voice.Prelude.{
  ℕ, ◌≡◌, ◌≢◌, refl, ==_ne, ap, sym, ◌∙◌, Bool, true, false, ◌||◌, some, List, [], ◌∷◌, ◌++◌, arith,
  ◌==◌,
}
use voice.Dll.{null, Node, Heap, write}

abbrev pub node {ℓ} : {A : Type ℓ} → A → ℕ → ℕ → Node A
node d next prev = record { payload = d; next = next; prev = prev }

module _ {ℓ} {A : Type ℓ} where
  abbrev pub first : ℕ → List (ℕ × A) → ℕ
  first e [] = e
  first e ((a, d) ∷ xs) = a

  abbrev pub last : ℕ → List (ℕ × A) → ℕ
  last b [] = b
  last b ((a, d) ∷ xs) = last a xs

  abbrev pub has : ℕ → List (ℕ × A) → Bool
  has p [] = false
  has p ((a, d) ∷ xs) = p == a || has p xs

  -- Nodes at distinct addresses, linked both ways; `b` stands before the first, `e` behind the last.
  abbrev pub Chain : Heap A → ℕ → ℕ → List (ℕ × A) → Type ℓ
  Chain h b e [] = Unit
  Chain h b e ((a, d) ∷ xs) =
      (a ≢ null) × (h a ≡ some (node d (first e xs) b)) × (has a xs ≡ false) × Chain h a e xs

  -- A list by its head pointer.
  pub record IsList (h : Heap A) (p : ℕ) (xs : List (ℕ × A)) : Type ℓ where
    pub head : p ≡ first null xs
    pub chain : Chain h null null xs

  -- Elsewhere the heap is as it was.
  abbrev pub SameOutside : List (ℕ × A) → Heap A → Heap A → Type ℓ
  SameOutside xs h g = (p : ℕ) → has p xs ≡ false → g p ≡ h p

module _ {ℓ} {A : Type ℓ} where
  pub has-append : (p : ℕ) (xs ys : List (ℕ × A)) → has p (xs ++ ys) ≡ (has p xs || has p ys)
  has-append p [] ys = refl
  has-append p ((a, d) ∷ xs) ys = rw (has-append p xs ys, or_assoc)

  pub first-append : (e : ℕ) (xs ys : List (ℕ × A)) → first e (xs ++ ys) ≡ first (first e ys) xs
  first-append e [] ys = refl
  first-append e (x ∷ xs) ys = refl

  -- A chain survives what spares its own addresses.
  pub Chain-frame :
      (h g : Heap A) (b e : ℕ) (xs : List (ℕ × A))
      → ((p : ℕ) → has p xs ≡ true → g p ≡ h p)
      → Chain h b e xs
      → Chain g b e xs
  Chain-frame h g b e [] same c = tt
  Chain-frame h g b e ((a, d) ∷ xs) same c = (
    c.0,
    same a (ground arith) ∙ c.1,
    c.2,
    Chain-frame h g a e xs (λ p i. same p (ground arith)) c.3,
  )

  pub Chain-front :
      (h : Heap A) (b e : ℕ) (xs ys : List (ℕ × A))
      → Chain h b e (xs ++ ys)
      → Chain h b (first e ys) xs
  Chain-front h b e [] ys c = tt
  Chain-front h b e ((a, d) ∷ xs) ys c = (
    c.0,
    ground (arith, c.1, first-append e xs ys),
    ground (arith, c.2, has-append a xs ys),
    Chain-front h a e xs ys c.3,
  )

  pub Chain-back :
      (h : Heap A) (b e : ℕ) (xs ys : List (ℕ × A))
      → Chain h b e (xs ++ ys)
      → Chain h (last b xs) e ys
  Chain-back h b e [] ys c = c
  Chain-back h b e ((a, d) ∷ xs) ys c = Chain-back h a e xs ys c.3

  -- The two parts of a chain share no address.
  pub Chain-apart :
      (h : Heap A) (b e p : ℕ) (xs ys : List (ℕ × A))
      → Chain h b e (xs ++ ys)
      → has p xs ≡ true
      → has p ys ≡ false
  Chain-apart h b e p [] ys c i = cc
  Chain-apart h b e p ((a, d) ∷ xs) ys c i =
      ground (arith, c.2, has-append a xs ys, Chain-apart h a e p xs ys c.3)

  -- The other way round: two chains that fit make one.
  pub append-Chain :
      (h : Heap A) (b e : ℕ) (xs ys : List (ℕ × A))
      → Chain h b (first e ys) xs
      → Chain h (last b xs) e ys
      → ((p : ℕ) → has p xs ≡ true → has p ys ≡ false)
      → Chain h b e (xs ++ ys)
  append-Chain h b e [] ys c k apart = k
  append-Chain h b e ((a, d) ∷ xs) ys c k apart = (
    c.0,
    ground (arith, c.1, first-append e xs ys),
    ground (arith, c.2, has-append a xs ys, apart a),
    append-Chain h a e xs ys c.3 k (λ p i. apart p (ground arith)),
  )

  pub has-last : (a : ℕ) (d : A) (xs : List (ℕ × A)) → has (last a xs) ((a, d) ∷ xs) ≡ true
  has-last a d [] = ground arith
  has-last a d ((a', d') ∷ xs) = ground (arith, has-last a' d' xs)

  pub not-has-null :
      (h : Heap A) (b e : ℕ) (xs : List (ℕ × A)) → Chain h b e xs → has null xs ≡ false
  not-has-null h b e [] c = refl
  not-has-null h b e ((a, d) ∷ xs) c = ground (arith, c.0, not-has-null h a e xs c.3)

  pub ne-of-has : (p q : ℕ) (xs : List (ℕ × A)) → has p xs ≡ false → has q xs ≡ true → q ≢ p
  ne-of-has p q xs out in_ e = absurd (false≢true (sym out ∙ ap (λ r. has r xs) (sym e) ∙ in_))

  -- A write of `next` in the last node moves the chain's end.
  pub Chain-set_next :
      (h : Heap A) (b e e' a : ℕ) (d : A) (xs : List (ℕ × A)) (n : Node A)
      → Chain h b e ((a, d) ∷ xs)
      → h (last a xs) ≡ some n
      → Chain (write h (last a xs) (some (record n { next = e' }))) b e' ((a, d) ∷ xs)
  Chain-set_next h b e e' a d [] n c l = (c.0, ground arith, refl, tt)
  Chain-set_next h b e e' a d ((a', d') ∷ xs) n c l = (
    c.0,
    rw (==_ne (last a' xs) a (ne-of-has a (last a' xs) ((a', d') ∷ xs) c.2 (has-last a' d' xs)))
        (c.1),
    c.2,
    Chain-set_next h a e e' a' d' xs n c.3 l,
  )

  -- A write of `prev` in the first node moves the chain's start.
  pub Chain-set_prev :
      (h : Heap A) (b b' e a : ℕ) (d : A) (xs : List (ℕ × A)) (n : Node A)
      → Chain h b e ((a, d) ∷ xs)
      → h a ≡ some n
      → Chain (write h a (some (record n { prev = b' }))) b' e ((a, d) ∷ xs)
  Chain-set_prev h b b' e a d xs n c l =
      (c.0, ground (arith, c.1), c.2, Chain-frame h _ a e xs (λ p i. ground (arith, c.2)) c.3)

  -- The node of the last cell.
  pub Chain-last :
      (h : Heap A) (b e a : ℕ) (d : A) (xs : List (ℕ × A))
      → Chain h b e ((a, d) ∷ xs)
      → (n : Node A) × (h (last a xs) ≡ some n) × (last a xs ≢ null)
  Chain-last h b e a d [] c = (_, c.1, c.0)
  Chain-last h b e a d ((a', d') ∷ xs) c = Chain-last h a e a' d' xs c.3
