-- ===== src/Prelude/Lists.antt =====
-- Lists measured and indexed by native numbers, under the library's names.
use Prim.Native.Nat.{ℕ, zero, suc, ◌+◌, ◌-◌, ◌≤◌, ◌<◌, min}
use mathlib.Core.Path.{◌≡◌, refl, ap, subst, ◌∙◌}
use mathlib.Core.Logic.{◌≢◌, ◌⊎◌, inl, inr}
use voice.Prelude.Tests.{◌==◌, if◌then◌else◌}
use mathlib.Core.List.{List, [], ◌∷◌, ◌++◌}
use mathlib.Core.Option.{Option, none, some}
use native.Mathlib.Omega.{arith}

module _ {ℓ} {A : Type ℓ} where
  abbrev pub length : List A → ℕ
  length [] = 0
  length (x ∷ xs) = suc (length xs)

  abbrev pub get_elem? : List A → ℕ → Option A
  get_elem? [] i = none
  get_elem? (x ∷ xs) zero = some x
  get_elem? (x ∷ xs) (suc i) = get_elem? xs i

  -- A write out of bounds changes nothing.
  abbrev pub set : List A → ℕ → A → List A
  set [] i v = []
  set (x ∷ xs) zero v = v ∷ xs
  set (x ∷ xs) (suc i) v = x ∷ set xs i v

  abbrev pub get_or : List A → ℕ → A → A
  get_or [] i d = d
  get_or (x ∷ xs) zero d = x
  get_or (x ∷ xs) (suc i) d = get_or xs i d

  abbrev pub take : ℕ → List A → List A
  take zero xs = []
  take (suc n) [] = []
  take (suc n) (x ∷ xs) = x ∷ take n xs

  abbrev pub drop : ℕ → List A → List A
  drop zero xs = xs
  drop (suc n) [] = []
  drop (suc n) (x ∷ xs) = drop n xs

  abbrev pub replicate : ℕ → A → List A
  replicate zero a = []
  replicate (suc n) a = a ∷ replicate n a

  -- Every element satisfies `P`.
  abbrev pub All {κ} : (A → Type κ) → List A → Type κ
  All P [] = Unit
  All P (x ∷ xs) = P x × All P xs

module _ {ℓ} {A : Type ℓ} where
  pub length-append : (xs ys : List A) → length (xs ++ ys) ≡ length xs + length ys
  length-append [] ys = omega arith
  length-append (x ∷ xs) ys = omega (arith, length-append xs ys)

  pub length-replicate : (n : ℕ) (a : A) → length (replicate n a) ≡ n
  length-replicate zero a = refl
  length-replicate (suc n) a = ap suc (length-replicate n a)

  pub length-set : (xs : List A) (i : ℕ) (v : A) → length (set xs i v) ≡ length xs
  length-set [] i v = refl
  length-set (x ∷ xs) zero v = refl
  length-set (x ∷ xs) (suc i) v = ap suc (length-set xs i v)

  pub length-take : (n : ℕ) (xs : List A) → length (take n xs) ≡ min n (length xs)
  length-take zero xs = omega arith
  length-take (suc n) [] = omega arith
  length-take (suc n) (x ∷ xs) = omega (arith, length-take n xs)

  pub length-drop : (n : ℕ) (xs : List A) → length (drop n xs) ≡ length xs - n
  length-drop zero xs = omega arith
  length-drop (suc n) [] = omega arith
  length-drop (suc n) (x ∷ xs) = omega (arith, length-drop n xs)

  pub take-append-drop : (n : ℕ) (xs : List A) → take n xs ++ drop n xs ≡ xs
  take-append-drop zero xs = refl
  take-append-drop (suc n) [] = refl
  take-append-drop (suc n) (x ∷ xs) = ap (◌∷◌ x) (take-append-drop n xs)

  pub take-all : (n : ℕ) (xs : List A) → length xs ≤ n → take n xs ≡ xs
  take-all zero [] h = refl
  take-all zero (x ∷ xs) h = elim h [ ]
  take-all (suc n) [] h = refl
  take-all (suc n) (x ∷ xs) h = ap (◌∷◌ x) (take-all n xs (omega (arith, h)))

  pub take-append : (n : ℕ) (xs ys : List A) → take (length xs + n) (xs ++ ys) ≡ xs ++ take n ys
  take-append n [] ys = ap (λ (k : ℕ). take k ys) (omega arith)
  take-append n (x ∷ xs) ys =
      ap (λ (k : ℕ). take {A = A} k (x ∷ (xs ++ ys))) {x = suc (length xs) + n}
        {y = suc (length xs + n)} (omega arith)
      ∙ ap (◌∷◌ x) (take-append n xs ys)

  pub take-front : (n : ℕ) (xs ys : List A) → n ≤ length xs → take n (xs ++ ys) ≡ take n xs
  take-front zero xs ys h = refl
  take-front (suc n) [] ys h = elim h [ ]
  take-front (suc n) (x ∷ xs) ys h = ap (◌∷◌ x) (take-front n xs ys (omega (arith, h)))

  pub take-length-append : (xs ys : List A) → take (length xs) (xs ++ ys) ≡ xs
  take-length-append [] ys = refl
  take-length-append (x ∷ xs) ys = ap (◌∷◌ x) (take-length-append xs ys)

  pub drop-length-append : (xs ys : List A) → drop (length xs) (xs ++ ys) ≡ ys
  drop-length-append [] ys = refl
  drop-length-append (x ∷ xs) ys = drop-length-append xs ys

  pub get_elem?-length : (xs : List A) (i : ℕ) (a : A) → get_elem? xs i ≡ some a → i < length xs
  get_elem?-length [] i a e = absurd (cc)
  get_elem?-length (x ∷ xs) zero a e = omega arith
  get_elem?-length (x ∷ xs) (suc i) a e =
      let later = get_elem?-length xs i a e in omega (arith, later)

  pub get_elem?-set_self :
      (xs : List A) (i : ℕ) (v : A) → i < length xs → get_elem? (set xs i v) i ≡ some v
  get_elem?-set_self [] i v h = elim h [ ]
  get_elem?-set_self (x ∷ xs) zero v h = refl
  get_elem?-set_self (x ∷ xs) (suc i) v h = get_elem?-set_self xs i v (omega arith)

  pub get_elem?-set_ne :
      (xs : List A) {i j : ℕ} (v : A) → i ≢ j → get_elem? (set xs i v) j ≡ get_elem? xs j
  get_elem?-set_ne [] v h = refl
  get_elem?-set_ne (x ∷ xs) {i = zero} {j = zero} v h = absurd (h refl)
  get_elem?-set_ne (x ∷ xs) {i = zero} {j = suc j} v h = refl
  get_elem?-set_ne (x ∷ xs) {i = suc i} {j = zero} v h = refl
  get_elem?-set_ne (x ∷ xs) {i = suc i} {j = suc j} v h = get_elem?-set_ne xs v (λ e. h (ap suc e))

  -- Of what stands at `j` after a write at `k`.
  pub set_cases :
      (ts : List A) (k j : ℕ) (t u : A)
      → get_elem? (set ts k t) j ≡ some u
      → ((j ≡ k) × (u ≡ t)) ⊎ ((j ≢ k) × (get_elem? ts j ≡ some u))
  set_cases [] k j t u e = cc
  set_cases (x ∷ ts) zero zero t u e = inl (refl, cc)
  set_cases (x ∷ ts) zero (suc j) t u e = inr ((λ (q : suc j ≡ 0). omega (arith, q)), e)
  set_cases (x ∷ ts) (suc k) zero t u e = inr ((λ (q : 0 ≡ suc k). omega (arith, q)), e)
  set_cases (x ∷ ts) (suc k) (suc j) t u e = elim (set_cases ts k j t u e) [
    | inl (same, q) ↦ inl (ap suc same, q)
    | inr (ne, q) ↦ inr ((λ r. ne (omega (arith, r))), q)
  ]

  pub get_or-append :
      (xs : List A) (y : A) (ys : List A) (d : A) → get_or (xs ++ y ∷ ys) (length xs) d ≡ y
  get_or-append [] y ys d = refl
  get_or-append (x ∷ xs) y ys d = get_or-append xs y ys d

  pub set-append :
      (xs : List A) (y : A) (ys : List A) (v : A) → set (xs ++ y ∷ ys) (length xs) v ≡ xs ++ v ∷ ys
  set-append [] y ys v = refl
  set-append (x ∷ xs) y ys v = ap (◌∷◌ x) (set-append xs y ys v)

  pub All-append {κ} :
      (P : A → Type κ) (front back : List A) → All P front → All P back → All P (front ++ back)
  All-append P [] back f b = b
  All-append P (a ∷ front) back f b = (f.0, All-append P front back f.1 b)

  pub All-set {κ} :
      (P : A → Type κ) (xs : List A) (i : ℕ) (a : A) → All P xs → P a → All P (set xs i a)
  All-set P [] i a h p = h
  All-set P (x ∷ xs) zero a h p = (p, h.1)
  All-set P (x ∷ xs) (suc i) a h p = (h.0, All-set P xs i a h.1 p)

  pub All-get {κ} :
      (P : A → Type κ) (xs : List A) (i : ℕ) (a : A) → All P xs → get_elem? xs i ≡ some a → P a
  All-get P [] i a h e = absurd (cc)
  All-get P (x ∷ xs) zero a h e = subst P (some_inj e) h.0
    where
      some_inj : some x ≡ some a → x ≡ a
      some_inj q = cc
  All-get P (x ∷ xs) (suc i) a h e = All-get P xs i a h.1 e

  pub drop-replicate :
      (m n : ℕ) (a : A) → n < m → drop n (replicate m a) ≡ a ∷ drop (suc n) (replicate m a)
  drop-replicate zero n a h = elim h [ ]
  drop-replicate (suc m) zero a h = refl
  drop-replicate (suc m) (suc n) a h = drop-replicate m n a (omega arith)

-- How often a number stands in a list.
snoc-replicate {ℓ} : {A : Type ℓ} (m : ℕ) (a : A) → replicate (suc m) a ≡ replicate m a ++ a ∷ []
snoc-replicate zero a = refl
snoc-replicate (suc m) a = ap (λ (l : List _). a ∷ l) (snoc-replicate m a)

-- The last of equal elements.
pub drop-snoc {ℓ} :
    {A : Type ℓ} (n m : ℕ) (a : A)
    → n ≤ m
    → drop n (replicate (suc m) a) ≡ replicate (m - n) a ++ a ∷ []
drop-snoc zero m a h = snoc-replicate m a ∙ ap (λ (k : ℕ). replicate k a ++ a ∷ []) (omega arith)
drop-snoc (suc n) zero a h = absurd (omega (arith, h))
drop-snoc (suc n) (suc m) a h =
    drop-snoc n m a (omega (arith, h)) ∙ ap (λ (k : ℕ). replicate k a ++ a ∷ []) (omega arith)

abbrev pub occurrences : ℕ → List ℕ → ℕ
occurrences k [] = 0
occurrences k (j ∷ js) = if k == j then suc (occurrences k js) else occurrences k js

pub occurrences-append :
    (k : ℕ) (is js : List ℕ) → occurrences k (is ++ js) ≡ occurrences k is + occurrences k js
occurrences-append k [] js = omega arith
occurrences-append k (i ∷ is) js = ground (arith, occurrences-append k is js)
