-- ===== src/Dll.antt =====
-- The doubly linked lists of contact.c, 26Alpha_contact.c and threadpool.c: a heap of nodes and the
-- macros LIST_INSERT and LIST_REMOVE. A read or write through NULL or a freed address is a fault.
pub mod Chain
pub mod Insert
pub mod Remove
use voice.Prelude.{ℕ, Option, none, some, ◌==◌, if◌then◌else◌}
use voice.Prelude.Run.{Run, ok, fault, of_option, ◌>>=◌}

abbrev pub null : ℕ
null = 0

-- `data` is the payload, which nothing else points to.
pub record Node {ℓ} (A : Type ℓ) : Type ℓ where
  pub payload : A
  pub next : ℕ
  pub prev : ℕ

abbrev pub Heap {ℓ} : Type ℓ → Type ℓ
Heap A = ℕ → Option (Node A)

module _ {ℓ} {A : Type ℓ} where
  abbrev pub write : Heap A → ℕ → Option (Node A) → Heap A
  write h p c q = if p == q then c else h q

  unfoldable pub load : ℕ → Heap A → Run (Node A)
  load p h = if p == null then fault else of_option (h p)

  unfoldable pub set_next : ℕ → ℕ → Heap A → Run (Heap A)
  unfolding load
  set_next p q h = load p h >>= λ n. ok (write h p (some (record n { next = q })))

  unfoldable pub set_prev : ℕ → ℕ → Heap A → Run (Heap A)
  unfolding load
  set_prev p q h = load p h >>= λ n. ok (write h p (some (record n { prev = q })))

  -- LIST_INSERT: the new head and the heap.
  unfoldable pub list_insert : ℕ → ℕ → Heap A → Run (ℕ × Heap A)
  list_insert item list h = do
    h1 ← set_prev item null h
    h2 ← set_next item list h1
    h3 ← (if list == null then ok h2 else set_prev list item h2)
    ok (item, h3)

  -- LIST_REMOVE: the fields of `item` are read again where the macro reads them.
  unfoldable pub list_remove : ℕ → ℕ → Heap A → Run (ℕ × Heap A)
  list_remove item list h = do
    head ← (if list == item then (load list h >>= λ n. ok n.next) else ok list)
    n ← load item h
    h1 ← (if n.prev == null then ok h else set_next n.prev n.next h)
    m ← load item h1
    h2 ← (if m.next == null then ok h1 else set_prev m.next m.prev h1)
    h3 ← set_next item null h2
    h4 ← set_prev item null h3
    ok (head, h4)
