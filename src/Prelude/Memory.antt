-- ===== src/Prelude/Memory.antt =====
-- C buffers as lists of bytes: `memcpy` out of and into a buffer. `none` is an access past its end.
use Prim.Native.Nat.{ℕ, zero, suc, ◌+◌, ◌*◌, ◌/◌, ◌%◌, ◌≤◌}
use mathlib.Core.Path.{◌≡◌, refl, sym, ap, ◌∙◌}
use mathlib.Core.Option.{Option, none, some}
use mathlib.Core.Bool.{true}
use mathlib.Core.List.{List, [], ◌∷◌, ◌++◌}
use native.Mathlib.Omega.{arith}
use voice.Prelude.Tests.{leb, if◌then◌else◌}
use voice.Prelude.Lists.{
  length, take, drop, replicate, length-append, length-take, length-drop, take-length-append,
  drop-length-append,
}

-- The `n` bytes from `off`.
unfoldable pub read_bytes {ℓ} : {A : Type ℓ} → List A → ℕ → ℕ → Option (List A)
read_bytes buf off n = if leb (off + n) (length buf) then some (take n (drop off buf)) else none

-- `src` over the bytes from `off`.
unfoldable pub write_bytes {ℓ} : {A : Type ℓ} → List A → ℕ → List A → Option (List A)
write_bytes buf off src =
    if leb (off + length src) (length buf)
    then some (take off buf ++ (src ++ drop (off + length src) buf))
    else none

-- The block may grow or shrink; a byte that was not there has no known value, here 0.
unfoldable pub realloc : List ℕ → ℕ → List ℕ
realloc bytes n = take n (bytes ++ replicate n 0)

-- An unsigned word in little-endian order, as the host stores it.
abbrev pub of_le : List ℕ → ℕ
of_le [] = 0
of_le (b ∷ bs) = b + 256 * of_le bs

abbrev pub le_bytes : ℕ → ℕ → List ℕ
le_bytes zero v = []
le_bytes (suc n) v = (v % 256) ∷ le_bytes n (v / 256)

-- An unsigned 16-bit word in network order.
abbrev pub be16 : ℕ → List ℕ
be16 v = (v / 256 % 256) ∷ (v % 256) ∷ []

pub leb-true : (a b : ℕ) → a ≤ b → leb a b ≡ true
leb-true a b h = ground arith

module _ {ℓ} {A : Type ℓ} where
  drop_at : {m n : ℕ} (xs : List A) → m ≡ n → drop m xs ≡ drop n xs
  drop_at xs e = ap (λ k. drop k xs) e

  drop-nil : (k : ℕ) → drop {A = A} k [] ≡ []
  drop-nil zero = refl
  drop-nil (suc k) = refl

  pub drop-drop : (m n : ℕ) (xs : List A) → drop n (drop m xs) ≡ drop (m + n) xs
  drop-drop zero n xs = drop_at xs (omega arith)
  drop-drop (suc m) n [] = drop-nil n ∙ sym (drop-nil (suc m + n))
  drop-drop (suc m) n (x ∷ xs) =
      drop-drop m n xs ∙ drop_at {m = suc (m + n)} {n = suc m + n} (x ∷ xs) (omega arith)

  pub read_bytes-append :
      (pre xs post : List A) → read_bytes (pre ++ (xs ++ post)) (length pre) (length xs) ≡ some xs
  unfolding read_bytes
  read_bytes-append pre xs post = rw (
    leb-true (length pre + length xs) (length (pre ++ (xs ++ post)))
        (omega (arith, length-append pre (xs ++ post), length-append xs post)),
    drop-length-append pre (xs ++ post),
    take-length-append xs post,
  )

  pub read_bytes-some :
      (buf : List A) (off n : ℕ)
      → off + n ≤ length buf
      → read_bytes buf off n ≡ some (take n (drop off buf))
  unfolding read_bytes
  read_bytes-some buf off n h = rw (leb-true (off + n) (length buf) h)

  -- A write at the start of a buffer.
  pub write_bytes-front :
      (buf src : List A)
      → length src ≤ length buf
      → write_bytes buf 0 src ≡ some (src ++ drop (length src) buf)
  unfolding write_bytes
  write_bytes-front buf src h =
      rw (leb-true (0 + length src) (length buf) (omega arith)) (
        ap (λ (k : ℕ). some (src ++ drop k buf)) {x = 0 + length src} {y = length src}
          (omega arith))

  -- A write behind what is already written.
  pub write_bytes-append :
      (pre rest src : List A)
      → length src ≤ length rest
      → write_bytes (pre ++ rest) (length pre) src ≡ some (pre ++ (src ++ drop (length src) rest))
  unfolding write_bytes
  write_bytes-append pre rest src h = rw (
    leb-true (length pre + length src) (length (pre ++ rest))
        (omega (arith, length-append pre rest)),
    take-length-append pre rest,
    ← drop-drop (length pre) (length src) (pre ++ rest),
    drop-length-append pre rest,
  )

  pub read_bytes-front : (xs post : List A) → read_bytes (xs ++ post) 0 (length xs) ≡ some xs
  read_bytes-front xs post = read_bytes-append [] xs post

  -- A write that succeeds fits, and keeps the buffer's length.
  pub length-write_bytes :
      (buf : List A) (off : ℕ) (src out : List A)
      → write_bytes buf off src ≡ some out
      → (length out ≡ length buf) × (off + length src ≤ length buf)
  unfolding write_bytes
  length-write_bytes buf off src out e = ground (
    arith,
    length-append (take off buf) (src ++ drop (off + length src) buf),
    length-append src (drop (off + length src) buf),
    length-take off buf,
    length-drop (off + length src) buf,
  )
