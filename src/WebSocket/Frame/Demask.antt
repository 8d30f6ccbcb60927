-- ===== src/WebSocket/Frame/Demask.antt =====
-- `demask` of server.c against the masking of RFC 6455.
use Prim.Native.Nat.{bit_xor}
use voice.Prelude.{
  ℕ, zero, suc, ◌+◌, ◌%◌, ◌<◌, ◌≤◌, ◌≡◌, refl, ap, ap₂, some, List, [], ◌∷◌, ◌++◌, arith, length,
  get_or, All, drop,
}
use voice.Prelude.Bytes.{IsByte, bit_xor-bit_xor, bit_xor-lt}
use voice.Prelude.Int.{pos}
use voice.WebSocket.Frame.{demask_from, demask}

-- Byte `i` of the payload is combined with byte `i % 4` of the key.
unfoldable pub masked : ℕ → List ℕ → List ℕ → List ℕ
masked i mask [] = []
masked i mask (x ∷ xs) = bit_xor x (get_or mask (i % 4) 0) ∷ masked (i + 1) mask xs

pub length-masked : (i : ℕ) (mask xs : List ℕ) → length (masked i mask xs) ≡ length xs
unfolding masked
length-masked i mask [] = refl
length-masked i mask (x ∷ xs) = ap suc (length-masked (i + 1) mask xs)

key_byte : (i : ℕ) (mask : List ℕ) → All IsByte mask → get_or mask i 0 < 256
key_byte i [] h = omega arith
key_byte zero (k ∷ mask) h = h.0
key_byte (suc i) (k ∷ mask) h = key_byte i mask h.1

pub masked-masked :
    (i : ℕ) (mask xs : List ℕ)
    → All IsByte mask
    → All IsByte xs
    → masked i mask (masked i mask xs) ≡ xs
unfolding masked
masked-masked i mask [] hm hx = refl
masked-masked i mask (x ∷ xs) hm hx =
    ap₂ ◌∷◌ (bit_xor-bit_xor x (get_or mask (i % 4) 0) hx.0 (key_byte (i % 4) mask hm))
      (masked-masked (i + 1) mask xs hm hx.1)

pub masked-IsByte :
    (i : ℕ) (mask xs : List ℕ) → All IsByte mask → All IsByte xs → All IsByte (masked i mask xs)
unfolding masked
masked-IsByte i mask [] hm hx = tt
masked-IsByte i mask (x ∷ xs) hm hx = (
  bit_xor-lt x (get_or mask (i % 4) 0) hx.0 (key_byte (i % 4) mask hm),
  masked-IsByte (i + 1) mask xs hm hx.1,
)

demask_from-append :
    (i : ℕ) (mask xs rest : List ℕ)
    → demask_from (length xs) i mask (xs ++ rest) ≡ some (masked i mask xs ++ rest)
unfolding demask_from masked
demask_from-append i mask [] rest = refl
demask_from-append i mask (x ∷ xs) rest = rw (demask_from-append (i + 1) mask xs rest)

-- Over the `len` bytes at the front of a buffer the in-place loop is the masking of the protocol, and
-- what lies behind them is left alone.
pub demask-append :
    (mask xs rest : List ℕ)
    → demask (xs ++ rest) (pos (length xs)) mask ≡ some (masked 0 mask xs ++ rest)
unfolding demask
demask-append mask xs rest = demask_from-append 0 mask xs rest

-- The loop keeps the buffer's length and what is behind the `n` bytes, and stays inside a buffer of at least `n` bytes.
pub demask_from-total :
    (n i : ℕ) (mask xs : List ℕ)
    → n ≤ length xs
    → (ys : List ℕ) × (demask_from n i mask xs ≡ some ys)
      × (length ys ≡ length xs)
      × ((m : ℕ) → n ≤ m → drop m ys ≡ drop m xs)
unfolding demask_from
demask_from-total zero i mask xs h = (xs, refl, refl, λ m le. refl)
demask_from-total (suc n) i mask [] h = absurd (omega arith)
demask_from-total (suc n) i mask (x ∷ xs) h =
    let (ys, e, l, same) = demask_from-total n (i + 1) mask xs (omega arith) in
    (bit_xor x (get_or mask (i % 4) 0) ∷ ys, rw e, ap suc l, behind ys same)
  where
    behind :
        (ys : List ℕ)
        → ((m : ℕ) → n ≤ m → drop m ys ≡ drop m xs)
        → (m : ℕ) → suc n ≤ m
        → drop m (bit_xor x (get_or mask (i % 4) 0) ∷ ys) ≡ drop m (x ∷ xs)
    behind ys same zero le = absurd (omega (arith, le))
    behind ys same (suc m) le = same m (omega (arith, le))
