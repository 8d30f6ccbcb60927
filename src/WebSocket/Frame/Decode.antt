-- ===== src/WebSocket/Frame/Decode.antt =====
-- `decode_packet` of server.c: it undoes a client's short frame, stays inside its buffer, and never
-- reads an extended length.
use Prim.Native.Nat.{bit_and}
use voice.Prelude.{
  ℕ, ◌+◌, ◌/◌, ◌%◌, ◌≤◌, ◌≡◌, refl, ap, ◌∙◌, ◌⊎◌, inl, inr, false, some, List, [], ◌∷◌, ◌++◌, arith,
  length, drop, All, ◌==◌,
}
use voice.Prelude.Bytes.{IsByte}
use voice.Prelude.Int.{pos}
use voice.Prelude.Memory.{read_bytes, leb-true}
use voice.WebSocket.Frame.{Ophdr, ophdr_of, head_short, decode_head, demask, decode_packet}
use voice.WebSocket.Frame.Demask.{
  masked, length-masked, masked-masked, demask_from-total, demask-append,
}

mask_bit_and :
    (b : ℕ) → ((bit_and (b % 2) 0x7F == 126) ≡ false) × ((bit_and (b % 2) 0x7F == 127) ≡ false)
mask_bit_and b = elim (bit b) [ inl e ↦ rw e (refl, refl) | inr e ↦ rw e (refl, refl) ]
  where
    bit : (b : ℕ) → (b % 2 ≡ 0) ⊎ (b % 2 ≡ 1)
    bit b = omega arith

-- The tests for 126 and 127 look at the one mask bit, so the short case is always taken.
decode_head-short :
    (b0 b1 : ℕ) (stream : List ℕ)
    → decode_head (ophdr_of b0 b1) stream ≡ head_short (ophdr_of b0 b1) stream
unfolding decode_head ophdr_of
decode_head-short b0 b1 stream = rw ((mask_bit_and (b1 / 128)).0, (mask_bit_and (b1 / 128)).1)

-- A masked frame of at most 125 bytes, as RFC 6455 lays it out.
unfoldable pub client_frame : ℕ → List ℕ → List ℕ → List ℕ
client_frame b0 key payload = b0 ∷ (128 + length payload) ∷ (key ++ masked 0 key payload)

short_key :
    (hdr : Ophdr) (b0 b1 k0 k1 k2 k3 : ℕ) (tail : List ℕ)
    → head_short hdr (b0 ∷ b1 ∷ k0 ∷ k1 ∷ k2 ∷ k3 ∷ tail)
      ≡ some (record { size = pos hdr.payload_length; mask = k0 ∷ k1 ∷ k2 ∷ k3 ∷ []; start = 6 })
unfolding head_short read_bytes
short_key hdr b0 b1 k0 k1 k2 k3 tail =
    rw (leb-true (2 + 4) (length (b0 ∷ b1 ∷ k0 ∷ k1 ∷ k2 ∷ k3 ∷ tail)) (omega arith))

-- The key that masked a payload unmasks it.
demask-masked :
    (key payload rest : List ℕ)
    → All IsByte key
    → All IsByte payload
    → demask (masked 0 key payload ++ rest) (pos (length payload)) key ≡ some (payload ++ rest)
demask-masked key payload rest hk hp = rw (← length-masked 0 key payload) (
    demask-append key (masked 0 key payload) rest
    ∙ ap (λ (xs : List ℕ). some (xs ++ rest)) (masked-masked 0 key payload hk hp))

-- For a payload of at most 125 bytes, `decode_packet` finds the payload at offset 6, its length and
-- the key, and leaves it unmasked in the buffer; the bytes after the frame are untouched.
pub decode-client_frame :
    (b0 k0 k1 k2 k3 : ℕ) (payload rest : List ℕ)
    → All IsByte (k0 ∷ k1 ∷ k2 ∷ k3 ∷ [])
    → All IsByte payload
    → length payload ≤ 125
    → decode_packet (client_frame b0 (k0 ∷ k1 ∷ k2 ∷ k3 ∷ []) payload ++ rest)
      ≡ some (record {
        start = 6;
        size = pos (length payload);
        mask = k0 ∷ k1 ∷ k2 ∷ k3 ∷ [];
        stream = b0 ∷ (128 + length payload) ∷ k0 ∷ k1 ∷ k2 ∷ k3 ∷ (payload ++ rest);
      })
unfolding decode_packet client_frame
decode-client_frame b0 k0 k1 k2 k3 payload rest hk hp small =
    let key = k0 ∷ k1 ∷ k2 ∷ k3 ∷ [] in
    let b1 = 128 + length payload in
    let len : b1 % 128 ≡ length payload = omega arith in
    rw (
      decode_head-short b0 b1 (client_frame b0 key payload ++ rest),
      short_key (ophdr_of b0 b1) b0 b1 k0 k1 k2 k3 (masked 0 key payload ++ rest),
      len,
      demask-masked key payload rest hk hp,
    )

-- Whatever the frame says of its length, `decode_packet` stays inside a buffer of 133 bytes or more,
-- takes the low seven bits of byte 1 for the length and bytes 2 to 5 for the key: a frame with a
-- two-byte or eight-byte extended length is read as a short one. The bytes from the 133rd on stay.
pub decode_packet-total :
    (b0 b1 k0 k1 k2 k3 : ℕ) (tail : List ℕ)
    → 127 ≤ length tail
    → (ys : List ℕ) × (decode_packet (b0 ∷ b1 ∷ k0 ∷ k1 ∷ k2 ∷ k3 ∷ tail)
        ≡ some (record {
          start = 6;
          size = pos (b1 % 128);
          mask = k0 ∷ k1 ∷ k2 ∷ k3 ∷ [];
          stream = b0 ∷ b1 ∷ k0 ∷ k1 ∷ k2 ∷ k3 ∷ ys;
        }))
      × (length ys ≡ length tail)
      × ((m : ℕ) → 127 ≤ m → drop m ys ≡ drop m tail)
unfolding decode_packet
decode_packet-total b0 b1 k0 k1 k2 k3 tail room =
    let key = k0 ∷ k1 ∷ k2 ∷ k3 ∷ [] in
    let (ys, e, l, same) = demask_from-total (b1 % 128) 0 key tail (omega arith) in
    (
      ys,
      rw (
        decode_head-short b0 b1 (b0 ∷ b1 ∷ k0 ∷ k1 ∷ k2 ∷ k3 ∷ tail),
        short_key (ophdr_of b0 b1) b0 b1 k0 k1 k2 k3 tail,
        e,
      ),
      l,
      λ m le. same m (omega (arith, le)),
    )
