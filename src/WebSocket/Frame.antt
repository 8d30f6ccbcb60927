-- ===== src/WebSocket/Frame.antt =====
-- server.c of the WebSocket server: the two header bytes, `demask`, `decode_packet` and
-- `encode_packet`. A buffer is a list of bytes; `none` is an access outside it.
pub mod Demask
pub mod Decode
pub mod Encode
use Prim.Native.Nat.{bit_and, bit_xor}
use mathlib.Core.Option
use voice.Prelude.{
  ℕ, zero, suc, ◌+◌, ◌*◌, ◌/◌, ◌%◌, Option, none, some, List, [], ◌∷◌, ◌++◌, ◌==◌, if◌then◌else◌,
  ltb, get_elem?, get_or, take, drop, replicate, length,
}
use voice.Prelude.Int.{ℤ, pos, negsuc, pos_part, to_int32}
use voice.Prelude.Memory.{read_bytes, write_bytes, of_le, le_bytes}

infixl 5 ◌>>=◌
abbrev pub ◌>>=◌ {ℓ κ} : {A : Type ℓ} {B : Type κ} → Option A → (A → Option B) → Option B
none >>= f = none
some a >>= f = f a

-- struct _nty_ophdr: its bit fields, from the lowest bit of each byte.
pub record Ophdr : Type 0 where
  pub opcode : ℕ
  pub rsv3 : ℕ
  pub rsv2 : ℕ
  pub rsv1 : ℕ
  pub fin : ℕ
  pub payload_length : ℕ
  pub mask : ℕ

unfoldable pub ophdr_of : ℕ → ℕ → Ophdr
ophdr_of b0 b1 = record {
  opcode = b0 % 16;
  rsv3 = b0 / 16 % 2;
  rsv2 = b0 / 32 % 2;
  rsv1 = b0 / 64 % 2;
  fin = b0 / 128 % 2;
  payload_length = b1 % 128;
  mask = b1 / 128 % 2;
}

unfoldable pub ophdr_bytes : Ophdr → List ℕ
ophdr_bytes h =
    (h.opcode + 16 * h.rsv3 + 32 * h.rsv2 + 64 * h.rsv1 + 128 * h.fin)
    ∷ (h.payload_length + 128 * h.mask)
    ∷ []

-- The loop of `demask`, with `n` rounds left at index `i`.
unfoldable pub demask_from : ℕ → ℕ → List ℕ → List ℕ → Option (List ℕ)
demask_from zero i mask xs = some xs
demask_from (suc n) i mask [] = none
demask_from (suc n) i mask (x ∷ xs) =
    Option.map (λ rest. bit_xor x (get_or mask (i % 4) 0) ∷ rest) (demask_from n (i + 1) mask xs)

unfoldable pub demask : List ℕ → ℤ → List ℕ → Option (List ℕ)
unfolding demask_from
demask xs len mask = demask_from (pos_part len) 0 mask xs

-- What the three cases of `decode_packet` find in a header.
pub record Head : Type 0 where
  pub size : ℤ
  pub mask : List ℕ
  pub start : ℕ

-- struct _nty_websocket_head_126 and _127: the words are read in host order.
unfoldable pub head_126 : List ℕ → Option Head
head_126 stream = do
  len ← read_bytes stream 2 2
  key ← read_bytes stream 4 4
  some (record { size = pos (of_le len); mask = key; start = 8 })

unfoldable pub head_127 : List ℕ → Option Head
head_127 stream = do
  len ← read_bytes stream 2 8
  key ← read_bytes stream 10 4
  some (record { size = to_int32 (of_le len); mask = key; start = 14 })

unfoldable pub head_short : Ophdr → List ℕ → Option Head
head_short hdr stream = do
  key ← read_bytes stream 2 4
  some (record { size = pos hdr.payload_length; mask = key; start = 6 })

unfoldable pub decode_head : Ophdr → List ℕ → Option Head
decode_head hdr stream =
    if bit_and hdr.mask 0x7F == 126
    then head_126 stream
    else if bit_and hdr.mask 0x7F == 127
    then head_127 stream
    else head_short hdr stream

-- The result is the pointer (an offset), `*ret`, the key and the stream, demasked in place.
pub record Decoded : Type 0 where
  pub start : ℕ
  pub size : ℤ
  pub mask : List ℕ
  pub stream : List ℕ

unfoldable pub decode_packet : List ℕ → Option Decoded
unfolding ophdr_of demask
decode_packet stream = do
  b0 ← get_elem? stream 0
  b1 ← get_elem? stream 1
  head ← decode_head (ophdr_of b0 b1) stream
  payload ← demask (drop head.start stream) head.size head.mask
  some (record {
    start = head.start;
    size = head.size;
    mask = head.mask;
    stream = take head.start stream ++ payload;
  })

-- FIN = 1, opcode = 1, all other fields 0.
unfoldable pub text_head : Ophdr
text_head = record {
  opcode = 1;
  rsv3 = 0;
  rsv2 = 0;
  rsv1 = 0;
  fin = 1;
  payload_length = 0;
  mask = 0;
}

-- The header bytes that `encode_packet` copies into the buffer for a payload of `n` bytes.
unfoldable pub encode_head : ℕ → List ℕ → List ℕ
unfolding ophdr_bytes text_head
encode_head n mask =
    if ltb n 126
    then ophdr_bytes (record text_head { payload_length = n })
    else if ltb n 0xffff
    then ophdr_bytes text_head ++ (le_bytes 2 n ++ (take 4 mask ++ replicate 8 0))
    else ophdr_bytes text_head ++ (le_bytes 8 n ++ (take 4 mask ++ replicate 8 0))

-- The frame's length and the buffer. A negative length is a copy of more bytes than any buffer has.
unfoldable pub encode_packet : List ℕ → List ℕ → List ℕ → ℤ → Option (ℕ × List ℕ)
unfolding encode_head
encode_packet buffer mask stream (negsuc n) = none
encode_packet buffer mask stream (pos n) = do
  with_head ← write_bytes buffer 0 (encode_head n mask)
  payload ← read_bytes stream 0 n
  framed ← write_bytes with_head (length (encode_head n mask)) payload
  some (length (encode_head n mask) + n, framed)
