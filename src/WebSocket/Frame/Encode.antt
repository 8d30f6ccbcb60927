-- ===== src/WebSocket/Frame/Encode.antt =====
-- `encode_packet` of server.c, and what a client makes of its frames.
use voice.Prelude.{
  ℕ, ◌+◌, ◌*◌, ◌<◌, ◌≤◌, ◌≡◌, inl, inr, false, true, Option, some, none, List, [], ◌∷◌, ◌++◌, arith,
  length, take, drop, ltb, ◌==◌, if◌then◌else◌, Bool-cases, length-drop,
}
use voice.Prelude.Int.{pos}
use voice.Prelude.Memory.{
  read_bytes, write_bytes-front, write_bytes-append, read_bytes-front, drop-drop,
}
use voice.WebSocket.Frame.{encode_head, encode_packet}

-- The frame is the header and the payload; the rest of the buffer keeps its bytes.
pub encode_packet-append :
    (buffer mask payload rest : List ℕ)
    → length (encode_head (length payload) mask) + length payload ≤ length buffer
    → let head = encode_head (length payload) mask in
      encode_packet buffer mask (payload ++ rest) (pos (length payload))
      ≡ some (
        length head + length payload,
        head ++ (payload ++ drop (length head + length payload) buffer),
      )
unfolding encode_packet
encode_packet-append buffer mask payload rest room =
    let n = length payload in
    let head = encode_head n mask in
    rw (
      write_bytes-front buffer head (omega arith),
      read_bytes-front payload rest,
      write_bytes-append head (drop (length head) buffer) payload
          (omega (arith, length-drop (length head) buffer)),
      drop-drop (length head) n buffer,
    )

-- A frame that carries its length in byte 1.
unfoldable pub server_frame : List ℕ → List ℕ
server_frame payload = 129 ∷ length payload ∷ payload

head_short : (n : ℕ) (mask : List ℕ) → n < 126 → encode_head n mask ≡ 129 ∷ n ∷ []
unfolding encode_head
head_short n mask h = ground arith

-- A payload of at most 125 bytes that fits the buffer becomes the unmasked text frame of the
-- protocol: FIN and opcode 1, the length, the payload. The result is its length, and the buffer
-- behind the frame keeps its bytes.
pub encode_packet-server_frame :
    (buffer mask payload rest : List ℕ)
    → length payload ≤ 125
    → 2 + length payload ≤ length buffer
    → encode_packet buffer mask (payload ++ rest) (pos (length payload))
      ≡ some (2 + length payload, server_frame payload ++ drop (2 + length payload) buffer)
unfolding server_frame
encode_packet-server_frame buffer mask payload rest small room =
    let e = head_short (length payload) mask (omega arith) in
    let go = encode_packet-append buffer mask payload rest in rw e at go (omega arith)

-- A word in network order.
unfoldable pub of_be : ℕ → List ℕ → ℕ
of_be acc [] = acc
of_be acc (b ∷ bs) = of_be (256 * acc + b) bs

-- The payload that RFC 6455 gives to an unmasked frame.
unfoldable pub received : List ℕ → Option (List ℕ)
unfolding of_be
received [] = none
received (b0 ∷ []) = none
received (b0 ∷ b1 ∷ tail) =
    if ltb b1 126
    then read_bytes tail 0 b1
    else if b1 == 126
    then read_bytes tail 2 (of_be 0 (take 2 tail))
    else read_bytes tail 8 (of_be 0 (take 8 tail))

-- A client gets a payload of at most 125 bytes back as it was, whatever follows the frame.
pub received-server_frame :
    (payload rest : List ℕ)
    → length payload ≤ 125
    → received (server_frame payload ++ rest) ≡ some payload
unfolding received server_frame
received-server_frame payload rest small =
    let t : ltb (length payload) 126 ≡ true = ground arith in rw (t, read_bytes-front payload rest)

head_long :
    (n : ℕ) (mask : List ℕ) → 126 ≤ n → encode_head n mask ≡ 129 ∷ 0 ∷ drop 2 (encode_head n mask)
unfolding encode_head
head_long n mask h =
    let long : ltb n 126 ≡ false = ground arith in
    elim (Bool-cases (ltb n 0xffff)) [ inl e ↦ rw (long, e) | inr e ↦ rw (long, e) ]

-- For a payload of 126 bytes or more that fits the buffer, byte 1 of the frame stays 0: a client
-- takes the frame for an empty message, since neither 126 nor 127 is ever written there.
pub received-encode_packet_long :
    (buffer mask payload rest : List ℕ)
    → 126 ≤ length payload
    → length (encode_head (length payload) mask) + length payload ≤ length buffer
    → (n : ℕ) × (out : List ℕ) × (encode_packet buffer mask (payload ++ rest) (pos (length payload))
        ≡ some (n, out))
      × (received out ≡ some [])
unfolding received
received-encode_packet_long buffer mask payload rest long room = (
  _,
  _,
  encode_packet-append buffer mask payload rest room,
  rw (head_long (length payload) mask long) (read_bytes-front [] _),
)
