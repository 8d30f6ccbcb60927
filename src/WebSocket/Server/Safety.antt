-- ===== src/WebSocket/Server/Safety.antt =====
-- A connection's buffers stay whole, and no frame makes the server leave them.
use voice.Prelude.{
  ℕ, ◌+◌, ◌%◌, ◌≡◌, ◌≤◌, refl, ap, sym, ◌∙◌, some, List, [], ◌∷◌, ◌++◌, arith, length, drop, take,
  length-append, length-drop, length-take, take-append-drop,
}
use voice.Prelude.Int.{pos}
use voice.Prelude.Text.{c_string, c_string-behind}
use voice.WebSocket.Conn.{Conn, buffer_length, ok, of_option, Ensures, Ensures-then}
use voice.WebSocket.Frame.{decode_packet, encode_head, encode_packet}
use voice.WebSocket.Frame.Decode.{decode_packet-total}
use voice.WebSocket.Frame.Encode.{encode_packet-append}
use voice.WebSocket.Server.{echo}

pub record IsConn (c : Conn) : Type 0 where
  pub received : length c.rbuffer ≡ buffer_length
  pub answer : length c.wbuffer ≡ buffer_length
  pub sent : c.wlength ≤ buffer_length
  pub state : c.status ≤ 1

record Six (xs : List ℕ) : Type 0 where
  b0 : ℕ
  b1 : ℕ
  k0 : ℕ
  k1 : ℕ
  k2 : ℕ
  k3 : ℕ
  tail : List ℕ
  eq : xs ≡ b0 ∷ b1 ∷ k0 ∷ k1 ∷ k2 ∷ k3 ∷ tail

six : (xs : List ℕ) → 6 ≤ length xs → Six xs
six (b0 ∷ b1 ∷ k0 ∷ k1 ∷ k2 ∷ k3 ∷ tail) h = record {
  b0 = b0;
  b1 = b1;
  k0 = k0;
  k1 = k1;
  k2 = k2;
  k3 = k3;
  tail = tail;
  eq = refl;
}
six xs h = absurd (omega arith)

length-encode_head : (n k0 k1 k2 k3 : ℕ) → length (encode_head n (k0 ∷ k1 ∷ k2 ∷ k3 ∷ [])) ≤ 22
unfolding encode_head
length-encode_head n k0 k1 k2 k3 = ground arith

encode_packet-total :
    (buffer ys : List ℕ) (n k0 k1 k2 k3 : ℕ)
    → length buffer ≡ buffer_length
    → n ≤ 127
    → n ≤ length ys
    → (m : ℕ) × (out : List ℕ) × (encode_packet buffer (k0 ∷ k1 ∷ k2 ∷ k3 ∷ []) ys (pos n)
        ≡ some (m, out))
      × (length out ≡ buffer_length)
      × (m ≤ buffer_length)
encode_packet-total buffer ys n k0 k1 k2 k3 room small within =
    let key = k0 ∷ k1 ∷ k2 ∷ k3 ∷ [] in
    let payload = take n ys in
    let e : length payload ≡ n = omega (arith, length-take n ys) in
    let head = encode_head (length payload) key in
    let fits = length-encode_head (length payload) k0 k1 k2 k3 in
    let rest = drop (length head + length payload) buffer in
    (
      length head + length payload,
      head ++ (payload ++ rest),
      ap (λ xs. encode_packet buffer key xs (pos n)) (sym (take-append-drop n ys))
          ∙ ap (λ m. encode_packet buffer key (payload ++ drop n ys) (pos m)) (sym e)
          ∙ encode_packet-append buffer key payload (drop n ys) (omega arith),
      omega (
        arith,
        length-append head (payload ++ rest),
        length-append payload rest,
        length-drop (length head + length payload) buffer,
      ),
      omega arith,
    )

-- Whatever 1024 bytes stand in `rbuffer`, with a NUL from the 133rd on, the answer to a frame is computed with no access outside a
-- buffer, and leaves a connection whose buffers are whole, in the frame state and with its descriptor.
pub echo-total :
    (c : Conn) (text : List ℕ)
    → IsConn c
    → c.status ≡ 1
    → c_string (drop 133 c.rbuffer) ≡ some text
    → (d : Conn) × (echo c ≡ ok d) × IsConn d × (d.status ≡ 1) × (d.fd ≡ c.fd)
unfolding echo
echo-total c text v open_ ends =
    let s = six c.rbuffer (omega arith) in
    let room : 127 ≤ length s.tail = omega (arith, ap length s.eq) in
    let (ys, e, l, same) = decode_packet-total s.b0 s.b1 s.k0 s.k1 s.k2 s.k3 s.tail room in
    let kept : c_string (drop 127 ys) ≡ some text =
      ap c_string (same 127 (omega arith) ∙ sym (ap (drop 133) s.eq)) ∙ ends in
    let (printed, shown) = c_string-behind (take 127 ys) (drop 127 ys) text kept in
    let shown' : c_string ys ≡ some printed = ap c_string (sym (take-append-drop 127 ys)) ∙ shown in
    let (m, out, f, lo, lm) =
      encode_packet-total c.wbuffer ys (s.b1 % 128) s.k0 s.k1 s.k2 s.k3 v.answer (omega arith)
        (omega arith) in
    (
      record c {
        rbuffer = s.b0 ∷ s.b1 ∷ s.k0 ∷ s.k1 ∷ s.k2 ∷ s.k3 ∷ ys;
        wbuffer = out;
        wlength = m;
      },
      rw (ap decode_packet s.eq ∙ e, shown', f),
      record { received = omega (arith, ap length s.eq); answer = lo; sent = lm; state = v.state },
      open_,
      refl,
    )

-- The same without the NUL, where printf runs past the buffer.
pub echo-IsConn :
    (c : Conn)
    → IsConn c
    → c.status ≡ 1
    → Ensures (λ d. IsConn d × (d.fd ≡ c.fd) × (d.status ≡ 1)) (echo c)
unfolding echo
echo-IsConn c v open_ =
    let s = six c.rbuffer (omega arith) in
    let room : 127 ≤ length s.tail = omega (arith, ap length s.eq) in
    let (ys, e, l, same) = decode_packet-total s.b0 s.b1 s.k0 s.k1 s.k2 s.k3 s.tail room in
    let (m, out, f, lo, lm) =
      encode_packet-total c.wbuffer ys (s.b1 % 128) s.k0 s.k1 s.k2 s.k3 v.answer (omega arith)
        (omega arith) in
    rw (ap decode_packet s.eq ∙ e) (
      Ensures-then (λ d. IsConn d × (d.fd ≡ c.fd) × (d.status ≡ 1)) (of_option (c_string ys)) _
        λ printed. rw (f) (
          record {
            received = omega (arith, ap length s.eq);
            answer = lo;
            sent = lm;
            state = v.state;
          },
          refl,
          open_,
        ))
