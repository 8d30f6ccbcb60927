-- ===== src/WebSocket/Server/Keeps.antt =====
-- `handshake` and `ws_request` keep a connection's buffers whole, and what they leave alone.
use voice.Prelude.{
  ℕ, zero, suc, ◌+◌, ◌≡◌, ◌≤◌, ◌⊎◌, refl, ap, ◌∙◌, inl, inr, true, false, List, [], ◌∷◌, ◌++◌,
  arith, ◌==◌, length, drop, replicate, leb, Bool-cases, Option-cases, length-append,
}
use voice.Prelude.Memory.{write_bytes, length-write_bytes}
use voice.Prelude.Text.{strstr, c_string}
use voice.WebSocket.Conn.{
  Conn, buffer_length, of_option, ◌>>=◌, Ensures, Ensures-bind, Ensures-then,
}
use voice.WebSocket.Handshake.{
  OpenSsl, readline, at_blank, key_name, guid, response_head, blank_line, base64_encode, reply,
  answer, handshake_loop, handshake,
}
use voice.WebSocket.Server.{echo, ws_request}
use voice.WebSocket.Server.Safety.{IsConn, echo-IsConn}

-- Only the answer's buffer and length may change in a handshake.
pub record IsShaken (c d : Conn) : Type 0 where
  pub received : d.rbuffer ≡ c.rbuffer
  pub same_fd : d.fd ≡ c.fd
  pub same_status : d.status ≡ c.status
  pub answer : length d.wbuffer ≡ buffer_length
  pub sent : d.wlength ≤ buffer_length

write_bytes-Ensures :
    (buf : List ℕ) (off : ℕ) (src : List ℕ)
    → Ensures
        (λ out. (length out ≡ length buf) × (off + length src ≤ length buf))
        (of_option (write_bytes buf off src))
write_bytes-Ensures buf off src = elim (Option-cases (write_bytes buf off src)) [
  | inl e ↦ rw e tt
  | inr (out, e) ↦ rw e (length-write_bytes buf off src out e)
]

IsShaken-refl : (c : Conn) → IsConn c → IsShaken c c
IsShaken-refl c v = record {
  received = refl;
  same_fd = refl;
  same_status = refl;
  answer = v.answer;
  sent = v.sent;
}

reply-IsShaken : (c : Conn) (accept : List ℕ) → Ensures (IsShaken c) (reply c accept)
unfolding reply
reply-IsShaken c accept =
    let response = response_head ++ (accept ++ blank_line) in
    let zeros = replicate {A = ℕ} buffer_length 0 in
    Ensures-bind
      (λ out. (length out ≡ length zeros) × (0 + length (response ++ 0 ∷ []) ≤ length zeros))
      (IsShaken c) (of_option (write_bytes zeros 0 (response ++ 0 ∷ []))) _
      (write_bytes-Ensures zeros 0 (response ++ 0 ∷ []))
      λ out h. record {
        received = refl;
        same_fd = refl;
        same_status = refl;
        answer = h.0;
        sent = omega (arith, h.1, length-append response (0 ∷ []));
      }

module _ (ssl : OpenSsl) (c : Conn) where
  answer-IsShaken : (line : List ℕ) → Ensures (IsShaken c) (answer ssl line c)
  unfolding answer
  answer-IsShaken line = elim (Bool-cases (leb (length line + length guid + 1) 1024)) [
    | inr e ↦ rw e tt
    | inl e ↦ rw e (
        Ensures-then (IsShaken c)
          (base64_encode ssl (ssl.sha1 (drop 19 (line ++ guid))) (replicate 32 0))
          (λ (r : ℕ × List ℕ). of_option (c_string r.1) >>= reply c)
          λ r. Ensures-then (IsShaken c) (of_option (c_string r.1)) (reply c) (reply-IsShaken c))
  ]

  handshake_loop-IsShaken :
      (fuel : ℕ) (text : List ℕ) (idx : ℕ)
      → IsConn c
      → Ensures (IsShaken c) (handshake_loop ssl fuel text idx c)
  unfolding handshake_loop
  handshake_loop-IsShaken zero text idx v = tt
  handshake_loop-IsShaken (suc fuel) text idx v =
      elim (Bool-cases (strstr (readline text idx).1 key_name)) [
        | inl k ↦ rw k (answer-IsShaken (readline text idx).1)
        | inr k ↦ rw k (elim (Option-cases (readline text idx).0) [
          | inl n ↦ rw n tt
          | inr (i, n) ↦ rw n (elim (Bool-cases (at_blank text i)) [
            | inl b ↦ rw b (IsShaken-refl c v)
            | inr b ↦ rw b (handshake_loop-IsShaken fuel text i v)
          ])
        ])
      ]

  pub handshake-IsShaken : IsConn c → Ensures (IsShaken c) (handshake ssl c)
  unfolding handshake
  handshake-IsShaken v = elim (Option-cases (c_string c.rbuffer)) [
    | inl e ↦ rw e tt
    | inr (text, e) ↦ rw e (handshake_loop-IsShaken (length text + 1) text 0 v)
  ]

module _ (ssl : OpenSsl) (c : Conn) (v : IsConn c) where
  ws_request_shakes :
      c.status ≡ 0 → Ensures (λ d. IsConn d × (d.fd ≡ c.fd) × (d.status ≡ 1)) (ws_request ssl c)
  unfolding ws_request
  ws_request_shakes e =
      let t0 : (c.status == 0) ≡ true = ground arith in
      rw t0 (
        Ensures-bind (IsShaken c) (λ d. IsConn d × (d.fd ≡ c.fd) × (d.status ≡ 1)) _ _
          (handshake-IsShaken ssl c v)
          λ d s. (
            record {
              received = ap length s.received ∙ v.received;
              answer = s.answer;
              sent = s.sent;
              state = omega arith;
            },
            s.same_fd,
            refl,
          ))

  pub ws_request-echo : c.status ≡ 1 → ws_request ssl c ≡ echo c
  unfolding ws_request
  ws_request-echo e =
      let t0 : (c.status == 0) ≡ false = ground arith in
      let t1 : (c.status == 1) ≡ true = ground arith in rw (t0, t1)

  -- `ws_request` keeps both buffers whole, leaves the descriptor alone and ends in the frame state.
  pub ws_request-IsConn :
      Ensures (λ d. IsConn d × (d.fd ≡ c.fd) × (d.status ≡ 1)) (ws_request ssl c)
  ws_request-IsConn = elim (zero_or_one c.status v.state) [
    | inl e ↦ ws_request_shakes e
    | inr e ↦ rw (ws_request-echo e) (echo-IsConn c v e)
  ]
    where
      zero_or_one : (n : ℕ) → n ≤ 1 → (n ≡ 0) ⊎ (n ≡ 1)
      zero_or_one n h = omega arith
