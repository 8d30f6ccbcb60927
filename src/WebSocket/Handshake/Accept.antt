-- ===== src/WebSocket/Handshake/Accept.antt =====
-- The answer of `handshake` to an upgrade request.
use voice.Prelude.{
  ℕ, suc, ◌+◌, ◌-◌, ◌≡◌, ◌≢◌, ◌≤◌, refl, ap, ◌∙◌, false, true, some, List, [], ◌∷◌, ◌++◌, arith,
  ◌==◌, length, All, All-append, drop, replicate, length-append, set-append, append_assoc,
}
use voice.Prelude.Memory.{write_bytes-front, leb-true}
use voice.Prelude.Text.{codes, strstr, c_string, c_string-append}
use voice.WebSocket.Conn.{Conn, buffer_length, ok}
use voice.WebSocket.Handshake.{
  cr, lf, guid, key_name, response_head, blank_line, OpenSsl, base64_encode, answer, handshake,
}
use voice.WebSocket.Handshake.Line.{
  IsLine, IsOther, request, lines_text, length-lines_text, handshake_loop-request,
}

-- What server.c relies on: a digest has 20 bytes, and the filter writes their 28 Base64 characters
-- and a line feed.
pub record IsOpenSsl (ssl : OpenSsl) : Type 0 where
  pub base64 : List ℕ → List ℕ
  pub length-sha1 : (s : List ℕ) → length (ssl.sha1 s) ≡ 20
  pub filter : (d : List ℕ) → length d ≡ 20 → ssl.bio_base64 d ≡ base64 d ++ lf ∷ []
  pub length-base64 : (d : List ℕ) → length d ≡ 20 → length (base64 d) ≡ 28
  pub printable : (d : List ℕ) → length d ≡ 20 → All (λ b. b ≢ 0) (base64 d)

-- The encoder's line feed becomes the NUL that ends the text.
base64_encode_lem :
    (ssl : OpenSsl) (d text buf : List ℕ)
    → ssl.bio_base64 d ≡ text ++ lf ∷ []
    → suc (length text) ≤ length buf
    → base64_encode ssl d buf ≡ ok (suc (length text), text ++ 0 ∷ drop (suc (length text)) buf)
unfolding base64_encode
base64_encode_lem ssl d text buf e room =
    let n : length (text ++ lf ∷ []) ≡ suc (length text) =
      omega (arith, length-append text (lf ∷ [])) in
    let t : (suc (length text) == 0) ≡ false = ground arith in
    let last : suc (length text) - 1 ≡ length text = omega arith in
    rw (
      e,
      write_bytes-front buf (text ++ lf ∷ []) (omega arith),
      n,
      t,
      last,
      append_assoc text (lf ∷ []) (drop (suc (length text)) buf),
      set-append text lf (drop (suc (length text)) buf) 0,
    )

-- The answer that goes into `wbuffer`, with the NUL of `sprintf` and the zeros of `memset` behind it.
abbrev pub response : List ℕ → List ℕ
response accept = response_head ++ (accept ++ blank_line)

abbrev pub answered : Conn → List ℕ → Conn
answered c accept = record c {
  wbuffer =
      (response accept ++ 0 ∷ [])
      ++ drop (length (response accept ++ 0 ∷ [])) (replicate buffer_length 0);
  wlength = length (response accept);
}

pub length-response : (accept : List ℕ) → length (response accept ++ 0 ∷ []) ≡ length accept + 102
length-response accept = omega (
  arith,
  length-append (response accept) (0 ∷ []),
  length-append response_head (accept ++ blank_line),
  length-append accept blank_line,
)

module _ (ssl : OpenSsl) (laws : IsOpenSsl ssl) (c : Conn) where
  answer_lem :
      (line : List ℕ)
      → length line + 37 ≤ 1024
      → answer ssl line c ≡ ok (answered c (laws.base64 (ssl.sha1 (drop 19 (line ++ guid)))))
  unfolding answer
  answer_lem line short =
      let d = ssl.sha1 (drop 19 (line ++ guid)) in
      let text = laws.base64 d in
      let size = laws.length-sha1 (drop 19 (line ++ guid)) in
      let n = laws.length-base64 d size in
      rw (
        leb-true (length line + 36 + 1) 1024 (omega arith),
        base64_encode_lem ssl d text (replicate 32 0) (laws.filter d size) (omega arith),
        c_string-append text (drop (suc (length text)) (replicate 32 0)) (laws.printable d size),
        write_bytes-front (replicate buffer_length 0) (response text ++ 0 ∷ [])
            (omega (arith, length-response text)),
      )

-- The line by which a client names its key.
abbrev pub key_header : List ℕ → List ℕ
key_header key = codes "Sec-WebSocket-Key: " ++ key

key_header-IsLine : (key : List ℕ) → All (λ b. b ≢ cr) key → IsLine (key_header key)
key_header-IsLine key h = record {
  ne_nil = λ e. cc;
  no_cr = All-append (λ b. b ≢ cr) (codes "Sec-WebSocket-Key: ") key (omega arith) h;
}

strstr-key_header : (key : List ℕ) → strstr (key_header key) key_name ≡ true
unfolding strstr
strstr-key_header key = refl

module _ (ssl : OpenSsl) (laws : IsOpenSsl ssl) (c : Conn) where
  -- A request has its header lines in CRLFs, those before the key's not empty and without the name of
  -- the key; it fits its buffer, and the key's line is at most 987 bytes long. The answer is the
  -- switch of protocols with the Base64 text of the SHA-1 digest of key and GUID.
  pub handshake-request :
      (ls : List (List ℕ)) (key rest junk : List ℕ)
      → c.rbuffer ≡ request ls (key_header key) rest ++ 0 ∷ junk
      → All (λ b. b ≢ 0) (request ls (key_header key) rest)
      → All IsOther ls
      → All (λ b. b ≢ cr) key
      → length key + 56 ≤ 1024
      → handshake ssl c ≡ ok (answered c (laws.base64 (ssl.sha1 (key ++ guid))))
  unfolding handshake
  handshake-request ls key rest junk e text others plain short =
      let req = request ls (key_header key) rest in
      let read : c_string c.rbuffer ≡ some req = ap c_string e ∙ c_string-append req junk text in
      let left = length-append (lines_text ls) (key_header key ++ (cr ∷ lf ∷ rest)) in
      rw read (
        handshake_loop-request ssl c (key_header key) rest (key_header-IsLine key plain)
          (strstr-key_header key) (length req + 1) [] ls others
          (omega (arith, length-lines_text ls, left))
        ∙ answer_lem ssl laws c (key_header key) (omega arith))
