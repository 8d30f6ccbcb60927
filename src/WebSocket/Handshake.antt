-- ===== src/WebSocket/Handshake.antt =====
-- server.c of the WebSocket server: `readline`, `base64_encode` and `handshake`. OpenSSL's SHA1 and
-- its base64 filter are parameters.
pub mod Line
pub mod Accept
pub mod Ends
use voice.Prelude.{
  ℕ, zero, suc, ◌+◌, ◌-◌, ◌≤◌, Bool, Option, none, some, List, [], ◌∷◌, ◌++◌, ◌==◌, ◌&&◌, leb,
  if◌then◌else◌, get_or, drop, set, length, replicate,
}
use voice.Prelude.Text.{codes, strstr, c_string}
use voice.Prelude.Memory.{write_bytes}
use voice.WebSocket.Conn.{Conn, buffer_length, Run, ok, fault, out_of_fuel, of_option, ◌>>=◌}

abbrev pub cr : ℕ
cr = 13

abbrev pub lf : ℕ
lf = 10

-- The loop of `readline` from index `level`, with the text that is left. The line is what was copied
-- to `linebuf`, also where no CRLF is found (the C code's -1, here `none`).
unfoldable pub readline_from : ℕ → List ℕ → Option ℕ × List ℕ
readline_from level [] = (none, [])
readline_from level (c ∷ cs) =
    let (next, line) = readline_from (level + 1) cs in
    if c == cr && get_or cs 0 0 == lf then (some (level + 2), []) else (next, c ∷ line)

unfoldable pub readline : List ℕ → ℕ → Option ℕ × List ℕ
unfolding readline_from
readline text level = readline_from level (drop level text)

abbrev pub guid : List ℕ
guid = codes "258EAFA5-E914-47DA-95CA-C5AB0DC85B11"

abbrev pub key_name : List ℕ
key_name = codes "Sec-WebSocket-Key"

abbrev pub response_head : List ℕ
response_head =
    codes
      "HTTP/1.1 101 Switching Protocols\r\nUpgrade: websocket\r\nConnection: Upgrade\r\nSec-WebSocket-Accept: "

abbrev pub blank_line : List ℕ
blank_line = codes "\r\n\r\n"

-- Does the text go on with an empty line at index `i`?
unfoldable pub at_blank : List ℕ → ℕ → Bool
at_blank text i = get_or text i 0 == cr && get_or text (i + 1) 0 == lf

-- OpenSSL's SHA1, and what its base64 filter writes to the memory BIO.
pub record OpenSsl : Type 0 where
  pub sha1 : List ℕ → List ℕ
  pub bio_base64 : List ℕ → List ℕ

-- The `memset` of `wbuffer` and the `sprintf` into it, with the text of `sec_accept`.
unfoldable pub reply : Conn → List ℕ → Run Conn
reply c accept =
    let response = response_head ++ (accept ++ blank_line) in
    do
      out ← of_option (write_bytes (replicate buffer_length 0) 0 (response ++ 0 ∷ []))
      ok (record c { wbuffer = out; wlength = length response })

module _ (ssl : OpenSsl) where
  -- The last byte that the filter writes is replaced by a NUL; with no byte that is a write before
  -- `out_str`. The result is the size and `out_str`.
  unfoldable pub base64_encode : List ℕ → List ℕ → Run (ℕ × List ℕ)
  base64_encode in_str out_str =
      let encoded = ssl.bio_base64 in_str in
      do
        out ← of_option (write_bytes out_str 0 encoded)
        (if length encoded == 0 then fault else ok (length encoded, set out (length encoded - 1) 0))

  -- The branch of `handshake` for the line that names the key.
  unfoldable pub answer : List ℕ → Conn → Run Conn
  unfolding base64_encode reply
  answer line c =
      if leb (length line + length guid + 1) 1024
      then (base64_encode (ssl.sha1 (drop 19 (line ++ guid))) (replicate 32 0)
          >>= λ (size, sec_accept). of_option (c_string sec_accept) >>= reply c)
      else fault

  -- After a readline that fails, the loop's test reads `rbuffer[-1]`.
  unfoldable pub handshake_loop : ℕ → List ℕ → ℕ → Conn → Run Conn
  unfolding readline answer at_blank
  handshake_loop zero text idx c = out_of_fuel
  handshake_loop (suc fuel) text idx c =
      let (next, line) = readline text idx in
      let more : Run Conn = elim next [
        | none ↦ fault
        | some i ↦ let rest = handshake_loop fuel text i c in if at_blank text i then ok c else rest
      ] in
      if strstr line key_name then answer line c else more

  -- A received text with no NUL in its buffer makes `strlen` run past it.
  unfoldable pub handshake : Conn → Run Conn
  unfolding handshake_loop
  handshake c = do text ← of_option (c_string c.rbuffer); handshake_loop (length text + 1) text 0 c
