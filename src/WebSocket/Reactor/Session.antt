-- ===== src/WebSocket/Reactor/Session.antt =====
-- One client from `accept` to the echo of its first message.
use voice.Prelude.{
  ℕ, suc, ◌+◌, ◌≡◌, ◌≢◌, ◌≤◌, ◌<◌, refl, sym, ap, ◌∙◌, true, false, some, List, [], ◌∷◌, ◌++◌,
  arith, ◌==◌, ==_refl, lt→ltb, length, drop, append_assoc, All, drop-replicate, length-append,
  length-drop,
}
use voice.Prelude.Bytes.{IsByte}
use voice.Prelude.Int.{ℤ, pos}
use voice.Prelude.Memory.{read_bytes, read_bytes-front, write_bytes-front}
use voice.WebSocket.Conn.{accept_cb, recv_cb, Conn, buffer_length, ok}
use voice.WebSocket.Handshake.{OpenSsl, cr, guid}
use voice.WebSocket.Handshake.Line.{IsOther, lines_text, request}
use voice.WebSocket.Handshake.Accept.{
  IsOpenSsl, key_header, answered, response, length-response, handshake-request,
}
use voice.WebSocket.Server.Echo.{ws_request-handshake, ws_request-client_frame}
use voice.WebSocket.Frame.Decode.{client_frame}
use voice.WebSocket.Frame.Demask.{length-masked}
use voice.WebSocket.Frame.Encode.{server_frame}
use voice.WebSocket.Server.{ws_request, ws_response}
use voice.Prelude.Text.{c_string}
use voice.WebSocket.Reactor.{
  Reactor, update, zeros, fresh_conn, epollin, epollout, Call, ctl_add, ctl_mod, send, set_event,
  connection_size, call, event_register, Received, bytes, on_accept, fill, on_recv, push, on_send,
  handle_read, handle_write, Ready, readable, writable, dispatch, run,
}

-- The entry that `recv_cb` hands to `ws_request`.
abbrev filled : Conn → List ℕ → Conn
filled c bs = record c { rbuffer = bs ++ drop (length bs) zeros; rlength = length bs }

-- `s` is reached from `r` by the event `e`, with `c` at `fd` and the calls `ks` made.
pub record Does (ssl : OpenSsl) (e : Ready) (fd : ℕ) (r s : Reactor) (c : Conn) (ks : List Call)
    : Type 0 where
  pub done : dispatch ssl e r ≡ ok s
  pub conn : s.conn_list fd ≡ c
  pub made : s.calls ≡ r.calls ++ ks

module _ (ssl : OpenSsl) (r : Reactor) (fd : ℕ) where
  accepts :
      (listener : ℕ) (got : Received)
      → (r.conn_list listener).r_action ≡ accept_cb
      → fd < connection_size
      → (s : Reactor) × Does ssl
          (readable listener (pos fd) got)
          fd
          r
          s
          (fresh_conn fd)
          (ctl_add fd epollin ∷ [])
  unfolding dispatch handle_read on_accept event_register set_event call
  accepts listener got a low = (
    set_event fd epollin 1 (record r { conn_list = update r.conn_list fd (fresh_conn fd) }),
    record {
      done =
          ap (λ k. handle_read ssl k listener (pos fd) got r) a
          ∙ rw (lt→ltb fd connection_size low);
      conn = rw (==_refl fd);
      made = refl;
    },
  )

  receives :
      (other : ℤ) (c d : Conn) (b : ℕ) (bs : List ℕ)
      → r.conn_list fd ≡ c
      → c.r_action ≡ recv_cb
      → suc (length bs) ≤ buffer_length
      → ws_request ssl (filled c (b ∷ bs)) ≡ ok d
      → (s : Reactor) × Does ssl
          (readable fd other (bytes (b ∷ bs)))
          fd
          r
          s
          d
          (ctl_mod fd epollout ∷ [])
  unfolding dispatch handle_read on_recv fill set_event call
  receives other c d b bs here a fits answered =
      let s = set_event fd epollout 0 (record r { conn_list = update r.conn_list fd d }) in
      let got : fill ssl (r.conn_list fd) (b ∷ bs) ≡ ok d =
        ap (λ k. fill ssl k (b ∷ bs)) here ∙ rw (write_bytes-front zeros (b ∷ bs) fits) answered in
      (
        s,
        record {
          done =
              ap (λ k. handle_read ssl k.r_action fd other (bytes (b ∷ bs)) r) here
              ∙ ap (λ k. handle_read ssl k fd other (bytes (b ∷ bs)) r) a
              ∙ rw got;
          conn = rw (==_refl fd);
          made = refl;
        },
      )

  sends :
      (c : Conn) (out rest : List ℕ)
      → r.conn_list fd ≡ c
      → c.can_send ≡ true
      → c.wbuffer ≡ out ++ rest
      → c.wlength ≡ length out
      → 0 < length out
      → (s : Reactor) × Does ssl (writable fd) fd r s c (send fd out ∷ ctl_mod fd epollin ∷ [])
  unfolding dispatch handle_write on_send push ws_response set_event call
  sends c out rest here can w n some_out =
      let t : (c.wlength == 0) ≡ false = ground arith in
      let whole : read_bytes c.wbuffer 0 c.wlength ≡ some out =
        ap (λ k. read_bytes k 0 c.wlength) w
        ∙ ap (read_bytes (out ++ rest) 0) n
        ∙ read_bytes-front out rest in
      let same = record r { conn_list = update r.conn_list fd (r.conn_list fd) } in
      (
        set_event fd epollin 0 (call (send fd out) same),
        record {
          done =
              ap (λ k. handle_write k.can_send fd r) here
              ∙ ap (λ k. handle_write k fd r) can
              ∙ ap (λ k. push fd k same) here
              ∙ rw (t, whole);
          conn = rw (==_refl fd) here;
          made = append_assoc r.calls (send fd out ∷ []) (ctl_mod fd epollin ∷ []);
        },
      )

module _ (ssl : OpenSsl) where
  run-cons :
      {e : Ready} {fd : ℕ} {r s : Reactor} {c : Conn} {ks : List Call} (es : List Ready)
      → Does ssl e fd r s c ks
      → run ssl (e ∷ es) r ≡ run ssl es s
  unfolding run
  run-cons es does = rw (does.done)

  receives_some :
      (r : Reactor) (fd : ℕ) (other : ℤ) (c d : Conn) (bs : List ℕ)
      → 0 < length bs
      → r.conn_list fd ≡ c
      → c.r_action ≡ recv_cb
      → length bs ≤ buffer_length
      → ws_request ssl (filled c bs) ≡ ok d
      → (s : Reactor) × Does ssl (readable fd other (bytes bs)) fd r s d (ctl_mod fd epollout ∷ [])
  receives_some r fd other c d [] h = elim h [ ]
  receives_some r fd other c d (b ∷ bs) h = receives ssl r fd other c d b bs

-- The entry after the handshake.
abbrev shaken : ℕ → List ℕ → List ℕ → Conn
shaken fd req accept = record (answered (filled (fresh_conn fd) req) accept) { status = 1 }

module _ (ssl : OpenSsl) (laws : IsOpenSsl ssl) (fd : ℕ) where
  open laws use {base64}

  -- The upgrade request of a new connection, as it lies in the buffer.
  request-shaken :
      (ls : List (List ℕ)) (key rest : List ℕ)
      → All (λ b. b ≢ 0) (request ls (key_header key) rest)
      → All IsOther ls
      → All (λ b. b ≢ cr) key
      → length (request ls (key_header key) rest) < buffer_length
      → length key + 56 ≤ 1024
      → ws_request ssl (filled (fresh_conn fd) (request ls (key_header key) rest))
        ≡ ok (shaken fd (request ls (key_header key) rest) (base64 (ssl.sha1 (key ++ guid))))
  request-shaken ls key rest text others plain fits short =
      let req = request ls (key_header key) rest in
      let c = filled (fresh_conn fd) req in
      ws_request-handshake ssl c (answered c (base64 (ssl.sha1 (key ++ guid)))) refl (
        handshake-request ssl laws c ls key rest (drop (suc (length req)) zeros)
          (ap (◌++◌ req) (drop-replicate buffer_length (length req) 0 fits)) text others plain
          short)

  length-shaken :
      (req s : List ℕ) → length (shaken fd req (base64 (ssl.sha1 s))).wbuffer ≡ buffer_length
  length-shaken req s =
      let text = base64 (ssl.sha1 s) in
      let n = laws.length-base64 (ssl.sha1 s) (laws.length-sha1 s) in
      let out = response text ++ 0 ∷ [] in
      omega (
        arith,
        length-response text,
        length-append out (drop (length out) zeros),
        length-drop (length out) zeros,
      )

request_pos :
    (ls : List (List ℕ)) (key rest : List ℕ) → 0 < length (request ls (key_header key) rest)
request_pos [] key rest = omega arith
request_pos (l ∷ ls) key rest = omega (
  arith,
  length-append (lines_text (l ∷ ls)) (key_header key ++ (cr ∷ 10 ∷ rest)),
  length-append (key_header key) (cr ∷ 10 ∷ rest),
)

module _ (b0 k0 k1 k2 k3 : ℕ) (payload : List ℕ) where
  length-client_frame :
      length (client_frame b0 (k0 ∷ k1 ∷ k2 ∷ k3 ∷ []) payload) ≡ length payload + 6
  unfolding client_frame
  length-client_frame = omega (arith, length-masked 0 (k0 ∷ k1 ∷ k2 ∷ k3 ∷ []) payload)

length-server_frame : (payload : List ℕ) → length (server_frame payload) ≡ 2 + length payload
unfolding server_frame
length-server_frame payload = omega arith

module _ (ssl : OpenSsl) (laws : IsOpenSsl ssl) (r : Reactor) (listener fd : ℕ) (other : ℤ)
    (got : Received) where
  -- A connection is accepted on a listening entry; its upgrade request arrives whole and fits the
  -- buffer with a byte to spare, and then a masked frame of at most 125 bytes does. The calls are: the
  -- descriptor is added for reading, the answer with the digest of key and GUID is sent when it is
  -- writable, the frame with the same payload is sent the next time, and reading is asked for again.
  pub run-session :
      (ls : List (List ℕ)) (key rest : List ℕ) (b0 k0 k1 k2 k3 : ℕ) (payload : List ℕ)
      → (r.conn_list listener).r_action ≡ accept_cb
      → fd < connection_size
      → All (λ b. b ≢ 0) (request ls (key_header key) rest)
      → All IsOther ls
      → All (λ b. b ≢ cr) key
      → length (request ls (key_header key) rest) < buffer_length
      → length key + 56 ≤ 1024
      → All IsByte (k0 ∷ k1 ∷ k2 ∷ k3 ∷ [])
      → All IsByte payload
      → length payload ≤ 125
      → (s : Reactor) × (run ssl
            (readable listener (pos fd) got
              ∷ readable fd other (bytes (request ls (key_header key) rest))
              ∷ writable fd
              ∷ readable fd other (bytes (client_frame b0 (k0 ∷ k1 ∷ k2 ∷ k3 ∷ []) payload))
              ∷ writable fd
              ∷ [])
            r
          ≡ ok s)
        × (s.calls
            ≡ r.calls
              ++ (ctl_add fd epollin
                  ∷ ctl_mod fd epollout
                  ∷ send fd (response (laws.base64 (ssl.sha1 (key ++ guid))))
                  ∷ ctl_mod fd epollin
                  ∷ ctl_mod fd epollout
                  ∷ send fd (server_frame payload)
                  ∷ ctl_mod fd epollin
                  ∷ []))
  unfolding run c_string
  run-session ls key rest b0 k0 k1 k2 k3 payload a low text others plain fits short hk hp small =
      let req = request ls (key_header key) rest in
      let frame = client_frame b0 (k0 ∷ k1 ∷ k2 ∷ k3 ∷ []) payload in
      let long = length-client_frame b0 k0 k1 k2 k3 payload in
      let text_of = laws.base64 (ssl.sha1 (key ++ guid)) in
      let h = shaken fd req text_of in
      let (r1, d1) = accepts ssl r fd listener got a low in
      let (r2, d2) =
        receives_some ssl r1 fd other (fresh_conn fd) h req (request_pos ls key rest) d1.conn refl
          (omega arith) (request-shaken ssl laws fd ls key rest text others plain fits short) in
      let (r3, d3) =
        sends ssl r2 fd h (response text_of) (0 ∷ drop (length (response text_of ++ 0 ∷ [])) zeros)
          d2.conn refl (append_assoc (response text_of) (0 ∷ []) _) refl (omega arith) in
      let answer =
        ws_request-client_frame ssl (filled h frame) b0 k0 k1 k2 k3 payload
          (drop (length frame) zeros) []
          (ap c_string (drop-replicate buffer_length (length frame) 0 (omega (arith, long)))) refl
          refl (length-shaken ssl laws fd req (key ++ guid)) hk hp small in
      let (r4, d4) =
        receives_some ssl r3 fd other h _ frame (omega (arith, long)) d3.conn refl
          (omega (arith, long)) answer in
      let (r5, d5) =
        sends ssl r4 fd _ (server_frame payload) _ d4.conn refl refl
          (sym (length-server_frame payload)) (omega (arith, length-server_frame payload)) in
      (
        r5,
        rw (d1.done, d2.done, d3.done, d4.done, d5.done),
        d5.made ∙ simp (d4.made, d3.made, d2.made, d1.made, append_assoc),
      )
