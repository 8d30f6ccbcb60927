-- ===== src/WebSocket/Server/Echo.antt =====
-- What `ws_request` answers to a client's frame and to a request that is no upgrade.
use voice.Prelude.{
  ℕ, ◌+◌, ◌≡◌, ◌≤◌, some, ap, ◌∙◌, true, false, List, [], ◌∷◌, ◌++◌, arith, ◌==◌, length, All, drop,
}
use voice.Prelude.Bytes.{IsByte}
use voice.Prelude.Text.{c_string, c_string-behind}
use voice.WebSocket.Conn.{Conn, buffer_length, ok}
use voice.WebSocket.Frame.{decode_packet}
use voice.WebSocket.Frame.Decode.{client_frame, decode-client_frame}
use voice.WebSocket.Frame.Encode.{server_frame, encode_packet-server_frame}
use voice.WebSocket.Handshake.{OpenSsl, handshake}
use voice.WebSocket.Server.{ws_request}

module _ (ssl : OpenSsl) (c : Conn) where
  -- After the handshake a client's frame of at most 125 bytes is answered by an unmasked frame with
  -- the same payload, of two bytes more. The payload stands unmasked in `rbuffer`, which has a NUL
  -- behind the frame.
  pub ws_request-client_frame :
      (b0 k0 k1 k2 k3 : ℕ) (payload rest text : List ℕ)
      → c_string rest ≡ some text
      → c.status ≡ 1
      → c.rbuffer ≡ client_frame b0 (k0 ∷ k1 ∷ k2 ∷ k3 ∷ []) payload ++ rest
      → length c.wbuffer ≡ buffer_length
      → All IsByte (k0 ∷ k1 ∷ k2 ∷ k3 ∷ [])
      → All IsByte payload
      → length payload ≤ 125
      → ws_request ssl c
        ≡ ok (record c {
          rbuffer = b0 ∷ (128 + length payload) ∷ k0 ∷ k1 ∷ k2 ∷ k3 ∷ (payload ++ rest);
          wbuffer = server_frame payload ++ drop (2 + length payload) c.wbuffer;
          wlength = 2 + length payload;
        })
  unfolding ws_request
  ws_request-client_frame b0 k0 k1 k2 k3 payload rest text ends open_ e room hk hp small =
      let key = k0 ∷ k1 ∷ k2 ∷ k3 ∷ [] in
      let t0 : (c.status == 0) ≡ false = ground arith in
      let t1 : (c.status == 1) ≡ true = ground arith in
      let read : decode_packet c.rbuffer ≡ _ =
        ap decode_packet e ∙ decode-client_frame b0 k0 k1 k2 k3 payload rest hk hp small in
      let (printed, shown) = c_string-behind payload rest text ends in
      rw (
        t0,
        t1,
        read,
        shown,
        encode_packet-server_frame c.wbuffer key payload rest small (omega arith),
      )

  -- A handshake that finishes moves the connection to the frame state.
  pub ws_request-handshake :
      (d : Conn)
      → c.status ≡ 0
      → handshake ssl c ≡ ok d
      → ws_request ssl c ≡ ok (record d { status = 1 })
  unfolding ws_request
  ws_request-handshake d e shaken =
      let t0 : (c.status == 0) ≡ true = ground arith in rw (t0, shaken)
