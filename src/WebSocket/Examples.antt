-- ===== src/WebSocket/Examples.antt =====
-- Runs of the WebSocket server on one client, and the theorems at its inputs.
use voice.Prelude.{ℕ, ◌≡◌, refl, List, [], ◌∷◌, ◌++◌, some, false, arith, length, replicate, drop}
use voice.Prelude.Int.{pos}
use voice.Prelude.Text.{c_string, codes, strstr}
use voice.WebSocket.Conn.{Conn, accept_cb, ok}
use voice.WebSocket.Frame.{encode_head, encode_packet, decode_packet}
use voice.WebSocket.Frame.Decode.{client_frame, decode-client_frame, decode_packet-total}
use voice.WebSocket.Frame.Encode.{server_frame, received, received-encode_packet_long}
use voice.WebSocket.Handshake.{OpenSsl, handshake, cr, lf}
use voice.WebSocket.Handshake.Line.{IsOther, request}
use voice.WebSocket.Handshake.Accept.{IsOpenSsl, key_header, answered, response, handshake-request}
use voice.WebSocket.Server.{ws_request}
use voice.WebSocket.Server.Echo.{ws_request-client_frame}
use voice.WebSocket.Reactor.{
  Reactor, zeros, fresh_conn, epollin, epollout, ctl_add, ctl_mod, send, bytes, closed, Ready,
  readable, writable, on_recv, run,
}
use voice.WebSocket.Reactor.Table.{IsTable, on_recv-total}
use voice.WebSocket.Reactor.Session.{run-session}

-- A stand-in for OpenSSL of the documented shape.
abbrev toy_ssl : OpenSsl
toy_ssl = record {
  sha1 = λ s. replicate 20 (length s);
  bio_base64 = λ d. replicate 28 b'A' ++ lf ∷ [];
}

abbrev toy_laws : IsOpenSsl toy_ssl
toy_laws = record {
  base64 = λ d. replicate 28 b'A';
  length-sha1 = λ s. refl;
  filter = λ d h. refl;
  length-base64 = λ d h. refl;
  printable = λ d h. omega arith;
}

abbrev hello : List ℕ
hello = codes "hello"

abbrev key : List ℕ
key = codes "QWz1vB=="

abbrev get_line : List ℕ
get_line = codes "GET / HTTP/1.1"

get_line-IsOther : IsOther get_line
unfolding strstr
get_line-IsOther = record { line = record { ne_nil = λ e. cc; no_cr = omega arith }; no_key = refl }

abbrev asked : List ℕ
asked = request (get_line ∷ []) (key_header key) (cr ∷ lf ∷ [])

decode_hello :
    decode_packet (client_frame 129 (1 ∷ 2 ∷ 3 ∷ 4 ∷ []) hello ++ zeros)
    ≡ some (record {
      start = 6;
      size = pos 5;
      mask = 1 ∷ 2 ∷ 3 ∷ 4 ∷ [];
      stream = 129 ∷ 133 ∷ 1 ∷ 2 ∷ 3 ∷ 4 ∷ (hello ++ zeros);
    })
decode_hello = decode-client_frame 129 1 2 3 4 hello zeros (omega arith) (omega arith) (omega arith)

-- A frame of 300 bytes announces 126 and its length in two bytes: the server takes the length's
-- bytes for the key.
decode_extended :
    (ys : List ℕ) × (decode_packet (129 ∷ 254 ∷ 1 ∷ 44 ∷ 9 ∷ 9 ∷ zeros)
      ≡ some (record {
        start = 6;
        size = pos 126;
        mask = 1 ∷ 44 ∷ 9 ∷ 9 ∷ [];
        stream = 129 ∷ 254 ∷ 1 ∷ 44 ∷ 9 ∷ 9 ∷ ys;
      }))
    × (length ys ≡ 1024)
decode_extended =
    let (ys, decoded, long, _) = decode_packet-total 129 254 1 44 9 9 zeros (omega arith) in
    (ys, decoded, long)

encode_long_example :
    (n : ℕ) × (out : List ℕ) × (encode_packet zeros
        (1 ∷ 2 ∷ 3 ∷ 4 ∷ [])
        (replicate 126 b'x' ++ [])
        (pos 126)
      ≡ some (n, out))
    × (received out ≡ some [])
unfolding encode_head
encode_long_example =
    received-encode_packet_long zeros (1 ∷ 2 ∷ 3 ∷ 4 ∷ []) (replicate 126 b'x') [] (omega arith)
      (omega arith)

abbrev asking : Conn
asking = record (fresh_conn 5) { rbuffer = asked ++ 0 ∷ zeros }

handshake_example : handshake toy_ssl asking ≡ ok (answered asking (replicate 28 b'A'))
handshake_example =
    handshake-request toy_ssl toy_laws asking (get_line ∷ []) key (cr ∷ lf ∷ []) zeros refl
      (omega arith) (get_line-IsOther, tt) (omega arith) (omega arith)

abbrev full : Conn
full = record (fresh_conn 5) { rbuffer = replicate 1024 b'x' }

abbrev open_conn : Conn
open_conn = record (fresh_conn 5) {
  status = 1;
  rbuffer = client_frame 129 (1 ∷ 2 ∷ 3 ∷ 4 ∷ []) hello ++ zeros;
}

ws_request_example :
    ws_request toy_ssl open_conn
    ≡ ok (record open_conn {
      rbuffer = 129 ∷ 133 ∷ 1 ∷ 2 ∷ 3 ∷ 4 ∷ (hello ++ zeros);
      wbuffer = server_frame hello ++ drop 7 zeros;
      wlength = 7;
    })
unfolding c_string
ws_request_example =
    ws_request-client_frame toy_ssl open_conn 129 1 2 3 4 hello zeros [] refl refl refl refl
      (omega arith) (omega arith) (omega arith)

-- The table as it is before the first client: descriptor 3 listens.
abbrev start : Reactor
start = record {
  conn_list = λ fd. record (fresh_conn fd) { r_action = accept_cb; can_send = false };
  calls = [];
}

start-IsTable : IsTable start
start-IsTable = record {
  conns = λ fd. record { received = refl; answer = refl; sent = omega arith; state = omega arith };
}

abbrev events : List Ready
events = readable 3 (pos 5) closed ∷ readable 5 (pos 0) (bytes hello) ∷ []

abbrev talking : Reactor
talking = record start { conn_list = λ fd. record (fresh_conn fd) { status = 1 } }

talking-IsTable : IsTable talking
talking-IsTable = record {
  conns = λ fd. record { received = refl; answer = refl; sent = omega arith; state = omega arith };
}

on_recv_example : (s : Reactor) × (on_recv toy_ssl 5 (bytes hello) talking ≡ ok s) × IsTable s
on_recv_example = on_recv-total toy_ssl 5 (bytes hello) talking talking-IsTable refl (omega arith)

session_example :
    (s : Reactor) × (run toy_ssl
        (readable 3 (pos 5) closed
          ∷ readable 5 (pos 0) (bytes asked)
          ∷ writable 5
          ∷ readable 5 (pos 0) (bytes (client_frame 129 (1 ∷ 2 ∷ 3 ∷ 4 ∷ []) hello))
          ∷ writable 5
          ∷ [])
        start
      ≡ ok s)
    × (s.calls
        ≡ ctl_add 5 epollin
          ∷ ctl_mod 5 epollout
          ∷ send 5 (response (replicate 28 b'A'))
          ∷ ctl_mod 5 epollin
          ∷ ctl_mod 5 epollout
          ∷ send 5 (server_frame hello)
          ∷ ctl_mod 5 epollin
          ∷ [])
session_example =
    run-session toy_ssl toy_laws start 3 5 (pos 0) closed (get_line ∷ []) key (cr ∷ lf ∷ []) 129 1 2
      3 4 hello refl (omega arith) (omega arith) (get_line-IsOther, tt) (omega arith) (omega arith)
      (omega arith) (omega arith) (omega arith) (omega arith)
