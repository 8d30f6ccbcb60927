-- ===== src/WebSocket/Server.antt =====
-- `ws_request` and `ws_response` of the WebSocket server: the connection's status machine.
pub mod Echo
pub mod Safety
pub mod Keeps
use voice.Prelude.{ℕ, ◌+◌, List, ◌==◌, if◌then◌else◌, drop}
use voice.WebSocket.Conn.{Conn, Run, ok, of_option, ◌>>=◌}
use voice.Prelude.Text.{c_string}
use voice.WebSocket.Frame.{decode_packet, encode_packet}
use voice.WebSocket.Handshake.{OpenSsl, handshake}

-- The branch for a frame. The payload is a part of `rbuffer`, unmasked in place; printf's %s reads it up to
-- a NUL.
unfoldable pub echo : Conn → Run Conn
echo c = do
  packet ← of_option (decode_packet c.rbuffer)
  let data_at = drop packet.start packet.stream
  printed ← of_option (c_string data_at)
  (n, out) ← of_option (encode_packet c.wbuffer packet.mask data_at packet.size)
  ok (record c { rbuffer = packet.stream; wbuffer = out; wlength = n })

unfoldable pub ws_request : OpenSsl → Conn → Run Conn
unfolding echo
ws_request ssl c =
    if c.status == 0
    then (do shaken ← handshake ssl c; ok (record shaken { status = 1 }))
    else if c.status == 1
    then echo c
    else ok c

unfoldable pub ws_response : Conn → Conn
ws_response c = c
