-- ===== src/Http.antt =====
-- webserver_03png.c and the callbacks of the reactor.c beside it: the response in three steps. The
-- kernel's answers and what sprintf makes of a number are arguments; the calls are a list.
pub mod Response
pub mod Reactor
mod Examples
use voice.Prelude.{
  ℕ, suc, ◌+◌, Bool, true, false, Option, none, some, List, [], ◌∷◌, ◌++◌, ◌==◌, if◌then◌else◌,
  length, replicate, take, ltb, ◌||◌,
}
use voice.Prelude.Run.{Run, ok, fault, of_option, ◌>>=◌}
use voice.Prelude.Memory.{read_bytes, write_bytes}
use voice.Prelude.Text.{codes, has_nul}

abbrev pub http_buffer_length : ℕ
http_buffer_length = 1024

pub record HttpConn : Type 0 where
  pub wbuffer : List ℕ
  pub wlength : ℕ
  pub status : ℕ

abbrev pub cleared : List ℕ
cleared = replicate http_buffer_length 0

-- A call as it is made: what is handed to `send`, and how much is asked of `sendfile`. The program goes on
-- alike whatever they return.
pub data HttpCall : Type 0 where
  send : List ℕ → HttpCall
  sendfile : ℕ → HttpCall
  wait_read wait_write close_file close_conn : HttpCall

-- What `open` and `fstat` answer: the size of the file, if both succeed.
pub data Opened : Type 0 where
  no_file no_stat : Opened
  of_size : ℕ → Opened

unfoldable pub http_request : HttpConn → HttpConn
http_request c = record { wbuffer = cleared; wlength = 0; status = 0 }

abbrev pub crlf : List ℕ
crlf = 13 ∷ 10 ∷ []

-- The argument is the text of the size.
abbrev pub http_head : List ℕ → List ℕ
http_head size =
    codes "HTTP/1.1 200 OK"
    ++ crlf
    ++ (codes "Content-Type: image/png" ++ crlf)
    ++ (codes "Accept-Ranges: bytes" ++ crlf)
    ++ (codes "Content-Length: " ++ size ++ crlf)
    ++ (codes "Date: Mon, 04 Aug 2025 17:48:00 GMT" ++ crlf ++ crlf)

-- What send_cb does behind http_response.
unfoldable pub send_status : HttpConn → Run (List HttpCall)
send_status c =
    if c.status == 1
    then (of_option (read_bytes c.wbuffer 0 c.wlength) >>= λ bytes.
        ok (send bytes ∷ wait_write ∷ []))
    else if c.status == 2
    then ok (wait_write ∷ [])
    else if c.status == 0
    then ok (wait_read ∷ [])
    else ok []

module _ (decimal : ℕ → List ℕ) where
  -- The branches on the status.
  unfoldable pub respond : ℕ → HttpConn → Run (List HttpCall × HttpConn)
  respond size c =
      if c.status == 0
      then (do
        let text = http_head (decimal size)
        filled ← of_option (write_bytes c.wbuffer 0 (text ++ 0 ∷ []))
        ok ([], record { wbuffer = filled; wlength = length text; status = 1 }))
      else if c.status == 1
      then ok (sendfile size ∷ [], record c { status = 2 })
      else if c.status == 2
      then ok ([], record { wbuffer = cleared; wlength = 0; status = 0 })
      else ok ([], c)

  unfoldable pub http_response : Opened → HttpConn → Run (List HttpCall × HttpConn)
  unfolding respond
  http_response no_file c = ok ([], c)
  http_response no_stat c = ok (close_file ∷ [], c)
  http_response (of_size size) c =
      respond size c >>= λ (calls, c'). ok (calls ++ close_file ∷ [], c')

  unfoldable pub http_send : Opened → HttpConn → Run (List HttpCall × HttpConn)
  unfolding http_response send_status
  http_send opened c = do
    (calls, c') ← http_response opened c
    more ← send_status c'
    ok (calls ++ more, c')

  -- send_cb, as often as the loop finds the connection writable.
  unfoldable pub http_sends : List Opened → HttpConn → Run (List HttpCall × HttpConn)
  unfolding http_send
  http_sends [] c = ok ([], c)
  http_sends (o ∷ rest) c =
      http_send o c >>= λ (calls, c'). http_sends rest c' >>= λ (more, c''). ok (calls ++ more, c'')

-- The buffer is zero before recv, so it has a NUL behind fewer bytes than it holds.
unfoldable pub http_printable : List ℕ → Bool
unfolding has_nul
http_printable bytes =
    ltb (length bytes) http_buffer_length || has_nul (take http_buffer_length bytes)

-- recv_cb, by the bytes that `recv` brings, none at the end or on an error. They are printed up to the
-- first NUL of the buffer, which may have none.
unfoldable pub http_recv : List ℕ → HttpConn → Run (List HttpCall × HttpConn)
unfolding http_request http_printable
http_recv [] c = ok (close_conn ∷ [], c)
http_recv (x ∷ bytes) c =
    if http_printable (x ∷ bytes) then ok (wait_write ∷ [], http_request c) else fault
