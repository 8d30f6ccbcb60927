-- ===== src/Http/Response.antt =====
-- The three steps of a response.
use voice.Prelude.{
  ℕ, ◌≤◌, ◌<◌, ◌≡◌, refl, List, [], ◌∷◌, ◌++◌, arith, length, length-append, drop, append_assoc,
  length-replicate,
}
use voice.Prelude.Text.{codes}
use voice.Prelude.Run.{ok}
use voice.Prelude.Memory.{write_bytes-front, read_bytes-front}
use voice.Http.{
  http_buffer_length, HttpConn, cleared, send, sendfile, wait_read, wait_write, close_file, no_file,
  of_size, http_request, crlf, http_head, respond, http_response, send_status, http_send,
  http_sends,
}

module _ (decimal : ℕ → List ℕ) (size : ℕ) (c : HttpConn) where
  abbrev pub head : List ℕ
  head = http_head (decimal size)

  abbrev date : List ℕ
  date = codes "Date: Mon, 04 Aug 2025 17:48:00 GMT" ++ crlf ++ crlf

  head_fits : length (decimal size) < 800 → length (head ++ 0 ∷ []) ≤ length cleared
  head_fits h = omega (
    arith,
    length-append head (0 ∷ []),
    length-append (decimal size ++ crlf) date,
    length-append (decimal size) crlf,
    length-replicate {A = ℕ} http_buffer_length 0,
  )

  abbrev pub rest : List ℕ
  rest = drop (length (head ++ 0 ∷ [])) cleared

  abbrev pub with_head : HttpConn
  with_head = record { wbuffer = (head ++ 0 ∷ []) ++ rest; wlength = length head; status = 1 }

  respond-head :
      length (decimal size) < 800
      → http_response decimal (of_size size) (http_request c) ≡ ok (close_file ∷ [], with_head)
  unfolding http_response respond http_request
  respond-head h = rw (write_bytes-front cleared (head ++ 0 ∷ []) (head_fits h))

  send_status-head : send_status with_head ≡ ok (send head ∷ wait_write ∷ [])
  unfolding send_status
  send_status-head = rw (append_assoc head (0 ∷ []) rest, read_bytes-front head (0 ∷ rest))

  pub http_send-head :
      length (decimal size) < 800
      → http_send decimal (of_size size) (http_request c)
        ≡ ok (close_file ∷ send head ∷ wait_write ∷ [], with_head)
  unfolding http_send
  http_send-head h = rw (respond-head h, send_status-head)

  -- After a request, three rounds send the head, then the file, then listen for the next request, and
  -- the connection is as a request finds it. The number has less than 800 digits.
  pub http_sends-response :
      length (decimal size) < 800
      → http_sends decimal (of_size size ∷ of_size size ∷ of_size size ∷ []) (http_request c)
        ≡ ok (
          close_file
              ∷ send head
              ∷ wait_write
              ∷ sendfile size
              ∷ close_file
              ∷ wait_write
              ∷ close_file
              ∷ wait_read
              ∷ [],
          http_request c,
        )
  unfolding http_sends http_send http_response respond send_status http_request
  http_sends-response h = rw (http_send-head h) refl

  -- When the file can be opened for the head and no longer for the body, the head is sent again, and the
  -- connection waits to send it once more.
  pub http_sends-repeated :
      length (decimal size) < 800
      → http_sends decimal (of_size size ∷ no_file ∷ []) (http_request c)
        ≡ ok (close_file ∷ send head ∷ wait_write ∷ send head ∷ wait_write ∷ [], with_head)
  unfolding http_sends http_send http_response
  http_sends-repeated h = rw (http_send-head h, send_status-head)
