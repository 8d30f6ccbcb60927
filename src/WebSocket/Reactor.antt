-- ===== src/WebSocket/Reactor.antt =====
-- reactor.c of the WebSocket server: the connection table and the three callbacks. What the kernel
-- returns from `accept`, `recv` and `send` is an argument; what the code asks of it is a list of calls.
pub mod Table
pub mod Session
use voice.Prelude.{
  ℕ, ◌+◌, ◌≤◌, Bool, true, false, none, some, List, [], ◌∷◌, ◌++◌, ◌==◌, ltb, if◌then◌else◌, length,
  replicate,
}
use voice.Prelude.Int.{ℤ, pos, negsuc}
use voice.Prelude.Memory.{read_bytes, write_bytes}
use voice.WebSocket.Conn.{
  Action, none_cb, accept_cb, recv_cb, Conn, buffer_length, Run, ok, fault, of_option, ◌>>=◌,
}
use voice.WebSocket.Handshake.{OpenSsl}
use voice.WebSocket.Server.{ws_request, ws_response}

pub data Event : Type 0 where
  epollin epollout : Event

-- The system calls, in the order in which the code makes them.
pub data Call : Type 0 where
  ctl_add ctl_mod : ℕ → Event → Call
  ctl_del close : ℕ → Call
  send : ℕ → List ℕ → Call

-- `conn_list`, and the calls made so far.
pub record Reactor : Type 0 where
  pub conn_list : ℕ → Conn
  pub calls : List Call

abbrev pub connection_size : ℕ
connection_size = 1048576

abbrev pub update : (ℕ → Conn) → ℕ → Conn → ℕ → Conn
update table fd c other = if fd == other then c else table other

unfoldable pub call : Call → Reactor → Reactor
call k r = record r { calls = r.calls ++ k ∷ [] }

-- A zero `flag` modifies, any other adds.
unfoldable pub set_event : ℕ → Event → ℕ → Reactor → Reactor
unfolding call
set_event fd event flag r =
    if flag == 0 then call (ctl_mod fd event) r else call (ctl_add fd event) r

abbrev pub zeros : List ℕ
zeros = replicate buffer_length 0

abbrev pub fresh_conn : ℕ → Conn
fresh_conn fd = record {
  fd = fd;
  rbuffer = zeros;
  rlength = 0;
  wbuffer = zeros;
  wlength = 0;
  r_action = recv_cb;
  can_send = true;
  status = 0;
}

-- A descriptor past the table is a write outside it.
unfoldable pub event_register : ℤ → Event → Reactor → Run Reactor
unfolding set_event
event_register (negsuc n) event r = ok r
event_register (pos fd) event r =
    if ltb fd connection_size
    then ok (set_event fd event 1 (record r { conn_list = update r.conn_list fd (fresh_conn fd) }))
    else fault

-- What `recv` brings: bytes, the end of the stream (also a count of 0), or an error.
pub data Received : Type 0 where
  bytes : List ℕ → Received
  closed failed : Received

unfoldable pub on_accept : ℤ → Reactor → Run Reactor
on_accept (negsuc n) r = ok r
on_accept (pos clientfd) r = event_register (pos clientfd) epollin r

unfoldable pub drop_conn : ℕ → Reactor → Reactor
unfolding call
drop_conn fd r =
    let c = record (r.conn_list fd) { rbuffer = zeros } in
    call (ctl_del fd) (call (close fd) (record r { conn_list = update r.conn_list fd c }))

-- One entry of the main loop's `events`, with what the kernel answers to the callback it leads to.
-- A callback that is not set is a call through a null pointer.
pub data Ready : Type 0 where
  readable : ℕ → (accepted : ℤ) → Received → Ready
  writable : ℕ → Ready

-- `send_cb` behind `ws_response`. What `send` takes of the bytes is not looked at.
unfoldable pub push : ℕ → Conn → Reactor → Run Reactor
push fd c r = if c.wlength == 0 then ok (set_event fd epollin 0 r) else (do
  out ← of_option (read_bytes c.wbuffer 0 c.wlength)
  ok (set_event fd epollin 0 (call (send fd out) r)))

unfoldable pub on_send : ℕ → Reactor → Run Reactor
on_send fd r =
    let c = ws_response (r.conn_list fd) in
    push fd c (record r { conn_list = update r.conn_list fd c })

unfoldable pub handle_write : Bool → ℕ → Reactor → Run Reactor
handle_write false fd r = fault
handle_write true fd r = on_send fd r

module _ (ssl : OpenSsl) where
  -- `recv_cb` with bytes: the entry it works on, filled and handed to `ws_request`.
  unfoldable pub fill : Conn → List ℕ → Run Conn
  fill c bs = do
    filled ← of_option (write_bytes zeros 0 bs)
    ws_request ssl (record c { rbuffer = filled; rlength = length bs })

  unfoldable pub on_recv : ℕ → Received → Reactor → Run Reactor
  on_recv fd closed r = ok (drop_conn fd r)
  on_recv fd failed r = ok (drop_conn fd r)
  on_recv fd (bytes []) r = ok (drop_conn fd r)
  on_recv fd (bytes (b ∷ bs)) r = do
    c ← fill (r.conn_list fd) (b ∷ bs)
    ok (set_event fd epollout 0 (record r { conn_list = update r.conn_list fd c }))

  -- The callback that `r_action` holds; a call through a null pointer where none is set.
  unfoldable pub handle_read : Action → ℕ → ℤ → Received → Reactor → Run Reactor
  handle_read none_cb fd clientfd received r = fault
  handle_read accept_cb fd clientfd received r = on_accept clientfd r
  handle_read recv_cb fd clientfd received r = on_recv fd received r

  unfoldable pub dispatch : Ready → Reactor → Run Reactor
  dispatch (readable fd clientfd received) r =
      handle_read (r.conn_list fd).r_action fd clientfd received r
  dispatch (writable fd) r = handle_write (r.conn_list fd).can_send fd r

  -- The main loop over the entries that `epoll_wait` returns.
  unfoldable pub run : List Ready → Reactor → Run Reactor
  run [] r = ok r
  run (e ∷ es) r = dispatch e r >>= run es
