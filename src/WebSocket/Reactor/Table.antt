-- ===== src/WebSocket/Reactor/Table.antt =====
-- The connection table of reactor.c under every event.
use voice.Prelude.{
  ℕ, ◌≡◌, ◌≢◌, ◌≤◌, ◌++◌, refl, ◌∙◌, inl, inr, Bool, true, false, some, List, [], ◌∷◌, arith, ◌==◌,
  ltb, length, take, drop, ◌<◌, append_assoc, length-append, length-replicate, replicate, drop-snoc,
  sym, ap, ◌-◌, Bool-cases, Option-cases,
}
use voice.Prelude.Int.{ℤ, pos, negsuc}
use voice.Prelude.Memory.{
  read_bytes, read_bytes-some, write_bytes, length-write_bytes, write_bytes-front,
}
use voice.Prelude.Text.{c_string, c_string-drop}
use voice.WebSocket.Conn.{
  Action, none_cb, accept_cb, recv_cb, Conn, buffer_length, ok, Ensures, Ensures-bind, Ensures-ok,
  Ensures-mono,
}
use voice.WebSocket.Handshake.{OpenSsl}
use voice.WebSocket.Server.{ws_request, ws_response}
use voice.WebSocket.Server.Safety.{IsConn, echo-total}
use voice.WebSocket.Server.Keeps.{ws_request-IsConn, ws_request-echo}
use voice.WebSocket.Reactor.{
  Reactor, update, zeros, fresh_conn, Event, epollin, epollout, event_register, Received, bytes,
  closed, failed, on_accept, drop_conn, push, fill, handle_read, handle_write, on_recv, on_send,
  Ready, readable, writable, dispatch, set_event, call, send,
}

-- Every entry of the table has whole buffers, as the zeroed table has.
pub record IsTable (r : Reactor) : Type 0 where
  pub conns : (fd : ℕ) → IsConn (r.conn_list fd)

-- The entries of other descriptors are as they were.
pub record IsSameElse (fd : ℕ) (r s : Reactor) : Type 0 where
  pub same : (other : ℕ) → fd ≢ other → s.conn_list other ≡ r.conn_list other

-- `recv` returns no more than it was asked for.
abbrev pub Fits : Received → Type 0
Fits (bytes bs) = length bs < buffer_length
Fits closed = Unit
Fits failed = Unit

update-IsConn :
    (table : ℕ → Conn) (fd : ℕ) (c : Conn)
    → ((fd : ℕ) → IsConn (table fd))
    → IsConn c
    → (other : ℕ) → IsConn (update table fd c other)
update-IsConn table fd c all v other = elim (Bool-cases (fd == other)) [
  | inl e ↦ rw e v
  | inr e ↦ rw e (all other)
]

zeros_IsConn : (fd : ℕ) → IsConn (fresh_conn fd)
zeros_IsConn fd = record { received = refl; answer = refl; sent = omega arith; state = omega arith }

set_event-IsTable :
    (fd : ℕ) (event : Event) (flag : ℕ) (r : Reactor)
    → IsTable r
    → IsTable (set_event fd event flag r)
unfolding set_event call
set_event-IsTable fd event flag r t = elim (Bool-cases (flag == 0)) [
  | inl e ↦ rw e (record { conns = t.conns })
  | inr e ↦ rw e (record { conns = t.conns })
]

filled-IsConn :
    (c : Conn) (bs filled : List ℕ)
    → IsConn c
    → length filled ≡ buffer_length
    → IsConn (record c { rbuffer = filled; rlength = length bs })
filled-IsConn c bs filled v e = record {
  received = e;
  answer = v.answer;
  sent = v.sent;
  state = v.state;
}

fill-IsConn : (ssl : OpenSsl) (c : Conn) (bs : List ℕ) → IsConn c → Ensures IsConn (fill ssl c bs)
unfolding fill
fill-IsConn ssl c bs v = elim (Option-cases (write_bytes zeros 0 bs)) [
  | inl e ↦ rw e tt
  | inr (filled, e) ↦
      let d = record c { rbuffer = filled; rlength = length bs } in
      let w = filled-IsConn c bs filled v (length-write_bytes zeros 0 bs filled e).0 in
      rw e (
        Ensures-mono (λ x. IsConn x × (x.fd ≡ c.fd) × (x.status ≡ 1)) IsConn (ws_request ssl d)
          (ws_request-IsConn ssl d w) (λ x h. h.0))
]

-- Past the handshake the entry is answered, whatever the bytes are.
fill-total :
    (ssl : OpenSsl) (c : Conn) (bs : List ℕ)
    → IsConn c
    → c.status ≡ 1
    → length bs < buffer_length
    → (x : Conn) × (fill ssl c bs ≡ ok x)
unfolding fill c_string
fill-total ssl c bs v open_ fits =
    let filled = bs ++ drop (length bs) zeros in
    let w = write_bytes-front zeros bs (omega (arith, fits)) in
    let d = record c { rbuffer = filled; rlength = length bs } in
    let u = filled-IsConn c bs filled v (length-write_bytes zeros 0 bs filled w).0 in
    let front = bs ++ replicate (1023 - length bs) 0 in
    let split : filled ≡ front ++ 0 ∷ [] =
      ap (λ (l : List ℕ). bs ++ l) (drop-snoc (length bs) 1023 0 (omega (arith, fits)))
      ∙ sym (append_assoc bs (replicate (1023 - length bs) 0) (0 ∷ [])) in
    let long : 133 ≤ length front = omega (
      arith,
      fits,
      length-append bs (replicate (1023 - length bs) 0),
      length-replicate {A = ℕ} (1023 - length bs) 0,
    ) in
    let (text, ends) = c_string-drop 133 front (0 ∷ []) [] long refl in
    let (x, done, _, _, _) =
      echo-total d text u open_ (ap (λ (l : List ℕ). c_string (drop 133 l)) split ∙ ends) in
    (x, rw w (ws_request-echo ssl d u open_ ∙ done))

module _ (r : Reactor) (t : IsTable r) where
  event_register-IsTable : (fd : ℤ) (event : Event) → Ensures IsTable (event_register fd event r)
  unfolding event_register set_event call
  event_register-IsTable (negsuc n) event = t
  event_register-IsTable (pos fd) event = elim (Bool-cases (ltb fd 1048576)) [
    | inr e ↦ rw e tt
    | inl e ↦
        rw e (record {
          conns = update-IsConn r.conn_list fd (fresh_conn fd) t.conns (zeros_IsConn fd);
        })
  ]

  on_accept-IsTable : (fd : ℤ) → Ensures IsTable (on_accept fd r)
  unfolding on_accept
  on_accept-IsTable (negsuc n) = t
  on_accept-IsTable (pos fd) = event_register-IsTable (pos fd) epollin

  drop_conn-IsTable : (fd : ℕ) → IsTable (drop_conn fd r)
  unfolding drop_conn call
  drop_conn-IsTable fd = record {
    conns =
        update-IsConn r.conn_list fd (record (r.conn_list fd) { rbuffer = zeros }) t.conns
          (record {
            received = refl;
            answer = (t.conns fd).answer;
            sent = (t.conns fd).sent;
            state = (t.conns fd).state;
          });
  }

  -- Sending never leaves the buffer, and keeps the table.
  on_send-total : (fd : ℕ) → (s : Reactor) × (on_send fd r ≡ ok s) × IsTable s
  unfolding on_send push ws_response set_event call
  on_send-total fd =
      let c = r.conn_list fd in
      let table = update-IsConn r.conn_list fd c t.conns (t.conns fd) in
      let same = record r { conn_list = update r.conn_list fd c } in
      elim (Bool-cases (c.wlength == 0)) [
        | inl e ↦ (set_event fd epollin 0 same, rw e, record { conns = table })
        | inr e ↦
            let out = take c.wlength (drop 0 c.wbuffer) in
            let whole : read_bytes c.wbuffer 0 c.wlength ≡ some out =
              read_bytes-some c.wbuffer 0 c.wlength
                (omega (arith, (t.conns fd).sent, (t.conns fd).answer)) in
            (
              set_event fd epollin 0 (call (send fd out) same),
              rw (e, whole),
              record { conns = table },
            )
      ]

  on_recv-IsTable :
      (ssl : OpenSsl) (fd : ℕ) (got : Received) → Ensures IsTable (on_recv ssl fd got r)
  unfolding on_recv
  on_recv-IsTable ssl fd closed = drop_conn-IsTable fd
  on_recv-IsTable ssl fd failed = drop_conn-IsTable fd
  on_recv-IsTable ssl fd (bytes []) = drop_conn-IsTable fd
  on_recv-IsTable ssl fd (bytes (b ∷ bs)) =
      Ensures-bind IsConn IsTable (fill ssl (r.conn_list fd) (b ∷ bs)) _
        (fill-IsConn ssl (r.conn_list fd) (b ∷ bs) (t.conns fd)) λ x v. stored fd x v
    where
      stored :
          (fd : ℕ) (x : Conn)
          → IsConn x
          → IsTable (set_event fd epollout 0 (record r { conn_list = update r.conn_list fd x }))
      stored fd x v =
          set_event-IsTable fd epollout 0 _
            (record { conns = update-IsConn r.conn_list fd x t.conns v })

  dispatch-IsTable : (ssl : OpenSsl) (e : Ready) → Ensures IsTable (dispatch ssl e r)
  unfolding dispatch handle_read handle_write
  dispatch-IsTable ssl (readable fd clientfd got) = reads (r.conn_list fd).r_action
    where
      reads : (a : Action) → Ensures IsTable (handle_read ssl a fd clientfd got r)
      reads none_cb = tt
      reads accept_cb = on_accept-IsTable clientfd
      reads recv_cb = on_recv-IsTable ssl fd got
  dispatch-IsTable ssl (writable fd) = writes (r.conn_list fd).can_send
    where
      writes : (b : Bool) → Ensures IsTable (handle_write b fd r)
      writes false = tt
      writes true = let (s, done, v) = on_send-total fd in rw done v

on_recv-ok :
    (ssl : OpenSsl) (fd : ℕ) (got : Received) (r : Reactor)
    → IsTable r
    → (r.conn_list fd).status ≡ 1
    → Fits got
    → (s : Reactor) × (on_recv ssl fd got r ≡ ok s)
unfolding on_recv
on_recv-ok ssl fd closed r t open_ fits = (_, refl)
on_recv-ok ssl fd failed r t open_ fits = (_, refl)
on_recv-ok ssl fd (bytes []) r t open_ fits = (_, refl)
on_recv-ok ssl fd (bytes (b ∷ bs)) r t open_ fits =
    let (x, e) = fill-total ssl (r.conn_list fd) (b ∷ bs) (t.conns fd) open_ fits in
    (set_event fd epollout 0 (record r { conn_list = update r.conn_list fd x }), rw e)

-- On a connection past its handshake `recv_cb` finishes with no access outside a buffer, whatever
-- `recv` brings as long as it does not fill the buffer, and leaves every connection's buffers whole.
pub on_recv-total :
    (ssl : OpenSsl) (fd : ℕ) (got : Received) (r : Reactor)
    → IsTable r
    → (r.conn_list fd).status ≡ 1
    → Fits got
    → (s : Reactor) × (on_recv ssl fd got r ≡ ok s) × IsTable s
on_recv-total ssl fd got r t open_ fits =
    let (s, e) = on_recv-ok ssl fd got r t open_ fits in
    (s, e, Ensures-ok IsTable (on_recv ssl fd got r) (on_recv-IsTable r t ssl fd got) e)
