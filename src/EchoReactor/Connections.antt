-- ===== src/EchoReactor/Connections.antt =====
-- The table as connections of their own: what happens to a descriptor follows from its own events.
use voice.Prelude.{
  ℕ, ◌<◌, ◌≡◌, ◌≢◌, refl, ap, ap₂, sym, subst, ◌∙◌, Bool, true, false, Option, none, some, List, [],
  ◌∷◌, ◌++◌, arith, ◌==◌, ==_iff, ==_refl, ==_ne, lt→ltb, if◌then◌else◌, Bool-cases, inl, inr,
}
use voice.Prelude.Run.{Run, ok, fault, ◌>>=◌}
use voice.EchoReactor.{
  echo_table_size, ReadCallback, accept_callback, recv_callback, epollin, epollout, EchoConn,
  ConnTable, put_conn, opened_conn, accept_conn, RecvAnswer, came, recv_error, recv_conn,
  echo_printable, echo_recv_cb, send_conn, EchoEvent, call_read, call_send, by_tests, echo_event,
}

-- One connection by itself.
pub data ConnEvent : Type 0 where
  opened : ℕ → ConnEvent
  readable : List ℕ → ConnEvent
  writable : ℕ → ConnEvent

abbrev pub conn_event : ConnEvent → EchoConn → EchoConn
conn_event (opened fd) c = opened_conn fd
conn_event (readable bytes) c = recv_conn bytes c
conn_event (writable taken) c = send_conn taken c

abbrev pub conn_run : List ConnEvent → EchoConn → EchoConn
conn_run [] c = c
conn_run (e ∷ es) c = conn_run es (conn_event e c)

-- epoll reports what the descriptor is watched for, and what recv leaves in the read buffer has a NUL.
abbrev pub Reported : ConnEvent → EchoConn → Type 0
Reported (opened fd) c = Unit
Reported (readable []) c = (c.r_action ≡ recv_callback) × (c.watched ≡ epollin)
Reported (readable (x ∷ bytes)) c =
    (c.r_action ≡ recv_callback) × (c.watched ≡ epollin) × (echo_printable (x ∷ bytes) c ≡ true)
Reported (writable taken) c = (c.send_callback ≡ true) × (c.watched ≡ epollout)

abbrev pub AllReported : List ConnEvent → EchoConn → Type 0
AllReported [] c = Unit
AllReported (e ∷ es) c = Reported e c × AllReported es (conn_event e c)

-- The events of a descriptor among those of the server.
abbrev pub bytes_of : RecvAnswer → List ℕ
bytes_of (came bytes) = bytes
bytes_of recv_error = []

abbrev pub opens : ℕ → Option ℕ → List ConnEvent
opens fd none = []
opens fd (some client_fd) = if client_fd == fd then opened client_fd ∷ [] else []

abbrev pub own_events : EchoEvent → List ConnEvent
own_events e =
    (if e.input then readable (bytes_of e.received) ∷ [] else [])
    ++ (if e.output then writable e.taken ∷ [] else [])

abbrev pub events_at : ℕ → ℕ → EchoEvent → List ConnEvent
events_at listenfd fd e =
    if e.fd == listenfd then opens fd e.accepted else if e.fd == fd then own_events e else []

abbrev pub events_of : ℕ → ℕ → List EchoEvent → List ConnEvent
events_of listenfd fd [] = []
events_of listenfd fd (e ∷ events) = events_at listenfd fd e ++ events_of listenfd fd events

-- An event of the listener brings a descriptor that fits the table; on a connection recv does not fail.
pub data Sound (listenfd : ℕ) (e : EchoEvent) : Type 0 where
  listening :
      (client_fd : ℕ)
      → e.fd ≡ listenfd
      → e.input ≡ true
      → e.output ≡ false
      → e.accepted ≡ some client_fd
      → client_fd ≢ listenfd
      → client_fd < echo_table_size
      → Sound listenfd e
  connected : (bytes : List ℕ) → e.fd ≢ listenfd → e.received ≡ came bytes → Sound listenfd e

pub conn_run-append :
    (es fs : List ConnEvent) (c : EchoConn) → conn_run (es ++ fs) c ≡ conn_run fs (conn_run es c)
conn_run-append [] fs c = refl
conn_run-append (e ∷ es) fs c = conn_run-append es fs (conn_event e c)

pub AllReported-front :
    (es fs : List ConnEvent) (c : EchoConn) → AllReported (es ++ fs) c → AllReported es c
AllReported-front [] fs c h = tt
AllReported-front (e ∷ es) fs c h = (h.0, AllReported-front es fs (conn_event e c) h.1)

pub AllReported-back :
    (es fs : List ConnEvent) (c : EchoConn)
    → AllReported (es ++ fs) c
    → AllReported fs (conn_run es c)
AllReported-back [] fs c h = h
AllReported-back (e ∷ es) fs c h = AllReported-back es fs (conn_event e c) h.1

pub put_at : (t : ConnTable) (k : ℕ) (c : EchoConn) → put_conn t k c k ≡ c
put_at t k c = rw (==_refl k)

pub put_other : (t : ConnTable) (k j : ℕ) (c : EchoConn) → j ≢ k → put_conn t k c j ≡ t j
put_other t k j c ne = rw (==_ne j k ne)

-- What an event leaves: each connection goes by its own events, and the listener stays.
pub record Goes (listenfd : ℕ) (e : EchoEvent) (t : ConnTable) (r : Run ConnTable) : Type 0 where
  pub after : ConnTable
  pub done : r ≡ ok after
  pub each : (fd : ℕ) → fd ≢ listenfd → after fd ≡ conn_run (events_at listenfd fd e) (t fd)
  pub listens : (after listenfd).r_action ≡ accept_callback

module _ (listenfd : ℕ) (t : ConnTable) (accepts : (t listenfd).r_action ≡ accept_callback) where
  opened_each :
      (client_fd fd : ℕ)
      → put_conn t client_fd (opened_conn client_fd) fd
        ≡ conn_run (opens fd (some client_fd)) (t fd)
  opened_each client_fd fd = elim (Bool-cases (client_fd == fd)) [
    | inl e ↦
        let same = (==_iff client_fd fd).0 e in
        rw (e) (
          subst (λ (k : ℕ). put_conn t client_fd (opened_conn client_fd) k ≡ opened_conn client_fd)
            same (put_at t client_fd (opened_conn client_fd)))
    | inr e ↦ rw (e) (put_other t client_fd fd (opened_conn client_fd) (ground (arith, e)))
  ]

  on_listener :
      (e : EchoEvent) (client_fd : ℕ)
      → e.fd ≡ listenfd
      → e.input ≡ true
      → e.output ≡ false
      → e.accepted ≡ some client_fd
      → client_fd ≢ listenfd
      → client_fd < echo_table_size
      → Goes listenfd e t (echo_event e t)
  unfolding echo_event by_tests call_read accept_conn
  on_listener e client_fd at input output accepted other small =
      let by_accept = subst (λ (k : ℕ). (t k).r_action ≡ accept_callback) (sym at) accepts in
      record {
        after = put_conn t client_fd (opened_conn client_fd);
        done = rw (
          echo_event,
          by_tests,
          input,
          by_accept,
          accepted,
          lt→ltb client_fd echo_table_size small,
          output,
        );
        each = λ fd ne. rw ((==_iff e.fd listenfd).1 at, accepted) (opened_each client_fd fd);
        listens =
            ap (λ (c : EchoConn). c.r_action)
              (put_other t client_fd listenfd (opened_conn client_fd) (λ q. other (sym q)))
            ∙ accepts;
      }

  -- The entry of one connection changes, by its own events.
  one_changes :
      (e : EchoEvent) (t' : ConnTable)
      → e.fd ≢ listenfd
      → t' e.fd ≡ conn_run (own_events e) (t e.fd)
      → ((j : ℕ) → j ≢ e.fd → t' j ≡ t j)
      → Goes listenfd e t (ok t')
  one_changes e t' ne own others = record {
    after = t';
    done = refl;
    each = λ fd other. elim (Bool-cases (e.fd == fd)) [
      | inl q ↦
          let same = (==_iff e.fd fd).0 q in
          rw (==_ne e.fd listenfd ne, q)
            (subst (λ (k : ℕ). t' k ≡ conn_run (own_events e) (t k)) same own)
      | inr q ↦ rw (==_ne e.fd listenfd ne, q) (others fd (ground (arith, q)))
    ];
    listens = ap (λ (d : EchoConn). d.r_action) (others listenfd (λ q. ne (sym q))) ∙ accepts;
  }

  own_is :
      (e : EchoEvent) (input output : Bool)
      → e.input ≡ input
      → e.output ≡ output
      → own_events e
        ≡ (if input then readable (bytes_of e.received) ∷ [] else [])
          ++ (if output then writable e.taken ∷ [] else [])
  own_is e input output i o = rw (i, o) refl

  module _ (e : EchoEvent) (bytes : List ℕ) (ne : e.fd ≢ listenfd)
      (got : e.received ≡ came bytes) where
    abbrev received_table : ConnTable
    received_table = put_conn t e.fd (recv_conn bytes (t e.fd))

    recvs :
        (bs : List ℕ)
        → Reported (readable bs) (t e.fd)
        → ((t e.fd).r_action ≡ recv_callback)
          × (echo_recv_cb (came bs) e.fd t ≡ ok (put_conn t e.fd (recv_conn bs (t e.fd))))
    unfolding echo_recv_cb
    recvs [] h = (h.0, refl)
    recvs (x ∷ bs) h = (
      h.0,
      ap (λ (b : Bool). if b then ok (put_conn t e.fd (recv_conn (x ∷ bs) (t e.fd))) else fault)
          h.2,
    )

    reads :
        Reported (readable (bytes_of e.received)) (t e.fd)
        → call_read (t e.fd).r_action e t ≡ ok received_table
    unfolding call_read
    reads h =
        let reported =
          subst (λ (a : RecvAnswer). Reported (readable (bytes_of a)) (t e.fd)) got h in
        let (is_recv, runs) = recvs bytes reported in
        ap (λ (a : ReadCallback). call_read a e t) is_recv
        ∙ ap (λ (a : RecvAnswer). echo_recv_cb a e.fd t) got
        ∙ runs

    sends :
        (t' : ConnTable)
        → (t' e.fd).send_callback ≡ true
        → call_send e t' ≡ ok (put_conn t' e.fd (send_conn e.taken (t' e.fd)))
    unfolding call_send
    sends t' is_send =
        ap (λ (b : Bool). if b then ok (put_conn t' e.fd (send_conn e.taken (t' e.fd))) else fault)
          is_send

    tests :
        (input output : Bool)
        → e.input ≡ input
        → e.output ≡ output
        → echo_event e t ≡ by_tests input output e t
    unfolding echo_event
    tests input output i o = ap₂ (λ (a : Bool) (b : Bool). by_tests a b e t) i o

    -- What the event comes to, and that its own events say so.
    with_own :
        (es : List ConnEvent) (t' : ConnTable)
        → own_events e ≡ es
        → echo_event e t ≡ ok t'
        → t' e.fd ≡ conn_run es (t e.fd)
        → ((j : ℕ) → j ≢ e.fd → t' j ≡ t j)
        → Goes listenfd e t (echo_event e t)
    with_own es t' own run at others = subst (Goes listenfd e t) (sym run) (
        one_changes e t' ne (at ∙ ap (λ (es' : List ConnEvent). conn_run es' (t e.fd)) (sym own))
          others)

    was_read : received_table e.fd ≡ conn_event (readable (bytes_of e.received)) (t e.fd)
    was_read = put_at t e.fd _ ∙ ap (λ (a : RecvAnswer). recv_conn (bytes_of a) (t e.fd)) (sym got)

    by_flags :
        (input output : Bool)
        → e.input ≡ input
        → e.output ≡ output
        → AllReported (own_events e) (t e.fd)
        → Goes listenfd e t (echo_event e t)
    unfolding by_tests
    by_flags false false i o h =
        with_own [] t (own_is e false false i o) (tests false false i o) refl (λ j q. refl)
    by_flags true false i o h =
        let own = own_is e true false i o in
        let reported = subst (λ (es : List ConnEvent). AllReported es (t e.fd)) own h in
        with_own _ received_table own
          (tests true false i o
            ∙ ap (λ (r : Run ConnTable). r >>= (λ t'. ok t')) (reads reported.0))
          was_read (λ j q. put_other t e.fd j _ q)
    by_flags false true i o h =
        let own = own_is e false true i o in
        let reported = subst (λ (es : List ConnEvent). AllReported es (t e.fd)) own h in
        with_own _ _ own (tests false true i o ∙ sends t reported.0.0) (put_at t e.fd _)
          (λ j q. put_other t e.fd j _ q)
    by_flags true true i o h =
        let own = own_is e true true i o in
        let reported = subst (λ (es : List ConnEvent). AllReported es (t e.fd)) own h in
        let send = ap (λ (c : EchoConn). c.send_callback) was_read ∙ reported.1.0.0 in
        with_own _ (put_conn received_table e.fd (send_conn e.taken (received_table e.fd))) own
          (tests true true i o
            ∙ ap (λ (r : Run ConnTable). r >>= (λ t'. call_send e t')) (reads reported.0)
            ∙ sends received_table send)
          (put_at received_table e.fd _ ∙ ap (send_conn e.taken) was_read)
          (λ j q. put_other received_table e.fd j _ q ∙ put_other t e.fd j _ q)

  pub echo_event-Goes :
      (e : EchoEvent)
      → Sound listenfd e
      → ((fd : ℕ) → fd ≢ listenfd → AllReported (events_at listenfd fd e) (t fd))
      → Goes listenfd e t (echo_event e t)
  echo_event-Goes e (listening client_fd at input output accepted other small) h =
      on_listener e client_fd at input output accepted other small
  echo_event-Goes e (connected bytes ne got) h =
      by_flags e bytes ne got e.input e.output refl refl
        (subst (λ (es : List ConnEvent). AllReported es (t e.fd)) own_at (h e.fd ne))
    where
      own_at : events_at listenfd e.fd e ≡ own_events e
      own_at = rw (==_ne e.fd listenfd ne, ==_refl e.fd)
