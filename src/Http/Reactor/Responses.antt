-- ===== src/Http/Reactor/Responses.antt =====
-- What the web server hands to send and sendfile on each connection, while its file can be opened.
use voice.Prelude.{
  ℕ, zero, suc, ◌<◌, ◌≡◌, refl, ap, sym, subst, ◌∙◌, Bool, true, false, Option, none, some, List,
  [], ◌∷◌, ◌++◌, append_assoc, length, ◌==◌, lt→ltb, if◌then◌else◌,
}
use voice.Prelude.Run.{Run, ok, ◌>>=◌, Ensures, Ensures-ok}
use voice.Http.{
  HttpConn, HttpCall, send, sendfile, wait_read, wait_write, close_file, close_conn, Opened,
  of_size, http_head, respond, http_response, send_status, http_send, http_request, http_printable,
  http_recv,
}
use voice.Http.Response.{with_head, http_send-head}
use voice.Http.Reactor.{
  http_table_size, HttpAction, no_action, accept_action, recv_action, HttpWatch, not_watched,
  for_input, for_output, HttpEntry, HttpTable, put_entry, watch_after, registered, http_accept,
  called, http_read, HttpEvent, http_write, http_tests, http_event, http_run, listener_entry,
  http_start,
}

module _ (decimal : ℕ → List ℕ) (size : ℕ) where
  -- What one request comes to.
  abbrev pub to_head : List HttpCall
  to_head = close_file ∷ send (http_head (decimal size)) ∷ wait_write ∷ []

  abbrev pub to_body : List HttpCall
  to_body = sendfile size ∷ close_file ∷ wait_write ∷ []

  abbrev pub one_response : List HttpCall
  one_response = wait_write ∷ (to_head ++ (to_body ++ close_file ∷ wait_read ∷ []))

  abbrev pub responses : ℕ → List HttpCall
  responses zero = []
  responses (suc n) = responses n ++ one_response

  -- How far a connection is, with the responses that were handed to send and sendfile for it.
  pub data Stage : HttpConn → HttpWatch → List HttpCall → Type 0 where
    idle : (n : ℕ) (c : HttpConn) → Stage c for_input (responses n)
    asked :
        (n : ℕ) (c : HttpConn) → Stage (http_request c) for_output (responses n ++ wait_write ∷ [])
    head_sent :
        (n : ℕ) (c : HttpConn)
        → Stage (with_head decimal size c) for_output (responses n ++ wait_write ∷ to_head)
    body_sent :
        (n : ℕ) (c : HttpConn)
        → c.status ≡ 2
        → Stage c for_output (responses n ++ wait_write ∷ (to_head ++ to_body))
    closed : (n : ℕ) (c : HttpConn) → Stage c not_watched (responses n ++ close_conn ∷ [])

  -- An entry of the table: of no connection, of a listener, or of a connection in one of these stages.
  abbrev pub IsEntry : HttpAction → HttpEntry → Type 0
  IsEntry no_action e = e.watch ≡ not_watched
  IsEntry accept_action e = e.watch ≡ for_input
  IsEntry recv_action e = (e.sends ≡ true) × Stage e.conn e.watch e.calls

  abbrev pub Responds : HttpTable → Type 0
  Responds t = (fd : ℕ) → IsEntry (t fd).action (t fd)

  -- An event that epoll can report, with a descriptor from accept that is no listener's and fits the
  -- table, a file that can be opened, and bytes that fill the read buffer only with a NUL among them.
  pub record Reported (t : HttpTable) (e : HttpEvent) : Type 0 where
    pub of_input : e.input ≡ true → (t e.fd).watch ≡ for_input
    pub of_output : e.output ≡ true → (t e.fd).watch ≡ for_output
    pub fits : (client_fd : ℕ) → e.accepted ≡ some client_fd → client_fd < http_table_size
    pub opens : e.opened ≡ of_size size
    pub prints : http_printable e.received ≡ true

  -- The result of a callback on a connection.
  pub record Steps (w : HttpWatch) (calls : List HttpCall) (r : Run (List HttpCall × HttpConn))
      : Type 0 where
    pub more : List HttpCall
    pub conn : HttpConn
    pub done : r ≡ ok (more, conn)
    pub stage : Stage conn (watch_after w more) (calls ++ more)

  recv-Steps :
      (received : List ℕ) (c : HttpConn) (w : HttpWatch) (calls : List HttpCall)
      → Stage c w calls
      → w ≡ for_input
      → http_printable received ≡ true
      → Steps w calls (http_recv received c)
  unfolding http_recv
  recv-Steps (x ∷ bytes) c _ _ (idle n _) q prints = record {
    more = wait_write ∷ [];
    conn = http_request c;
    done = rw prints refl;
    stage = asked n c;
  }
  recv-Steps [] c _ _ (idle n _) q prints = record {
    more = close_conn ∷ [];
    conn = c;
    done = refl;
    stage = closed n c;
  }
  recv-Steps received _ _ _ (asked n c) q prints = absurd (cc)
  recv-Steps received _ _ _ (head_sent n c) q prints = absurd (cc)
  recv-Steps received _ _ _ (body_sent n c s) q prints = absurd (cc)
  recv-Steps received _ _ _ (closed n c) q prints = absurd (cc)

  module _ (few_digits : length (decimal size) < 800) where
    send-Steps :
        (c : HttpConn) (w : HttpWatch) (calls : List HttpCall)
        → Stage c w calls
        → w ≡ for_output
        → Steps w calls (http_send decimal (of_size size) c)
    unfolding http_send http_response respond send_status http_request
    send-Steps _ _ _ (idle n c) q = absurd (cc)
    send-Steps _ _ _ (asked n c) q = record {
      more = to_head;
      conn = with_head decimal size c;
      done = http_send-head decimal size c few_digits;
      stage =
          subst (Stage (with_head decimal size c) for_output)
            (sym (append_assoc (responses n) (wait_write ∷ []) to_head)) (head_sent n c);
    }
    send-Steps _ _ _ (head_sent n c) q = record {
      more = to_body;
      conn = record (with_head decimal size c) { status = 2 };
      done = refl;
      stage =
          subst (Stage (record (with_head decimal size c) { status = 2 }) for_output)
            (sym (append_assoc (responses n) (wait_write ∷ to_head) to_body))
            (body_sent n (record (with_head decimal size c) { status = 2 }) refl);
    }
    send-Steps _ _ _ (body_sent n c s) q = record {
      more = close_file ∷ wait_read ∷ [];
      conn = http_request c;
      done = rw (s) refl;
      stage =
          subst (Stage (http_request c) for_input)
            (sym (
              append_assoc (responses n) (wait_write ∷ (to_head ++ to_body))
                (close_file ∷ wait_read ∷ [])))
            (idle (suc n) (http_request c));
    }
    send-Steps _ _ _ (closed n c) q = absurd (cc)

  put-Responds :
      (t : HttpTable) (fd : ℕ) (e : HttpEntry)
      → Responds t
      → IsEntry e.action e
      → Responds (put_entry t fd e)
  put-Responds t fd e h own k = by_test (k == fd)
    where
      by_test : (b : Bool) → IsEntry (if b then e else t k).action (if b then e else t k)
      by_test true = own
      by_test false = h k

  -- A callback that is a step of its connection.
  called-Responds :
      (t : HttpTable) (fd : ℕ) (r : Run (List HttpCall × HttpConn))
      → Responds t
      → (t fd).action ≡ recv_action
      → (t fd).sends ≡ true
      → Steps (t fd).watch (t fd).calls r
      → (t' : HttpTable) × ((r >>= λ (calls, c). ok (put_entry t fd (called calls c (t fd))))
          ≡ ok t')
        × Responds t'
  called-Responds t fd r h action sends steps = (
    put_entry t fd (called steps.more steps.conn (t fd)),
    ap
        (λ (r : Run (List HttpCall × HttpConn)).
          r >>= λ (calls, c). ok (put_entry t fd (called calls c (t fd))))
        steps.done,
    put-Responds t fd (called steps.more steps.conn (t fd)) h (
        subst (λ (a : HttpAction). IsEntry a (called steps.more steps.conn (t fd))) (sym action)
          (sends, steps.stage)),
  )

  -- An event after which the table is as it should.
  abbrev pub GoesWell : Run HttpTable → Type 0
  GoesWell r = (t' : HttpTable) × (r ≡ ok t') × Responds t'

  accept-GoesWell :
      (accepted : Option ℕ) (t : HttpTable)
      → Responds t
      → ((client_fd : ℕ) → accepted ≡ some client_fd → client_fd < http_table_size)
      → GoesWell (http_accept accepted t)
  unfolding http_accept
  accept-GoesWell none t h fits = (t, refl, h)
  accept-GoesWell (some client_fd) t h fits = (
    put_entry t client_fd (registered (t client_fd)),
    rw (lt→ltb client_fd http_table_size (fits client_fd refl)) refl,
    put-Responds t client_fd (registered (t client_fd)) h (refl, idle 0 _),
  )

  Responds-at :
      (t : HttpTable) (fd : ℕ) (a : HttpAction) → Responds t → (t fd).action ≡ a → IsEntry a (t fd)
  Responds-at t fd a h q = subst (λ (a : HttpAction). IsEntry a (t fd)) q (h fd)

  read-GoesWell :
      (t : HttpTable) (e : HttpEvent) (a : HttpAction)
      → Responds t
      → Reported t e
      → (t e.fd).watch ≡ for_input
      → (t e.fd).action ≡ a
      → GoesWell (http_read a e.received e.accepted e.fd t)
  unfolding http_read
  read-GoesWell t e no_action h reported w q =
      let out = Responds-at t e.fd no_action h q in absurd (cc)
  read-GoesWell t e accept_action h reported w q = accept-GoesWell e.accepted t h reported.fits
  read-GoesWell t e recv_action h reported w q =
      let (sends, stage) = Responds-at t e.fd recv_action h q in
      called-Responds t e.fd (http_recv e.received (t e.fd).conn) h q sends
        (recv-Steps e.received (t e.fd).conn (t e.fd).watch (t e.fd).calls stage w reported.prints)

  -- Each event is one that epoll can report in the state that the events before it leave.
  abbrev pub AllReported : List HttpEvent → HttpTable → Type 0
  AllReported [] t = Unit
  AllReported (e ∷ events) t = Reported t e × Ensures (AllReported events) (http_event decimal e t)

  module _ (few_digits : length (decimal size) < 800) where
    write-GoesWell :
        (t : HttpTable) (e : HttpEvent) (a : HttpAction)
        → Responds t
        → Reported t e
        → (t e.fd).watch ≡ for_output
        → (t e.fd).action ≡ a
        → GoesWell (http_write decimal (t e.fd).sends e.opened e.fd t)
    unfolding http_write
    write-GoesWell t e no_action h reported w q =
        let out = Responds-at t e.fd no_action h q in absurd (cc)
    write-GoesWell t e accept_action h reported w q =
        let out = Responds-at t e.fd accept_action h q in absurd (cc)
    write-GoesWell t e recv_action h reported w q =
        let (sends, stage) = Responds-at t e.fd recv_action h q in
        let (t', run, well) =
          called-Responds t e.fd (http_send decimal e.opened (t e.fd).conn) h q sends (
            subst
              (λ (o : Opened).
                Steps (t e.fd).watch (t e.fd).calls (http_send decimal o (t e.fd).conn))
              (sym reported.opens)
              (send-Steps few_digits (t e.fd).conn (t e.fd).watch (t e.fd).calls stage w)) in
        (t', ap (λ (b : Bool). http_write decimal b e.opened e.fd t) sends ∙ run, well)

    tests-GoesWell :
        (t : HttpTable) (e : HttpEvent) (input output : Bool)
        → Responds t
        → Reported t e
        → e.input ≡ input
        → e.output ≡ output
        → GoesWell (http_tests decimal input output e t)
    unfolding http_tests
    tests-GoesWell t e false false h reported i o = (t, refl, h)
    tests-GoesWell t e false true h reported i o =
        write-GoesWell t e (t e.fd).action h reported (reported.of_output o) refl
    tests-GoesWell t e true false h reported i o =
        let (t', run, well) =
          read-GoesWell t e (t e.fd).action h reported (reported.of_input i) refl in
        (t', ap (λ (r : Run HttpTable). r >>= λ t'. ok t') run, well)
    tests-GoesWell t e true true h reported i o =
        let w = reported.of_input i in let w' = reported.of_output o in absurd (cc)

    run-GoesWell :
        (events : List HttpEvent) (t : HttpTable)
        → Responds t
        → AllReported events t
        → GoesWell (http_run decimal events t)
    unfolding http_run http_event
    run-GoesWell [] t h reported = (t, refl, h)
    run-GoesWell (e ∷ events) t h (reported, later) =
        let (t', one, well) = tests-GoesWell t e e.input e.output h reported refl refl in
        let (t'', more, well') =
          run-GoesWell events t' well
            (Ensures-ok (AllReported events) (http_event decimal e t) later one) in
        (t'', ap (λ (r : Run HttpTable). r >>= λ t'. http_run decimal events t') one ∙ more, well')

    start-Responds : (fds : List ℕ) → Responds (http_start fds)
    unfolding http_start
    start-Responds [] k = refl
    start-Responds (fd ∷ fds) k =
        put-Responds (http_start fds) fd listener_entry (start-Responds fds) refl k

    -- From its start, with any listeners, over events that epoll can report, with descriptors from accept that
    -- fit the table and a file that can always be opened and has one size of less than 800 digits, the
    -- server does not fault if no recv fills the read buffer without a NUL, and what it has handed to send and
    -- sendfile on each connection, whose results it does not use, is some whole responses, of the head and
    -- then the file, and of the response it is at as much as the stage of the connection says.
    pub http_run-Responds :
        (fds : List ℕ) (events : List HttpEvent)
        → AllReported events (http_start fds)
        → (t : HttpTable) × (http_run decimal events (http_start fds) ≡ ok t) × Responds t
    http_run-Responds fds events reported =
        run-GoesWell events (http_start fds) (start-Responds fds) reported
