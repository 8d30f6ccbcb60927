-- ===== src/EchoReactor/Echo.antt =====
-- Each client of the echo server is sent what it sent, whatever the others do.
use voice.Prelude.{
  ℕ, ◌≤◌, ◌≡◌, ◌≢◌, refl, ap, sym, subst, ◌∙◌, List, [], ◌∷◌, ◌++◌, arith, length, take, drop,
  length-take, take-length-append, take-all, append-nil, All,
}
use voice.Prelude.Run.{Run, ok, ◌>>=◌}
use voice.EchoReactor.{
  echo_buffer_length, accept_callback, WatchedFor, unwatched, epollin, epollout, EchoConn,
  ConnTable, empty_conn, copy_front, got_bytes, recv_conn, send_conn, EchoEvent, echo_run,
  echo_start,
}
use voice.EchoReactor.Connections.{
  ConnEvent, opened, readable, writable, conn_event, conn_run, conn_run-append, Reported,
  AllReported, AllReported-front, AllReported-back, events_at, events_of, Sound, echo_event-Goes,
  put_other, put_at,
}

-- A run of the server is, on each descriptor but the listener's, the run of that connection by its own
-- events, and does not fault: the events are what epoll can report, accept gives descriptors that fit
-- the table, recv does not fail, and what it leaves in the read buffer has a NUL, up to which it is printed.
pub echo_run-connections :
    (listenfd : ℕ) (events : List EchoEvent) (t : ConnTable)
    → (t listenfd).r_action ≡ accept_callback
    → All (Sound listenfd) events
    → ((fd : ℕ) → fd ≢ listenfd → AllReported (events_of listenfd fd events) (t fd))
    → (t' : ConnTable) × (echo_run events t ≡ ok t')
      × ((fd : ℕ) → fd ≢ listenfd → t' fd ≡ conn_run (events_of listenfd fd events) (t fd))
unfolding echo_run
echo_run-connections listenfd [] t accepts sound reported = (t, refl, λ fd ne. refl)
echo_run-connections listenfd (e ∷ events) t accepts sound reported =
    let first = echo_event-Goes listenfd t accepts e sound.0 (λ fd ne.
      AllReported-front (events_at listenfd fd e) (events_of listenfd fd events) (t fd)
        (reported fd ne)) in
    let (t', run, each) =
      echo_run-connections listenfd events first.after first.listens sound.1 (λ fd ne.
        subst (AllReported (events_of listenfd fd events)) (sym (first.each fd ne)) (
          AllReported-back (events_at listenfd fd e) (events_of listenfd fd events) (t fd)
            (reported fd ne))) in
    (
      t',
      ap (λ (r : Run ConnTable). r >>= echo_run events) first.done ∙ run,
      λ fd ne.
          each fd ne
          ∙ ap (conn_run (events_of listenfd fd events)) (first.each fd ne)
          ∙ sym (conn_run-append (events_at listenfd fd e) (events_of listenfd fd events) (t fd)),
    )

-- What is still to be sent.
abbrev pub conn_waits : EchoConn → List ℕ
conn_waits c = elim c.watched [
  | unwatched ↦ []
  | epollin ↦ []
  | epollout ↦ take c.wlength c.wbuffer
]

record IsEchoing (c : EchoConn) : Type 0 where
  echoed : c.gone_out ++ conn_waits c ≡ c.came_in
  bounded : c.wlength ≤ echo_buffer_length

-- `send` has room for a whole buffer.
abbrev pub TakesAll : ConnEvent → Type 0
TakesAll (opened fd) = Unit
TakesAll (readable bytes) = Unit
TakesAll (writable taken) = echo_buffer_length ≤ taken

none_wait : (c : EchoConn) → c.watched ≡ epollin → conn_waits c ≡ []
none_wait c e =
    ap
      (λ (w : WatchedFor). elim w as (λ x. List ℕ) [
        | unwatched ↦ []
        | epollin ↦ []
        | epollout ↦ take c.wlength c.wbuffer
      ])
      e

some_wait : (c : EchoConn) → c.watched ≡ epollout → conn_waits c ≡ take c.wlength c.wbuffer
some_wait c e =
    ap
      (λ (w : WatchedFor). elim w as (λ x. List ℕ) [
        | unwatched ↦ []
        | epollin ↦ []
        | epollout ↦ take c.wlength c.wbuffer
      ])
      e

-- What was received is what waits.
buffer_waits : (got : List ℕ) (c : EchoConn) → conn_waits (got_bytes got c) ≡ got
buffer_waits got c =
    ap (λ (xs : List ℕ). take (length got) (copy_front xs c.wbuffer))
      (take-length-append got (drop (length got) c.rbuffer))
    ∙ take-length-append got (drop (length got) c.wbuffer)

idle_echoed : (c : EchoConn) → IsEchoing c → c.watched ≡ epollin → c.gone_out ≡ c.came_in
idle_echoed c v e =
    sym (append-nil c.gone_out) ∙ ap (λ t. c.gone_out ++ t) (sym (none_wait c e)) ∙ v.echoed

conn_event-IsEchoing :
    (e : ConnEvent) (c : EchoConn)
    → Reported e c
    → TakesAll e
    → IsEchoing c
    → IsEchoing (conn_event e c)
unfolding recv_conn send_conn
conn_event-IsEchoing (opened fd) c h all v = record { echoed = refl; bounded = omega arith }
conn_event-IsEchoing (readable []) c h all v = record {
  echoed = append-nil c.gone_out ∙ idle_echoed c v h.1;
  bounded = v.bounded;
}
conn_event-IsEchoing (readable (x ∷ bytes)) c h all v =
    let got = take echo_buffer_length (x ∷ bytes) in
    record {
      echoed =
          ap (λ t. c.gone_out ++ t) (buffer_waits got c) ∙ ap (λ t. t ++ got) (idle_echoed c v h.1);
      bounded = omega (arith, length-take 1024 (x ∷ bytes));
    }
conn_event-IsEchoing (writable taken) c h all v = record {
  echoed =
      append-nil _
      ∙ ap (λ t. c.gone_out ++ t)
          (take-all taken (take c.wlength c.wbuffer)
              (omega (arith, length-take c.wlength c.wbuffer, v.bounded, all))
            ∙ sym (some_wait c h.1))
      ∙ v.echoed;
  bounded = v.bounded;
}

conn_run-IsEchoing :
    (es : List ConnEvent) (c : EchoConn)
    → AllReported es c
    → All TakesAll es
    → IsEchoing c
    → IsEchoing (conn_run es c)
conn_run-IsEchoing [] c h all v = v
conn_run-IsEchoing (e ∷ es) c h all v =
    conn_run-IsEchoing es (conn_event e c) h.1 all.1 (conn_event-IsEchoing e c h.0 all.0 v)

empty-IsEchoing : IsEchoing empty_conn
empty-IsEchoing = record { echoed = refl; bounded = omega arith }

-- From its start the server runs through whatever epoll can report, and each client has been sent all the
-- bytes it sent, in order, but for those that wait in its own write buffer, if `send` takes whole buffers.
pub echo_run-echoes :
    (listenfd : ℕ) (events : List EchoEvent)
    → All (Sound listenfd) events
    → ((fd : ℕ) → fd ≢ listenfd → AllReported (events_of listenfd fd events) empty_conn)
    → ((fd : ℕ) → All TakesAll (events_of listenfd fd events))
    → (t : ConnTable) × (echo_run events (echo_start listenfd) ≡ ok t)
      × ((fd : ℕ) → fd ≢ listenfd → (t fd).gone_out ++ conn_waits (t fd) ≡ (t fd).came_in)
unfolding echo_start
echo_run-echoes listenfd events sound reported all =
    let (t, run, each) =
      echo_run-connections listenfd events (echo_start listenfd)
        (ap (λ (c : EchoConn). c.r_action) (put_at (λ k. empty_conn) listenfd _)) sound
        (λ fd ne.
          subst (AllReported (events_of listenfd fd events))
            (sym (put_other (λ k. empty_conn) listenfd fd _ ne)) (reported fd ne)) in
    (
      t,
      run,
      λ fd ne.
          let own =
            each fd ne
            ∙ ap (conn_run (events_of listenfd fd events))
                (put_other (λ k. empty_conn) listenfd fd _ ne) in
          (subst IsEchoing (sym own) (
            conn_run-IsEchoing (events_of listenfd fd events) empty_conn (reported fd ne) (all fd)
              empty-IsEchoing)).echoed,
    )
