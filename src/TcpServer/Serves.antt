-- ===== src/TcpServer/Serves.antt =====
-- What the two event loops print of each client.
use voice.Prelude.{
  ◌<◌, ◌≡◌, refl, ap, sym, ◌∙◌, inl, inr, Bool, true, false, Option, none, some, List, [], ◌∷◌,
  ◌++◌, append_assoc, append-nil, ◌==◌, if◌then◌else◌, All, arith, ==_ne, not, ℕ, zero, suc,
}
use voice.Prelude.Run.{Run, ok, ◌>>=◌}
use voice.TcpServer.{
  RecvOutcome, LoopStep, leaves, server_step, epoll_step, Drained, drain, TcpServer, TcpEvent,
  print_messages, accept_client, end_client, islistenfd, events_run, serve_client, serve_as,
  serve_event, epoll_event, epoll_as,
}
use voice.TcpServer.Drain.{
  flat, IsQuiet, Receives, Bounded, Loops, server_step-Loops, epoll_step-Loops, drain-ReadsAll,
}

-- What was given to printf for a descriptor; the last message stands first.
abbrev pub printed_at : ℕ → List (ℕ × List (List ℕ)) → List ℕ
printed_at fd [] = []
printed_at fd ((k, messages) ∷ older) =
    printed_at fd older ++ (if k == fd then flat messages else [])

module _ {Socket : Type 0} (queue : Socket → List ℕ) (is_client : ℕ → Bool) where
  -- What had come on a descriptor by each of its events.
  abbrev pub queued : ℕ → TcpEvent Socket → List ℕ
  queued fd e = if is_client e.fd then (if e.fd == fd then queue e.socket else []) else []

  abbrev pub queued_at : ℕ → List (TcpEvent Socket) → List ℕ
  queued_at fd [] = []
  queued_at fd (e ∷ events) = queued fd e ++ queued_at fd events

accept_prints : (a : Option ℕ) (st : TcpServer) → (accept_client a st).printed ≡ st.printed
unfolding accept_client
accept_prints none st = refl
accept_prints (some client_fd) st = refl

end_prints :
    (fd : ℕ) (closes : Bool) (st : TcpServer) → (end_client fd closes st).printed ≡ st.printed
unfolding end_client
end_prints fd true st = refl
end_prints fd false st = refl

module _ {Socket : Type 0} (recv : Socket → RecvOutcome × Socket) (queue : Socket → List ℕ)
    (left : Socket → ℕ) (step : RecvOutcome → LoopStep) where
  -- recv answers no error that ends the loop.
  abbrev pub Reliable : Type 0
  Reliable = (s : Socket) → step (recv s).0 ≡ leaves true → IsQuiet (recv s).0

  -- recv behaves as it is documented, and `fuel` is more than the answers that an event can need.
  pub record Serving (fuel : ℕ) (events : List (TcpEvent Socket)) : Type 0 where
    pub net : Receives recv queue
    pub bounded : Bounded step recv left
    pub reliable : Reliable
    pub enough : All (λ (e : TcpEvent Socket). left e.socket < fuel) events

  -- A turn of the loop that serves an event as a client's, or accepts.
  pub data Turn (is_client : ℕ → Bool) (fuel : ℕ)
      (turn : TcpEvent Socket → TcpServer → Run TcpServer) (e : TcpEvent Socket) : Type 0 where
    serves :
        is_client e.fd ≡ true
        → ((st : TcpServer) → turn e st ≡ serve_client recv fuel step e st)
        → Turn is_client fuel turn e
    accepts :
        is_client e.fd ≡ false
        → ((st : TcpServer) → turn e st ≡ ok (accept_client e.accepted st))
        → Turn is_client fuel turn e

  -- What an event adds to what is printed.
  abbrev pub Prints : (ℕ → List ℕ) → TcpServer → Run TcpServer → Type 0
  Prints more st r =
      (st' : TcpServer) × (r ≡ ok st')
      × ((fd : ℕ) → printed_at fd st'.printed ≡ printed_at fd st.printed ++ more fd)

  module _ (fuel : ℕ) (loops : Loops step) (net : Receives recv queue)
      (bounded : Bounded step recv left) (reliable : Reliable) where
    drained_all :
        (s : Socket)
        → left s < fuel
        → (d : Drained Socket) × (drain step recv fuel s ≡ ok d) × (queue s ≡ flat d.messages)
    drained_all s enough =
        let r = drain-ReadsAll step recv queue left net loops bounded fuel s enough in
        (
          r.d,
          r.done,
          elim r.all_or_error [
            | inl none_left ↦
                r.read
                ∙ ap (λ (bs : List ℕ). flat r.d.messages ++ bs) none_left
                ∙ append-nil (flat r.d.messages)
            | inr (at, error, last, closes, ended) ↦ absurd (error (reliable at ended))
          ],
        )

    client-Prints :
        (e : TcpEvent Socket) (st : TcpServer)
        → left e.socket < fuel
        → Prints
            (λ fd. if e.fd == fd then queue e.socket else [])
            st
            (serve_client recv fuel step e st)
    unfolding serve_client
    client-Prints e st enough =
        let (d, done, all) = drained_all e.socket enough in
        (
          end_client e.fd d.closes (print_messages e.fd d.messages st),
          ap
              (λ (r : Run (Drained Socket)).
                r >>= λ d. ok (end_client e.fd d.closes (print_messages e.fd d.messages st)))
              done,
          λ fd.
              ap (printed_at fd) (end_prints e.fd d.closes (print_messages e.fd d.messages st))
              ∙ ap (λ (bs : List ℕ). printed_at fd st.printed ++ (if e.fd == fd then bs else []))
                  (sym all),
        )

    module _ (is_client : ℕ → Bool) (turn : TcpEvent Socket → TcpServer → Run TcpServer) where
      turn-Prints :
          (e : TcpEvent Socket) (st : TcpServer)
          → Turn is_client fuel turn e
          → left e.socket < fuel
          → Prints (λ fd. queued queue is_client fd e) st (turn e st)
      turn-Prints e st (serves client run) enough =
          let (st', done, says) = client-Prints e st enough in
          (st', run st ∙ done, λ fd. rw (client) (says fd))
      turn-Prints e st (accepts listener run) enough = (
        accept_client e.accepted st,
        run st,
        λ fd. rw (listener) (ap (printed_at fd) (accept_prints e.accepted st) ∙ sym (append-nil _)),
      )

      pub run-Prints :
          (events : List (TcpEvent Socket)) (st : TcpServer)
          → ((e : TcpEvent Socket) → Turn is_client fuel turn e)
          → All (λ (e : TcpEvent Socket). left e.socket < fuel) events
          → Prints (λ fd. queued_at queue is_client fd events) st (events_run turn events st)
      unfolding events_run
      run-Prints [] st kinds enough = (st, refl, λ fd. sym (append-nil _))
      run-Prints (e ∷ events) st kinds enough =
          let (st', one, says) = turn-Prints e st (kinds e) enough.0 in
          let (st'', more, says') = run-Prints events st' kinds enough.1 in
          (
            st'',
            ap (λ (r : Run TcpServer). r >>= λ st'. events_run turn events st') one ∙ more,
            λ fd.
                says' fd
                ∙ ap (λ (bs : List ℕ). bs ++ queued_at queue is_client fd events) (says fd)
                ∙ append_assoc (printed_at fd st.printed) (queued queue is_client fd e)
                    (queued_at queue is_client fd events),
          )

module _ {Socket : Type 0} (recv : Socket → RecvOutcome × Socket) (queue : Socket → List ℕ)
    (left : Socket → ℕ) where
  -- tcp_Server reads of each client, and gives to printf, what had come by each of its events, all of it and in order, where a
  -- client's descriptor is one that islistenfd does not find, recv behaves as documented and answers no
  -- error but EAGAIN and EINTR, and the fuel is more than an event can need.
  pub serve_run-Prints :
      (sockfds : List ℕ) (fuel : ℕ) (events : List (TcpEvent Socket)) (st : TcpServer)
      → Serving recv queue left server_step fuel events
      → Prints recv queue left server_step
          (λ fd. queued_at queue (λ k. islistenfd k sockfds == 0) fd events)
          st
          (events_run (serve_event recv fuel sockfds) events st)
  unfolding serve_event serve_as
  serve_run-Prints sockfds fuel events st h =
      run-Prints recv queue left server_step fuel server_step-Loops h.net h.bounded h.reliable
        (λ k. islistenfd k sockfds == 0) (serve_event recv fuel sockfds) events st
        (λ e. kind e (islistenfd e.fd sockfds) refl) h.enough
    where
      kind :
          (e : TcpEvent Socket) (sockfd : ℕ)
          → islistenfd e.fd sockfds ≡ sockfd
          → Turn recv queue left server_step
              (λ k. islistenfd k sockfds == 0)
              fuel
              (serve_event recv fuel sockfds)
              e
      kind e zero q = serves (rw (q) refl) (λ st. ap (λ (k : ℕ). serve_as recv fuel k e st) q)
      kind e (suc k) q =
          accepts (rw (q) (==_ne (suc k) 0 (λ r. omega (arith, r))))
            (λ st. ap (λ (k : ℕ). serve_as recv fuel k e st) q)

  -- tcp_epoll reads of each client, and gives to printf, what had come by each of its events, all of it and in order, where recv
  -- behaves as documented, the answers after which the loop goes on are bounded, errors included, and the
  -- fuel is more than that bound.
  pub epoll_run-Prints :
      (listen_fd fuel : ℕ) (events : List (TcpEvent Socket)) (st : TcpServer)
      → Serving recv queue left epoll_step fuel events
      → Prints recv queue left epoll_step
          (λ fd. queued_at queue (λ k. not (k == listen_fd)) fd events)
          st
          (events_run (epoll_event recv fuel listen_fd) events st)
  unfolding epoll_event
  epoll_run-Prints listen_fd fuel events st h =
      run-Prints recv queue left epoll_step fuel epoll_step-Loops h.net h.bounded h.reliable
        (λ k. not (k == listen_fd)) (epoll_event recv fuel listen_fd) events st
        (λ e. kind e (e.fd == listen_fd) refl) h.enough
    where
      kind :
          (e : TcpEvent Socket) (b : Bool)
          → (e.fd == listen_fd) ≡ b
          → Turn recv queue left epoll_step
              (λ k. not (k == listen_fd))
              fuel
              (epoll_event recv fuel listen_fd)
              e
      kind e true q = accepts (rw (q) refl) (λ st. ap (λ (b : Bool). epoll_as recv fuel b e st) q)
      kind e false q = serves (rw (q) refl) (λ st. ap (λ (b : Bool). epoll_as recv fuel b e st) q)
