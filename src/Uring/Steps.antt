-- ===== src/Uring/Steps.antt =====
-- The counts of the requests under every step of main and of the kernel.
use voice.Prelude.{
  ℕ, zero, suc, ◌+◌, ◌≡◌, refl, ap, sym, subst, ◌∙◌, List, [], ◌∷◌, ◌++◌, arith, length,
  length-append,
}
use voice.Prelude.Int.{ℤ, negsuc}
use voice.Prelude.Run.{Run, ok}
use voice.Uring.{
  UringEvent, event_accept, event_read, event_write, Sqe, Cqe, Place, submitting, waiting, handling,
  Server, OpenConnectionsFit, peek_batch, main_step, Answer, connected, came, took, refused,
  carry_out, FitsEvent, done, Reachable, at_start, by_main, by_kernel,
}
use voice.Uring.Requests.{
  is_accept, accepts, Counts, accepts-append, accepts_done-append, next_completion-Counts,
  peek_batch-Counts, ok_injective,
}

-- What a step of main leaves.
abbrev pub Goes : Run Server → Type 0
Goes r = (s' : Server) × (r ≡ ok s') × Counts s'

at_place :
    (p : Place) (s : Server) → Counts s → OpenConnectionsFit s → s.place ≡ p → Goes (main_step s)
unfolding main_step
at_place submitting s v fit e =
    rw (main_step, e)
      (
        _,
        refl,
        record {
          requests = omega (arith, v.requests, length-append s.running s.sq);
          one_accept = omega (arith, v.one_accept, accepts-append s.running s.sq);
        },
      )
at_place waiting s v fit e = rw (main_step, e) (peek_batch s.cq s, refl, peek_batch-Counts s.cq s v)
at_place (handling zero) s v fit e =
    rw (main_step, e) (_, refl, record { requests = v.requests; one_accept = v.one_accept })
at_place (handling (suc n)) s v fit e =
    rw (main_step, e) (next_completion-Counts s.cq n s v fit refl)

-- The kernel moves a request from the ones that run to the completions.
finished :
    (s : Server) (front : List Sqe) (e : Sqe) (back : List Sqe) (res : ℤ) (buffer : List ℕ)
    (accepted : List ℤ) (received sent : List (ℤ × List ℕ))
    → Counts s
    → s.running ≡ front ++ e ∷ back
    → length accepted ≡ length s.accepted + is_accept e.info.event
    → Counts (
        done e res (record s {
          running = front ++ back;
          buffer = buffer;
          accepted = accepted;
          received = received;
          sent = sent;
        }))
finished s front e back res buffer accepted received sent v q n =
    let c : Cqe = record { info = e.info; res = res } in
    record {
      requests = omega (
        arith,
        v.requests,
        n,
        ap length q,
        length-append front (e ∷ back),
        length-append front back,
        length-append s.cq (c ∷ []),
        accepts_done-append s.cq (c ∷ []),
      );
      one_accept = omega (
        arith,
        v.one_accept,
        ap accepts q,
        accepts-append front (e ∷ back),
        accepts-append front back,
        accepts_done-append s.cq (c ∷ []),
      );
    }

refused-Counts :
    (s : Server) (front : List Sqe) (fd : ℤ) (event : UringEvent) (len : ℕ) (back : List Sqe)
    (n : ℕ)
    → Counts s
    → let e : Sqe = record { info = record { fd = fd; event = event }; len = len } in
      s.running ≡ front ++ e ∷ back
      → Counts (carry_out e (refused n) (record s { running = front ++ back }))
unfolding carry_out
refused-Counts s front fd event_accept len back n v q =
    finished s front _ back (negsuc n) s.buffer (s.accepted ++ negsuc n ∷ []) s.received s.sent v q
      (length-append s.accepted (negsuc n ∷ []))
refused-Counts s front fd event_read len back n v q =
    finished s front _ back (negsuc n) s.buffer s.accepted s.received s.sent v q (omega arith)
refused-Counts s front fd event_write len back n v q =
    finished s front _ back (negsuc n) s.buffer s.accepted s.received s.sent v q (omega arith)

carry_out-Counts :
    (s : Server) (front : List Sqe) (e : Sqe) (back : List Sqe) (a : Answer)
    → Counts s
    → s.running ≡ front ++ e ∷ back
    → FitsEvent a e.info.event
    → Counts (carry_out e a (record s { running = front ++ back }))
unfolding carry_out FitsEvent
carry_out-Counts s front e back (connected fd) v q h =
    finished s front e back fd s.buffer (s.accepted ++ fd ∷ []) s.received s.sent v q
      (length-append s.accepted (fd ∷ []) ∙ omega (arith, ap is_accept h))
carry_out-Counts s front e back (came bytes) v q h =
    finished s front e back _ _ s.accepted _ s.sent v q (omega (arith, ap is_accept h))
carry_out-Counts s front e back (took n) v q h =
    finished s front e back _ _ s.accepted s.received _ v q (omega (arith, ap is_accept h))
carry_out-Counts s front e back (refused n) v q h =
    refused-Counts s front e.info.fd e.info.event e.len back n v q

-- At any time one accept is on its way, and as many requests more as accept has answered, with a connection
-- or an error, less the descriptors that were closed, if those were no more than 1023 at a time.
pub reachable-Counts : (socket : ℤ) {s : Server} → Reachable socket s → Counts s
reachable-Counts socket at_start = record { requests = refl; one_accept = refl }
reachable-Counts socket (by_main {s} r fit e) =
    let (s', run, v) = at_place s.place s (reachable-Counts socket r) fit refl in
    subst Counts (ok_injective (sym run ∙ e)) v
reachable-Counts socket (by_kernel {s} front e back a r q h) =
    carry_out-Counts s front e back a (reachable-Counts socket r) q h

-- With at most 1023 connections open, the queue of submissions has room for what main prepares, so the
-- next step of main does not fault, in whatever order the kernel finishes the requests.
pub main_step-runs :
    (socket : ℤ) {s : Server}
    → Reachable socket s
    → OpenConnectionsFit s
    → (s' : Server) × (main_step s ≡ ok s')
main_step-runs socket {s} r fit =
    let (s', run, v) = at_place s.place s (reachable-Counts socket r) fit refl in (s', run)
