-- ===== src/Uring/Requests.antt =====
-- How many requests are on their way: one accept at any time, and one more for each connection.
use voice.Prelude.{
  ℕ, zero, suc, ◌+◌, ◌<◌, ◌≡◌, refl, ap, ◌∙◌, List, [], ◌∷◌, ◌++◌, arith, lt→ltb, length,
  length-append,
}
use voice.Prelude.Int.{ℤ, pos, negsuc}
use voice.Prelude.Run.{Run, ok}
use voice.Uring.{
  entries_length, UringEvent, event_accept, event_read, event_write, Sqe, Cqe, handling, Server,
  get_sqe, set_event_accept, set_event_recv, set_event_send, on_accept, on_read, on_write,
  on_completion, OpenConnectionsFit, next_completion, peek_batch,
}

abbrev pub is_accept : UringEvent → ℕ
is_accept event_accept = 1
is_accept event_read = 0
is_accept event_write = 0

abbrev pub accepts : List Sqe → ℕ
accepts [] = 0
accepts (e ∷ es) = is_accept e.info.event + accepts es

abbrev pub accepts_done : List Cqe → ℕ
accepts_done [] = 0
accepts_done (c ∷ cs) = is_accept c.info.event + accepts_done cs

-- The requests that are on their way, and the accepts among them.
abbrev pub outstanding : Server → ℕ
outstanding s = length s.sq + length s.running + length s.cq

abbrev pub outstanding_accepts : Server → ℕ
outstanding_accepts s = accepts s.sq + accepts s.running + accepts_done s.cq

-- A connection that was accepted counts once its completion is handled.
pub record Counts (s : Server) : Type 0 where
  pub requests : outstanding s + accepts_done s.cq + length s.closed ≡ 1 + length s.accepted
  pub one_accept : outstanding_accepts s ≡ 1

pub accepts-append : (es fs : List Sqe) → accepts (es ++ fs) ≡ accepts es + accepts fs
accepts-append [] fs = omega arith
accepts-append (e ∷ es) fs = omega (arith, accepts-append es fs)

pub accepts_done-append :
    (cs ds : List Cqe) → accepts_done (cs ++ ds) ≡ accepts_done cs + accepts_done ds
accepts_done-append [] ds = omega arith
accepts_done-append (c ∷ cs) ds = omega (arith, accepts_done-append cs ds)

-- What a handler does to the numbers: `m` more requests, `a` of them accepts, and `k` descriptors closed.
record Adds (m a k : ℕ) (s s' : Server) : Type 0 where
  prepared : length s'.sq ≡ length s.sq + m
  accepting : accepts s'.sq ≡ accepts s.sq + a
  more_closed : length s'.closed ≡ length s.closed + k
  pub running : s'.running ≡ s.running
  cq : s'.cq ≡ s.cq
  pub accepted : s'.accepted ≡ s.accepted
  pub socket : s'.socket ≡ s.socket

-- It does that if the queue has room for them.
abbrev Does : ℕ → ℕ → ℕ → Server → Run Server → Type 0
Does m a k s r = (s' : Server) × (r ≡ ok s') × Adds m a k s s'

get_sqe-Does :
    (e : Sqe) (s : Server)
    → length s.sq < entries_length
    → Does 1 (is_accept e.info.event) 0 s (get_sqe e s)
unfolding get_sqe
get_sqe-Does e s room = (
  record s { sq = s.sq ++ e ∷ [] },
  rw (lt→ltb (length s.sq) entries_length room),
  record {
    prepared = length-append s.sq (e ∷ []);
    accepting = accepts-append s.sq (e ∷ []) ∙ omega arith;
    more_closed = omega arith;
    running = refl;
    cq = refl;
    accepted = refl;
    socket = refl;
  },
)

on_accept-Does :
    (fd : ℤ) (s : Server) → length s.sq + 1 < entries_length → Does 2 1 0 s (on_accept fd s)
unfolding on_accept set_event_accept set_event_recv
on_accept-Does fd s room =
    let (s', first, a) =
      get_sqe-Does (record { info = record { fd = s.socket; event = event_accept }; len = 0 }) s
        (omega (arith, room)) in
    let (s'', second, b) =
      get_sqe-Does (record { info = record { fd = fd; event = event_read }; len = 1024 }) s'
        (omega (arith, room, a.prepared)) in
    (
      s'',
      rw (first, second),
      record {
        prepared = omega (arith, a.prepared, b.prepared);
        accepting = omega (arith, a.accepting, b.accepting);
        more_closed = omega (arith, a.more_closed, b.more_closed);
        running = b.running ∙ a.running;
        cq = b.cq ∙ a.cq;
        accepted = b.accepted ∙ a.accepted;
        socket = b.socket ∙ a.socket;
      },
    )

closes : (fd : ℤ) (s : Server) → Does 0 0 1 s (ok (record s { closed = s.closed ++ fd ∷ [] }))
closes fd s = (
  record s { closed = s.closed ++ fd ∷ [] },
  refl,
  record {
    prepared = omega arith;
    accepting = omega arith;
    more_closed = length-append s.closed (fd ∷ []);
    running = refl;
    cq = refl;
    accepted = refl;
    socket = refl;
  },
)

-- A completion is answered by one request more than it stands for if it is of an accept; else by one
-- request, or by closing the connection.
record Answered (c : Cqe) (s : Server) (r : Run Server) : Type 0 where
  pub more : ℕ
  shut : ℕ
  balance : more + shut ≡ 1 + is_accept c.info.event
  pub does : Does more (is_accept c.info.event) shut s r

by_event :
    (e : UringEvent) (fd res : ℤ) (s : Server)
    → length s.sq + is_accept e < entries_length
    → Answered
        (record { info = record { fd = fd; event = e }; res = res })
        s
        (on_completion (record { info = record { fd = fd; event = e }; res = res }) s)
unfolding on_completion on_read on_write set_event_recv set_event_send
by_event event_accept fd res s room = record {
  more = 2;
  shut = 0;
  balance = refl;
  does = on_accept-Does res s room;
}
by_event event_read fd (pos (suc n)) s room = record {
  more = 1;
  shut = 0;
  balance = refl;
  does =
      get_sqe-Does (record { info = record { fd = fd; event = event_write }; len = suc n }) s
        (omega (arith, room));
}
by_event event_read fd (pos zero) s room = record {
  more = 0;
  shut = 1;
  balance = refl;
  does = closes fd s;
}
by_event event_read fd (negsuc n) s room = record {
  more = 0;
  shut = 1;
  balance = refl;
  does = closes fd s;
}
by_event event_write fd res s room = record {
  more = 1;
  shut = 0;
  balance = refl;
  does =
      get_sqe-Does (record { info = record { fd = fd; event = event_read }; len = 1024 }) s
        (omega (arith, room));
}

handled :
    (c : Cqe) (cq : List Cqe) (n : ℕ) (s : Server) {r : Run Server}
    → Counts s
    → s.cq ≡ c ∷ cq
    → Answered c (record s { cq = cq; place = handling n }) r
    → (s' : Server) × (r ≡ ok s') × Counts s'
handled c cq n s v e w =
    let (s', run, adds) = w.does in
    (
      s',
      run,
      record {
        requests = omega (
          arith,
          v.requests,
          w.balance,
          adds.prepared,
          adds.more_closed,
          ap length adds.running,
          ap length adds.cq,
          ap accepts_done adds.cq,
          ap length adds.accepted,
          ap length e,
          ap accepts_done e,
        );
        one_accept = omega (
          arith,
          v.one_accept,
          adds.accepting,
          ap accepts adds.running,
          ap accepts_done adds.cq,
          ap accepts_done e,
        );
      },
    )

pub next_completion-Counts :
    (cq : List Cqe) (n : ℕ) (s : Server)
    → Counts s
    → OpenConnectionsFit s
    → s.cq ≡ cq
    → (s' : Server) × (next_completion cq n s ≡ ok s') × Counts s'
unfolding next_completion
next_completion-Counts [] n s v fit e = (s, refl, v)
next_completion-Counts (c ∷ cq) n s v fit e = handled c cq n s v e (
    by_event c.info.event c.info.fd c.res (record s { cq = cq; place = handling n })
      (omega (arith, v.requests, fit, ap length e, ap accepts_done e)))

pub peek_batch-Counts : (cq : List Cqe) (s : Server) → Counts s → Counts (peek_batch cq s)
unfolding peek_batch
peek_batch-Counts [] s v = v
peek_batch-Counts (c ∷ cq) s v = record { requests = v.requests; one_accept = v.one_accept }

pub ok_injective : {a b : Server} → ok a ≡ ok b → a ≡ b
ok_injective e = cc
