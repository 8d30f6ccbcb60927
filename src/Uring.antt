-- ===== src/Uring.antt =====
-- uring_tcp_server.c: the echo server over io_uring. The ring's library and the kernel behind it are its
-- environment: a step of the kernel finishes any request that runs, with an answer that is given, and
-- comes between any two steps of the program. All requests have the address of one buffer.
pub mod Requests
pub mod Steps
pub mod Crosstalk
mod Examples
use voice.Prelude.{
  ℕ, zero, suc, ◌+◌, ◌-◌, ◌<◌, ◌≡◌, List, [], ◌∷◌, ◌++◌, ltb, leb, if◌then◌else◌, length, take,
  drop, replicate,
}
use voice.Prelude.Int.{ℤ, pos, negsuc}
use voice.Prelude.Run.{Run, ok, fault, ◌>>=◌}

abbrev pub entries_length : ℕ
entries_length = 1024

abbrev pub buffer_size : ℕ
buffer_size = 1024

pub data UringEvent : Type 0 where
  event_accept event_read event_write : UringEvent

-- The user_data of a request and of its completion.
pub record ConnInfo : Type 0 where
  pub fd : ℤ
  pub event : UringEvent

-- A request, with the length it was prepared with.
pub record Sqe : Type 0 where
  pub info : ConnInfo
  pub len : ℕ

pub record Cqe : Type 0 where
  pub info : ConnInfo
  pub res : ℤ

-- Where main stands in its loop; `handling` says how many completions of the batch are left.
pub data Place : Type 0 where
  submitting waiting : Place
  handling : ℕ → Place

-- `sq` is what was prepared, `running` what was submitted, `cq` what is done. `accepted`, `received` and
-- `sent` are what the kernel's calls did, `closed` what close was called with.
pub record Server : Type 0 where
  pub socket : ℤ
  pub place : Place
  pub sq : List Sqe
  pub running : List Sqe
  pub cq : List Cqe
  pub buffer : List ℕ
  pub closed : List ℤ
  pub accepted : List ℤ
  pub received : List (ℤ × List ℕ)
  pub sent : List (ℤ × List ℕ)

-- io_uring_get_sqe gives NULL when the queue is full, and the three functions write to it.
unfoldable pub get_sqe : Sqe → Server → Run Server
get_sqe e s =
    if ltb (length s.sq) entries_length then ok (record s { sq = s.sq ++ e ∷ [] }) else fault

unfoldable pub set_event_accept : ℤ → Server → Run Server
unfolding get_sqe
set_event_accept fd s =
    get_sqe (record { info = record { fd = fd; event = event_accept }; len = 0 }) s

unfoldable pub set_event_recv : ℤ → ℕ → Server → Run Server
unfolding get_sqe
set_event_recv fd len s =
    get_sqe (record { info = record { fd = fd; event = event_read }; len = len }) s

unfoldable pub set_event_send : ℤ → ℕ → Server → Run Server
unfolding get_sqe
set_event_send fd len s =
    get_sqe (record { info = record { fd = fd; event = event_write }; len = len }) s

unfoldable pub on_accept : ℤ → Server → Run Server
unfolding set_event_accept set_event_recv
on_accept connfd s = set_event_accept s.socket s >>= λ s'. set_event_recv connfd buffer_size s'

unfoldable pub on_read : ℤ → ℤ → Server → Run Server
unfolding set_event_send
on_read fd (negsuc n) s = ok (record s { closed = s.closed ++ fd ∷ [] })
on_read fd (pos zero) s = ok (record s { closed = s.closed ++ fd ∷ [] })
on_read fd (pos (suc n)) s = set_event_send fd (suc n) s

unfoldable pub on_write : ℤ → Server → Run Server
unfolding set_event_recv
on_write fd s = set_event_recv fd buffer_size s

unfoldable pub on_completion : Cqe → Server → Run Server
unfolding on_accept on_read on_write
on_completion c s = elim c.info.event [
  | event_accept ↦ on_accept c.res s
  | event_read ↦ on_read c.info.fd c.res s
  | event_write ↦ on_write c.info.fd s
]

-- The next completion of the batch.
unfoldable pub next_completion : List Cqe → ℕ → Server → Run Server
unfolding on_completion
next_completion [] n s = ok s
next_completion (c ∷ cq) n s = on_completion c (record s { cq = cq; place = handling n })

abbrev pub smaller : ℕ → ℕ → ℕ
smaller a b = if leb a b then a else b

-- io_uring_wait_cqe waits for a completion, and io_uring_peek_batch_cqe takes up to 2 * ENTRIES_LENGTH.
unfoldable pub peek_batch : List Cqe → Server → Server
peek_batch [] s = s
peek_batch (c ∷ cq) s = record s {
  place = handling (smaller (length (c ∷ cq)) (entries_length + entries_length));
}

unfoldable pub main_step : Server → Run Server
unfolding next_completion peek_batch
main_step s = elim s.place [
  | submitting ↦ ok (record s { place = waiting; running = s.running ++ s.sq; sq = [] })
  | waiting ↦ ok (peek_batch s.cq s)
  | handling n ↦ elim n [
    | zero ↦ ok (record s { place = submitting })
    | suc m ↦ next_completion s.cq m s
  ]
]

-- What the kernel answers to a request.
pub data Answer : Type 0 where
  connected : ℤ → Answer
  came : List ℕ → Answer
  took : ℕ → Answer
  refused : ℕ → Answer

abbrev pub done : Sqe → ℤ → Server → Server
done e res s = record s { cq = s.cq ++ record { info = e.info; res = res } ∷ [] }

-- A request is carried out. A send reads the buffer now.
unfoldable pub carry_out : Sqe → Answer → Server → Server
carry_out e (refused n) s = elim e.info.event [
  | event_accept ↦ done e (negsuc n) (record s { accepted = s.accepted ++ negsuc n ∷ [] })
  | event_read ↦ done e (negsuc n) s
  | event_write ↦ done e (negsuc n) s
]
carry_out e (connected fd) s = done e fd (record s { accepted = s.accepted ++ fd ∷ [] })
carry_out e (came bytes) s =
    let got = take e.len bytes in
    done e (pos (length got)) (record s {
      buffer = got ++ drop (length got) s.buffer;
      received = s.received ++ (e.info.fd, got) ∷ [];
    })
carry_out e (took n) s =
    let gone = take (smaller n e.len) s.buffer in
    done e (pos (length gone)) (record s { sent = s.sent ++ (e.info.fd, gone) ∷ [] })

-- Whether the answer is one for the request.
unfoldable pub FitsEvent : Answer → UringEvent → Type 0
FitsEvent (connected fd) e = e ≡ event_accept
FitsEvent (came bytes) e = e ≡ event_read
FitsEvent (took n) e = e ≡ event_write
FitsEvent (refused n) e = Unit

-- From the ring's setup to the loop.
abbrev pub started : ℤ → Server
started socket = record {
  socket = socket;
  place = submitting;
  sq = record { info = record { fd = socket; event = event_accept }; len = 0 } ∷ [];
  running = [];
  cq = [];
  buffer = replicate buffer_size 0;
  closed = [];
  accepted = [];
  received = [];
  sent = [];
}

-- At most 1023 connections are accepted and not closed; a failed accept counts as one.
abbrev pub OpenConnectionsFit : Server → Type 0
OpenConnectionsFit s = length s.accepted < length s.closed + entries_length

-- The states the server can come to while so many are open. The kernel may finish any request that runs.
pub data Reachable (socket : ℤ) : Server → Type 0 where
  at_start : Reachable socket (started socket)
  by_main :
      {s s' : Server}
      → Reachable socket s
      → OpenConnectionsFit s
      → main_step s ≡ ok s'
      → Reachable socket s'
  by_kernel :
      {s : Server} (front : List Sqe) (e : Sqe) (back : List Sqe) (a : Answer)
      → Reachable socket s
      → s.running ≡ front ++ e ∷ back
      → FitsEvent a e.info.event
      → Reachable socket (carry_out e a (record s { running = front ++ back }))
