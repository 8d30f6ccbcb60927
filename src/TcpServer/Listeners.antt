-- ===== src/TcpServer/Listeners.antt =====
-- The listeners of tcp_Server, and islistenfd's search of them.
use voice.Prelude.{
  ℕ, zero, suc, ◌+◌, ◌<◌, ◌≤◌, ◌≡◌, refl, ap, sym, subst, ◌∙◌, inl, inr, Bool, true, false, Option,
  none, some, List, [], ◌∷◌, ◌==◌, ==_iff, ==_ne, if◌then◌else◌, Bool-cases, arith, take,
  some_injective, get_elem?, occurrences,
}
use voice.Prelude.Run.{Run, ok, ◌>>=◌}
use voice.TcpServer.{
  RecvOutcome, failed, server_step, TcpServer, TcpEvent, watch_fd, print_messages, unwatched,
  max_port, listenfd_scan, islistenfd, serve_event, serve_as, serve_client, Drained, drain,
  drain_turn, end_client, PortAnswers, Started, serving, returned, open_by, open_ports, server_main,
  listeners_size,
}

-- islistenfd looks at the first 100 entries: it gives the descriptor when that is one of them, else 0.
pub listenfd_scan-take :
    (n fd : ℕ) (fds : List ℕ)
    → listenfd_scan n fd fds ≡ (if occurrences fd (take n fds) == 0 then 0 else fd)
unfolding listenfd_scan
listenfd_scan-take zero fd fds = refl
listenfd_scan-take (suc n) fd [] = refl
listenfd_scan-take (suc n) fd (l ∷ fds) = elim (Bool-cases (fd == l)) [
  | inl e ↦ rw (e, ==_ne (suc (occurrences fd (take n fds))) 0 (λ q. omega (arith, q))) refl
  | inr e ↦ rw (e) (listenfd_scan-take n fd fds)
]

pub occurrences-take :
    (n i fd : ℕ) (fds : List ℕ)
    → get_elem? fds i ≡ some fd
    → n ≤ i
    → suc (occurrences fd (take n fds)) ≤ occurrences fd fds
occurrences-take zero zero fd (l ∷ fds) at small =
    rw ((==_iff fd l).1 (sym (some_injective at))) (omega arith)
occurrences-take zero (suc i) fd (l ∷ fds) at small =
    let later = occurrences-take zero i fd fds at (omega arith) in
    elim (Bool-cases (fd == l)) [ inl e ↦ rw (e) (omega (arith, later)) | inr e ↦ rw (e) later ]
occurrences-take (suc n) (suc i) fd (l ∷ fds) at small =
    let later = occurrences-take n i fd fds at (omega (arith, small)) in
    elim (Bool-cases (fd == l)) [ inl e ↦ rw (e) (omega (arith, later)) | inr e ↦ rw (e) later ]
occurrences-take (suc n) zero fd (l ∷ fds) at small = absurd (omega (arith, small))
occurrences-take n i fd [] at small = absurd (cc)

islistenfd_beyond :
    (fd i : ℕ) (fds : List ℕ)
    → get_elem? fds i ≡ some fd
    → max_port ≤ i
    → occurrences fd fds ≡ 1
    → islistenfd fd fds ≡ 0
unfolding islistenfd
islistenfd_beyond fd i fds at far once =
    let more = occurrences-take max_port i fd fds at far in
    listenfd_scan-take max_port fd fds
    ∙ rw ((==_iff (occurrences fd (take max_port fds)) 0).1 (omega (arith, more, once))) refl

-- What socket, bind and listen answered for a port that is served.
abbrev pub Opened : PortAnswers → ℕ → Type 0
Opened a fd = (a.socket ≡ some fd) × (a.binds ≡ true) × (a.listens ≡ true)

abbrev fds_of : Started → List ℕ
fds_of (serving fds) = fds
fds_of (returned code) = []

open_by_serving :
    (b l : ℕ) (o : Option ℕ) (binds listens : Bool) (rest : Started) (fds : List ℕ)
    → open_by b l o binds listens rest ≡ serving fds
    → (fd : ℕ) × (more : List ℕ) × ((o ≡ some fd) × (binds ≡ true) × (listens ≡ true))
      × (rest ≡ serving more)
      × (fd ∷ more ≡ fds)
open_by_serving b l none binds listens rest fds e = absurd (cc)
open_by_serving b l (some fd) false listens rest fds e = absurd (cc)
open_by_serving b l (some fd) true false rest fds e = absurd (cc)
open_by_serving b l (some fd) true true (returned code) fds e = absurd (cc)
open_by_serving b l (some fd) true true (serving more) fds e =
    (fd, more, (refl, refl, refl), refl, ap fds_of e)

-- One listener, and those after it.
at_index :
    (answers : ℕ → PortAnswers) (n i fd : ℕ) (more fds : List ℕ)
    → Opened (answers i) fd
    → fd ∷ more ≡ fds
    → ((j : ℕ) → j < n → (fd : ℕ) × Opened (answers (suc i + j)) fd × (get_elem? more j ≡ some fd))
    → (j : ℕ) → j < suc n
    → (fd : ℕ) × Opened (answers (i + j)) fd × (get_elem? fds j ≡ some fd)
at_index answers n i fd more fds opened all later zero small = (
  fd,
  subst (λ (k : ℕ). Opened (answers k) fd) {x = i} {y = i + 0} (omega arith) opened,
  ap (λ (l : List ℕ). get_elem? l 0) (sym all),
)
at_index answers n i fd more fds opened all later (suc j) small =
    let (fd', opened', at) = later j (omega (arith, small)) in
    (
      fd',
      subst (λ (k : ℕ). Opened (answers k) fd') {x = suc i + j} {y = i + suc j} (omega arith)
          opened',
      ap (λ (l : List ℕ). get_elem? l (suc j)) (sym all) ∙ at,
    )

-- What a start that succeeds has asked of each port.
pub open_ports-serving :
    (n i : ℕ) (answers : ℕ → PortAnswers) (fds : List ℕ)
    → open_ports n answers i ≡ serving fds
    → (j : ℕ) → j < n
    → (fd : ℕ) × Opened (answers (i + j)) fd × (get_elem? fds j ≡ some fd)
unfolding open_ports
open_ports-serving zero i answers fds e j small = absurd (omega (arith, small))
open_ports-serving (suc n) i answers fds e j small =
    let (fd, more, opened, rest, all) =
      open_by_serving 2 3 (answers i).socket (answers i).binds (answers i).listens
        (open_ports n answers (suc i)) fds e in
    at_index answers n i fd more fds opened all (open_ports-serving n (suc i) answers more rest) j
      small

pub server_main-serving :
    (argc : ℕ) (answers : ℕ → PortAnswers) (fds : List ℕ)
    → server_main argc answers ≡ serving fds
    → (j : ℕ) → j < listeners_size
    → (fd : ℕ) × Opened (answers j) fd × (get_elem? fds j ≡ some fd)
unfolding server_main
server_main-serving zero answers fds e = absurd (cc)
server_main-serving (suc zero) answers fds e = absurd (cc)
server_main-serving (suc (suc n)) answers fds e = λ j small.
    let (fd, opened, at) = open_ports-serving listeners_size 0 answers fds e j small in
    (fd, subst (λ (k : ℕ). Opened (answers k) fd) {x = 0 + j} {y = j} (omega arith) opened, at)

module _ {Socket : Type 0} (recv : Socket → RecvOutcome × Socket) where
  fails_drained :
      (s : Socket) (fuel : ℕ)
      → (recv s).0 ≡ failed
      → drain server_step recv (suc fuel) s
        ≡ ok (record { socket = (recv s).1; messages = []; closes = true })
  unfolding drain server_step
  fails_drained s fuel fails =
      ap
        (λ (o : RecvOutcome).
          drain_turn server_step recv (server_step o) (drain server_step recv fuel (recv s).1)
            (recv s).1)
        fails

  -- When tcp_Server has started with distinct listeners, an event of a listener from the 100th on is taken
  -- for a client's: recv fails on a socket that listens, and the server closes the listener.
  pub serve_event-closes_listener :
      (argc : ℕ) (answers : ℕ → PortAnswers) (sockfds : List ℕ) (i fuel : ℕ) (e : TcpEvent Socket)
      (st : TcpServer)
      → server_main argc answers ≡ serving sockfds
      → max_port ≤ i
      → i < listeners_size
      → (answers i).socket ≡ some e.fd
      → occurrences e.fd sockfds ≡ 1
      → (recv e.socket).0 ≡ failed
      → serve_event recv (suc fuel) sockfds e st
        ≡ ok (watch_fd e.fd unwatched (print_messages e.fd [] st))
  unfolding serve_event serve_as serve_client end_client
  serve_event-closes_listener argc answers sockfds i fuel e st start far small fd once fails =
      let (fd', opened, at) = server_main-serving argc answers sockfds start i small in
      let at' = at ∙ sym (opened.0) ∙ fd in
      ap (λ (k : ℕ). serve_as recv (suc fuel) k e st)
        (islistenfd_beyond e.fd i sockfds at' far once)
      ∙ ap
          (λ (r : Run (Drained Socket)).
            r >>= λ d. ok (end_client e.fd d.closes (print_messages e.fd d.messages st)))
          (fails_drained e.socket fuel fails)
