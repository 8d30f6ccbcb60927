-- ===== src/TcpServer/Drain.antt =====
-- The receiving loops of the TCP servers, over sockets that behave as recv documents.
use voice.Prelude.{
  ℕ, zero, suc, ◌<◌, ◌≡◌, refl, ap, sym, subst, ◌∙◌, ◌⊎◌, inl, inr, Bool, true, false, List, [],
  ◌∷◌, ◌++◌, append_assoc, arith,
}
use voice.Prelude.Run.{Run, ok, ◌>>=◌}
use voice.TcpServer.{
  RecvOutcome, came, peer_closed, would_block, interrupted, failed, LoopStep, prints, again, leaves,
  server_step, epoll_step, handler_step, Drained, drain, drain_turn,
}

abbrev pub flat : List (List ℕ) → List ℕ
flat [] = []
flat (m ∷ ms) = m ++ flat ms

abbrev pub text_of : RecvOutcome → List ℕ
text_of (came bytes) = bytes
text_of peer_closed = []
text_of would_block = []
text_of interrupted = []
text_of failed = []

abbrev pub message_of : LoopStep → List ℕ
message_of (prints bytes) = bytes
message_of again = []
message_of (leaves closes) = []

-- What the answer 0 and EAGAIN say of the bytes that have come.
abbrev pub IsQuiet : RecvOutcome → Type 0
IsQuiet (came bytes) = ⊥
IsQuiet peer_closed = Unit
IsQuiet would_block = Unit
IsQuiet interrupted = ⊥
IsQuiet failed = ⊥

abbrev pub GoesOn : LoopStep → Type 0
GoesOn (prints bytes) = Unit
GoesOn again = Unit
GoesOn (leaves closes) = ⊥

-- `queue` is what has come on a socket and has not been read; recv takes its front, and answers 0 or
-- EAGAIN when there is nothing.
pub record Receives {Socket : Type 0} (recv : Socket → RecvOutcome × Socket)
    (queue : Socket → List ℕ) : Type 0 where
  pub takes : (s : Socket) → queue s ≡ text_of (recv s).0 ++ queue (recv s).1
  pub empty : (s : Socket) → IsQuiet (recv s).0 → queue s ≡ []

-- The answers after which a loop goes on are as many as `left` says at most.
module _ {Socket : Type 0} (step : RecvOutcome → LoopStep) (recv : Socket → RecvOutcome × Socket)
    (left : Socket → ℕ) where
  abbrev pub Bounded : Type 0
  Bounded = (s : Socket) → GoesOn (step (recv s).0) → left (recv s).1 < left s

module _ {Socket : Type 0} (step : RecvOutcome → LoopStep) (recv : Socket → RecvOutcome × Socket)
    (queue : Socket → List ℕ) (left : Socket → ℕ) where
  -- How a loop ended: what was read, and the answer it ended on.
  pub record Reads (s : Socket) (r : Run (Drained Socket)) : Type 0 where
    pub d : Drained Socket
    pub done : r ≡ ok d
    pub read : queue s ≡ flat d.messages ++ queue d.socket
    pub at : Socket
    pub last : d.socket ≡ (recv at).1
    pub ended : step (recv at).0 ≡ leaves d.closes

  module _ (net : Receives recv queue) (bounded : Bounded step recv left)
      (faithful : (o : RecvOutcome) → message_of (step o) ≡ text_of o) where
    -- A turn after which the loop goes on.
    goes_on :
        (s : Socket) (n : LoopStep) (rest : Run (Drained Socket))
        → GoesOn n
        → text_of (recv s).0 ≡ message_of n
        → Reads (recv s).1 rest
        → Reads s (drain_turn step recv n rest (recv s).1)
    goes_on s (prints bytes) rest h says more = record {
      d = record more.d { messages = bytes ∷ more.d.messages };
      done =
          ap
            (λ (r : Run (Drained Socket)).
              r >>= λ d. ok (record d { messages = bytes ∷ d.messages }))
            more.done;
      read =
          net.takes s
          ∙ ap (λ (bs : List ℕ). bs ++ queue (recv s).1) says
          ∙ ap (λ (bs : List ℕ). bytes ++ bs) more.read
          ∙ sym (append_assoc bytes (flat more.d.messages) (queue more.d.socket));
      at = more.at;
      last = more.last;
      ended = more.ended;
    }
    goes_on s again rest h says more = record {
      d = more.d;
      done = more.done;
      read = net.takes s ∙ ap (λ (bs : List ℕ). bs ++ queue (recv s).1) says ∙ more.read;
      at = more.at;
      last = more.last;
      ended = more.ended;
    }
    goes_on s (leaves closes) rest h says more = absurd h

    turn-Reads :
        (s : Socket) (n : LoopStep) (rest : Run (Drained Socket))
        → step (recv s).0 ≡ n
        → (GoesOn n → Reads (recv s).1 rest)
        → Reads s (drain_turn step recv n rest (recv s).1)
    turn-Reads s (prints bytes) rest e more =
        goes_on s (prints bytes) rest tt (sym (faithful (recv s).0) ∙ ap message_of e) (more tt)
    turn-Reads s again rest e more =
        goes_on s again rest tt (sym (faithful (recv s).0) ∙ ap message_of e) (more tt)
    turn-Reads s (leaves closes) rest e more = record {
      d = record { socket = (recv s).1; messages = []; closes = closes };
      done = refl;
      read =
          net.takes s
          ∙ ap (λ (bs : List ℕ). bs ++ queue (recv s).1)
              (sym (faithful (recv s).0) ∙ ap message_of e);
      at = s;
      last = refl;
      ended = e;
    }

    pub drain-Reads : (fuel : ℕ) (s : Socket) → left s < fuel → Reads s (drain step recv fuel s)
    unfolding drain
    drain-Reads zero s enough = absurd (omega (arith, enough))
    drain-Reads (suc fuel) s enough =
        turn-Reads s (step (recv s).0) (drain step recv fuel (recv s).1) refl
          (λ h. let less = bounded s h in drain-Reads fuel (recv s).1 (omega (arith, enough, less)))

-- How a loop ends on an answer: nothing more has come, or recv answered an error and the connection is
-- closed.
abbrev pub EndsOn : RecvOutcome → Bool → Type 0
EndsOn o closes = (IsQuiet o × (text_of o ≡ [])) ⊎ ((IsQuiet o → ⊥) × (closes ≡ true))

closes_of : LoopStep → Bool
closes_of (prints bytes) = false
closes_of again = false
closes_of (leaves closes) = closes

-- A loop that prints what comes, and stops for one of the two reasons.
abbrev pub Loops : (RecvOutcome → LoopStep) → Type 0
Loops step =
    (o : RecvOutcome)
    → (message_of (step o) ≡ text_of o)
      × ((closes : Bool) → step o ≡ leaves closes → EndsOn o closes)

pub server_step-Loops : Loops server_step
unfolding server_step closes_of
server_step-Loops (came bytes) = (refl, λ closes q. absurd (subst GoesOn q tt))
server_step-Loops peer_closed = (refl, λ closes q. inl (tt, refl))
server_step-Loops would_block = (refl, λ closes q. inl (tt, refl))
server_step-Loops interrupted = (refl, λ closes q. absurd (subst GoesOn q tt))
server_step-Loops failed = (refl, λ closes q. inr (λ h. h, sym (ap closes_of q)))

pub epoll_step-Loops : Loops epoll_step
unfolding epoll_step closes_of
epoll_step-Loops (came bytes) = (refl, λ closes q. absurd (subst GoesOn q tt))
epoll_step-Loops peer_closed = (refl, λ closes q. inl (tt, refl))
epoll_step-Loops would_block = (refl, λ closes q. inl (tt, refl))
epoll_step-Loops interrupted = (refl, λ closes q. absurd (subst GoesOn q tt))
epoll_step-Loops failed = (refl, λ closes q. absurd (subst GoesOn q tt))

pub handler_step-Loops : Loops handler_step
unfolding handler_step closes_of
handler_step-Loops (came bytes) = (refl, λ closes q. absurd (subst GoesOn q tt))
handler_step-Loops peer_closed = (refl, λ closes q. inl (tt, refl))
handler_step-Loops would_block = (refl, λ closes q. inl (tt, refl))
handler_step-Loops interrupted = (refl, λ closes q. inr (λ h. h, sym (ap closes_of q)))
handler_step-Loops failed = (refl, λ closes q. inr (λ h. h, sym (ap closes_of q)))

module _ {Socket : Type 0} (step : RecvOutcome → LoopStep) (recv : Socket → RecvOutcome × Socket)
    (queue : Socket → List ℕ) (left : Socket → ℕ) (net : Receives recv queue) where
  -- All is read that had come; what is not was behind an error, on which the connection is closed.
  pub record ReadsAll (s : Socket) (r : Run (Drained Socket)) : Type 0 where
    pub d : Drained Socket
    pub done : r ≡ ok d
    pub read : queue s ≡ flat d.messages ++ queue d.socket
    pub all_or_error :
        (queue d.socket ≡ [])
        ⊎ ((at : Socket) × (IsQuiet (recv at).0 → ⊥)
            × (d.socket ≡ (recv at).1)
            × (d.closes ≡ true)
            × (step (recv at).0 ≡ leaves true))

  emptied :
      (at s : Socket)
      → IsQuiet (recv at).0
      → text_of (recv at).0 ≡ []
      → s ≡ (recv at).1
      → queue s ≡ []
  emptied at s quiet none_came last =
      ap queue last
      ∙ sym (net.takes at ∙ ap (λ (bs : List ℕ). bs ++ queue (recv at).1) none_came)
      ∙ net.empty at quiet

  pub drain-ReadsAll :
      Loops step
      → Bounded step recv left
      → (fuel : ℕ) (s : Socket) → left s < fuel
      → ReadsAll s (drain step recv fuel s)
  drain-ReadsAll loops bounded fuel s enough =
      let r = drain-Reads step recv queue left net bounded (λ o. (loops o).0) fuel s enough in
      record {
        d = r.d;
        done = r.done;
        read = r.read;
        all_or_error = elim ((loops (recv r.at).0).1 r.d.closes r.ended) [
          | inl (quiet, none_came) ↦ inl (emptied r.at r.d.socket quiet none_came r.last)
          | inr (error, closes) ↦ inr (r.at, error, r.last, closes, r.ended ∙ ap leaves closes)
        ];
      }
