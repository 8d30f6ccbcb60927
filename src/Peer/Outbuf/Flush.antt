-- ===== src/Peer/Outbuf/Flush.antt =====
-- outbuf_flush_fd sends what waits, from its front.
use voice.Prelude.{
  ℕ, suc, ◌+◌, ◌≤◌, ◌≡◌, ◌⊎◌, refl, ap, sym, ◌∙◌, false, List, [], ◌∷◌, ◌++◌, arith, ltb,
  Bool-cases, inl, inr, length, length-append, take, drop, take-append-drop, take-all, append_assoc,
  append-nil,
}
use voice.Prelude.Int.{ℤ, pos, negsuc}
use voice.Prelude.Run.{Run, ok}
use voice.Prelude.Memory.{}
use voice.Peer.Outbuf.{Outbuf, Sent, took, interrupted, broken, flushed, outbuf_flush_fd}
use voice.Peer.Outbuf.Pending.{Holds, nil_of_length, read-pending}

-- What a flush leaves: what was sent and what waits make up what waited before, and nothing waits
-- after the code 0.
pub record Flushed (pending : List ℕ) (r : Run (ℤ × List ℕ × Outbuf)) : Type 0 where
  pub code : ℤ
  pub sent : List ℕ
  pub waits : List ℕ
  pub buffer : Outbuf
  pub done : r ≡ ok (code, sent, buffer)
  pub holds : Holds buffer waits
  pub split : pending ≡ sent ++ waits
  pub outcome : ((code ≡ pos 0) × (waits ≡ [])) ⊎ ((code ≡ pos 1) ⊎ (code ≡ negsuc 0))

cleared : (b : Outbuf) → Holds (record b { len = 0; off = 0 }) []
cleared b = record { gone = []; room = b.bytes; block = refl; start = refl; end = refl }

all_sent :
    (b : Outbuf) (pending : List ℕ)
    → Holds b pending
    → ltb b.off b.len ≡ false
    → Flushed pending (flushed b)
all_sent b pending v e = record {
  code = pos 0;
  sent = [];
  waits = [];
  buffer = _;
  done = refl;
  holds = cleared b;
  split = nil_of_length pending (ground (arith, v.start, v.end, e));
  outcome = inl (refl, refl);
}

-- The kernel took the front of what waits.
advance :
    (b : Outbuf) (pending sent waits : List ℕ)
    → Holds b pending
    → pending ≡ sent ++ waits
    → Holds (record b { off = b.off + length sent }) waits
advance b pending sent waits v e = record {
  gone = v.gone ++ sent;
  room = v.room;
  block =
      v.block
      ∙ ap (λ t. v.gone ++ (t ++ v.room)) e
      ∙ ap (λ t. v.gone ++ t) (append_assoc sent waits v.room)
      ∙ sym (append_assoc v.gone sent (waits ++ v.room));
  start = omega (arith, v.start, length-append v.gone sent);
  end = omega (arith, v.end, length-append v.gone sent, length-append sent waits, ap length e);
}

-- outbuf_flush_fd ends whatever `send` answers, stays in its block, and sends what waits from its front.
pub outbuf_flush_fd-Flushed :
    (answers : List Sent) (b : Outbuf) (pending : List ℕ)
    → Holds b pending
    → Flushed pending (outbuf_flush_fd answers b)
unfolding outbuf_flush_fd
outbuf_flush_fd-Flushed [] b pending v = elim (Bool-cases (ltb b.off b.len)) [
  | inl e ↦ rw (e) (record {
    code = pos 1;
    sent = [];
    waits = pending;
    buffer = b;
    done = refl;
    holds = v;
    split = refl;
    outcome = inr (inl refl);
  })
  | inr e ↦ rw (e) (all_sent b pending v e)
]
outbuf_flush_fd-Flushed (took n ∷ answers) b pending v = elim (Bool-cases (ltb b.off b.len)) [
  | inl e ↦
      let rest =
        outbuf_flush_fd-Flushed answers (record b { off = b.off + length (take (suc n) pending) })
          (drop (suc n) pending)
          (advance b pending (take (suc n) pending) (drop (suc n) pending) v
            (sym (take-append-drop (suc n) pending))) in
      record {
        code = rest.code;
        sent = take (suc n) pending ++ rest.sent;
        waits = rest.waits;
        buffer = rest.buffer;
        done = rw (outbuf_flush_fd, e, read-pending b pending v, rest.done);
        holds = rest.holds;
        split =
            sym (take-append-drop (suc n) pending)
            ∙ ap (λ t. take (suc n) pending ++ t) rest.split
            ∙ sym (append_assoc (take (suc n) pending) rest.sent rest.waits);
        outcome = rest.outcome;
      }
  | inr e ↦ rw (outbuf_flush_fd, e) (all_sent b pending v e)
]
outbuf_flush_fd-Flushed (interrupted ∷ answers) b pending v = elim (Bool-cases (ltb b.off b.len)) [
  | inl e ↦ rw (outbuf_flush_fd, e) (outbuf_flush_fd-Flushed answers b pending v)
  | inr e ↦ rw (outbuf_flush_fd, e) (all_sent b pending v e)
]
outbuf_flush_fd-Flushed (broken ∷ answers) b pending v = elim (Bool-cases (ltb b.off b.len)) [
  | inl e ↦ rw (e) (record {
    code = negsuc 0;
    sent = [];
    waits = pending;
    buffer = b;
    done = refl;
    holds = v;
    split = refl;
    outcome = inr (inr refl);
  })
  | inr e ↦ rw (e) (all_sent b pending v e)
]

-- Nothing waits any more.
then_flushed :
    (answers : List Sent) (b : Outbuf)
    → ltb b.off b.len ≡ false
    → outbuf_flush_fd answers b ≡ flushed b
unfolding outbuf_flush_fd
then_flushed [] b e = rw (outbuf_flush_fd, e)
then_flushed (took n ∷ answers) b e = rw (outbuf_flush_fd, e)
then_flushed (interrupted ∷ answers) b e = rw (outbuf_flush_fd, e)
then_flushed (broken ∷ answers) b e = rw (outbuf_flush_fd, e)

-- Where `send` takes all that waits, the flush is over after one call, and the buffer is empty.
pub outbuf_flush_fd-all :
    (n : ℕ) (answers : List Sent) (b : Outbuf) (pending : List ℕ)
    → Holds b pending
    → length pending ≤ suc n
    → outbuf_flush_fd (took n ∷ answers) b ≡ ok (pos 0, pending, record b { len = 0; off = 0 })
unfolding outbuf_flush_fd
outbuf_flush_fd-all n answers b pending v room = elim (Bool-cases (ltb b.off b.len)) [
  | inl e ↦
      let end =
        then_flushed answers (record b { off = b.off + length pending })
          (ground (arith, v.start, v.end)) in
      rw (
        outbuf_flush_fd,
        e,
        read-pending b pending v,
        take-all (suc n) pending room,
        end,
        append-nil pending,
      )
  | inr e ↦
      let none_left = nil_of_length pending (ground (arith, v.start, v.end, e)) in
      rw (outbuf_flush_fd, e, none_left)
]
