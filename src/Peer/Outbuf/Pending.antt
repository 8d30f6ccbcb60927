-- ===== src/Peer/Outbuf/Pending.antt =====
-- The buffer as the sequence of the bytes that wait in it.
use voice.Prelude.{
  ℕ, ◌+◌, ◌-◌, ◌≡◌, refl, ap, sym, subst, ◌∙◌, true, false, ◌&&◌, some, List, [], ◌∷◌, ◌++◌, arith,
  ◌==◌, ltb, leb, if◌then◌else◌, Bool-cases, inl, inr, length, length-append, take, drop, replicate,
  length-replicate, length-take, take-append, append_assoc, append-nil,
}
use voice.Prelude.Int.{pos, negsuc}
use voice.Prelude.Run.{Run, ok}
use voice.Prelude.Memory.{
  realloc, read_bytes, write_bytes, read_bytes-append, write_bytes-front, write_bytes-append,
}
use voice.Peer.Outbuf.{Outbuf, outbuf_init, outbuf_empty, outbuf_compact, extend, outbuf_append}

-- The block holds what was sent, what waits, and room behind; the two numbers say where they part.
pub record Holds (b : Outbuf) (pending : List ℕ) : Type 0 where
  pub gone : List ℕ
  pub room : List ℕ
  pub block : b.bytes ≡ gone ++ (pending ++ room)
  pub start : b.off ≡ length gone
  pub end : b.len ≡ length gone + length pending

pub init-Holds : Holds outbuf_init []
unfolding outbuf_init
init-Holds = record { gone = []; room = []; block = refl; start = refl; end = refl }

pub nil_of_length : (xs : List ℕ) → length xs ≡ 0 → xs ≡ []
nil_of_length [] e = refl
nil_of_length (x ∷ xs) e = absurd (omega (arith, e))

pub outbuf_empty-nil :
    (b : Outbuf) (pending : List ℕ) → Holds b pending → outbuf_empty b ≡ true → pending ≡ []
unfolding outbuf_empty
outbuf_empty-nil b pending v e = nil_of_length pending (ground (arith, v.start, v.end, e))

-- The bytes that wait, where the code reads them.
pub read-pending :
    (b : Outbuf) (pending : List ℕ)
    → Holds b pending
    → read_bytes b.bytes b.off (b.len - b.off) ≡ some pending
read-pending b pending v = rw (size, v.block, v.start) (read_bytes-append v.gone pending v.room)
  where
    size : b.len - b.off ≡ length pending
    size = omega (arith, v.start, v.end)

-- What a run leaves: a buffer, and what waits in it.
pub record Left {ℓ} {A : Type ℓ} (out : Outbuf → A) (pending : List ℕ) (r : Run A) : Type ℓ where
  pub buffer : Outbuf
  pub done : r ≡ ok (out buffer)
  pub holds : Holds buffer pending

compact_moves :
    (b : Outbuf) (pending : List ℕ)
    → Holds b pending
    → leb b.len b.off ≡ false
    → (b.off == 0) ≡ false
    → Left (λ b'. b') pending (outbuf_compact b)
unfolding outbuf_compact
compact_moves b pending v some_left moved = record {
  buffer = record {
    bytes = pending ++ drop (length pending) b.bytes;
    len = b.len - b.off;
    off = 0;
  };
  done = rw (
    moved,
    some_left,
    read-pending b pending v,
    write_bytes-front b.bytes pending (
        omega (
          arith,
          ap length v.block,
          length-append v.gone (pending ++ v.room),
          length-append pending v.room,
        )),
  );
  holds = record {
    gone = [];
    room = drop (length pending) b.bytes;
    block = refl;
    start = refl;
    end = omega (arith, v.start, v.end);
  };
}

-- Compaction keeps what waits.
outbuf_compact-Holds :
    (b : Outbuf) (pending : List ℕ) → Holds b pending → Left (λ b'. b') pending (outbuf_compact b)
unfolding outbuf_compact
outbuf_compact-Holds b pending v = elim (Bool-cases (b.off == 0)) [
  | inl e ↦ record { buffer = b; done = rw (e); holds = v }
  | inr e ↦ elim (Bool-cases (leb b.len b.off)) [
    | inl all ↦ record {
      buffer = record b { len = 0; off = 0 };
      done = rw (e, all);
      holds = record {
        gone = [];
        room = b.bytes;
        block = rw (nil_of_length pending (ground (arith, v.start, v.end, all))) refl;
        start = refl;
        end = ground (arith, v.start, v.end, all);
      };
    }
    | inr some_left ↦ compact_moves b pending v some_left e
  ]
]

-- Behind the compaction the new bytes are put after those that wait.
extend-Holds :
    (b : Outbuf) (pending p : List ℕ)
    → Holds b pending
    → Left (λ b'. (pos 0, b')) (pending ++ p) (extend true b p)
unfolding extend realloc
extend-Holds b pending p v = record {
  buffer = record b {
    bytes = (v.gone ++ pending) ++ (p ++ drop (length p) fresh);
    len = b.len + length p;
  };
  done = rw (grown, written);
  holds = record {
    gone = v.gone;
    room = drop (length p) fresh;
    block =
        append_assoc v.gone pending (p ++ drop (length p) fresh)
        ∙ ap (λ t. v.gone ++ t) (sym (append_assoc pending p (drop (length p) fresh)));
    start = v.start;
    end = omega (arith, v.end, length-append pending p);
  };
}
  where
    fresh : List ℕ
    fresh = take (length p) (v.room ++ replicate (b.len + length p) 0)

    length-fresh : length fresh ≡ length p
    length-fresh = omega (
      arith,
      length-take (length p) (v.room ++ replicate (b.len + length p) 0),
      length-append v.room (replicate (b.len + length p) 0),
      length-replicate {A = ℕ} (b.len + length p) 0,
    )

    used : b.len ≡ length (v.gone ++ pending)
    used = omega (arith, v.end, length-append v.gone pending)

    written :
        write_bytes ((v.gone ++ pending) ++ fresh) b.len p
        ≡ some ((v.gone ++ pending) ++ (p ++ drop (length p) fresh))
    written =
        subst
          (λ (n : ℕ).
            write_bytes ((v.gone ++ pending) ++ fresh) n p
            ≡ some ((v.gone ++ pending) ++ (p ++ drop (length p) fresh)))
          (sym used) (write_bytes-append (v.gone ++ pending) fresh p (omega (arith, length-fresh)))

    zeros : List ℕ
    zeros = replicate (b.len + length p) 0

    regroup : b.bytes ++ zeros ≡ (v.gone ++ pending) ++ (v.room ++ zeros)
    regroup =
        ap (λ t. t ++ zeros) (v.block ∙ sym (append_assoc v.gone pending v.room))
        ∙ append_assoc (v.gone ++ pending) v.room zeros

    grown : take (b.len + length p) (b.bytes ++ zeros) ≡ (v.gone ++ pending) ++ fresh
    grown =
        ap (take (b.len + length p)) regroup
        ∙ ap (λ (k : ℕ). take k ((v.gone ++ pending) ++ (v.room ++ zeros))) {x = b.len + length p}
            {y = length (v.gone ++ pending) + length p} (omega (arith, used))
        ∙ take-append (length p) (v.gone ++ pending) (v.room ++ zeros)

-- The buffer behind the test of outbuf_append.
made_room :
    (b : Outbuf) (pending : List ℕ)
    → Holds b pending
    → Left
        (λ b'. b')
        pending
        (if ltb 0 b.off && ltb (b.len - b.off) b.len then outbuf_compact b else ok b)
made_room b pending v = elim (Bool-cases (ltb 0 b.off && ltb (b.len - b.off) b.len)) [
  | inl e ↦ rw (e) (outbuf_compact-Holds b pending v)
  | inr e ↦ rw (e) (record { buffer = b; done = refl; holds = v })
]

-- outbuf_append puts the new bytes behind those that wait, and stays in the block it is given.
pub outbuf_append-Holds :
    (b : Outbuf) (pending p : List ℕ)
    → Holds b pending
    → Left (λ b'. (pos 0, b')) (pending ++ p) (outbuf_append true b p)
unfolding outbuf_append
outbuf_append-Holds b pending [] v = record {
  buffer = b;
  done = refl;
  holds = subst (Holds b) (sym (append-nil pending)) v;
}
outbuf_append-Holds b pending (c ∷ p) v =
    let keep = made_room b pending v in
    let put = extend-Holds keep.buffer pending (c ∷ p) keep.holds in
    record { buffer = put.buffer; done = rw (keep.done) put.done; holds = put.holds }

-- Without memory it answers -1, and what waits is kept.
pub outbuf_append-no_memory :
    (b : Outbuf) (pending : List ℕ) (c : ℕ) (p : List ℕ)
    → Holds b pending
    → Left (λ b'. (negsuc 0, b')) pending (outbuf_append false b (c ∷ p))
unfolding outbuf_append extend
outbuf_append-no_memory b pending c p v =
    let keep = made_room b pending v in
    record { buffer = keep.buffer; done = rw (keep.done); holds = keep.holds }
