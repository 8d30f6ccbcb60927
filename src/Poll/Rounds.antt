-- ===== src/Poll/Rounds.antt =====
-- The rounds of the poll server, client by client.
use voice.Prelude.{
  ℕ, zero, suc, ◌+◌, ◌-◌, ◌≤◌, ◌<◌, ◌≡◌, ◌≢◌, refl, ap, sym, subst, ◌∙◌, ◌⊎◌, inl, inr, Bool, true,
  false, Option, some, List, [], ◌∷◌, ◌++◌, length, take, ◌==◌, ==_iff, ==_refl, ==_ne, ltb, lt→ltb,
  ltb→lt, if◌then◌else◌, Bool-cases, arith,
}
use voice.Prelude.Int.{negsuc}
use voice.Prelude.Text.{has_nul}
use voice.Prelude.Run.{Run, ok, ◌>>=◌, Ensures, Ensures-ok}
use voice.Poll.{
  poll_run, poll_size, PollSlot, PollSlots, put_slot, PollServer, PollRecv, came, recv_error,
  PollRound, new_slot, larger, poll_accept, served_slot, poll_printable, serve_slot, scan_one, scan,
  accept_part, poll_round, zero_slot, poll_start,
}

abbrev pub bytes_of : PollRecv → List ℕ
bytes_of (came bytes) = bytes
bytes_of recv_error = []

-- What a client that was received from is to be left as: the end closes its entry; else its bytes, up to
-- a buffer full, have come in, and as many of them as send takes have gone back.
abbrev pub received_slot : List ℕ → ℕ → PollSlot → PollSlot
received_slot [] taken c = record {
  fd = negsuc 0;
  polls = false;
  came_in = c.came_in;
  gone_out = c.gone_out;
}
received_slot (x ∷ bytes) taken c = record {
  fd = c.fd;
  polls = c.polls;
  came_in = c.came_in ++ take 1024 (x ∷ bytes);
  gone_out = c.gone_out ++ take taken (take 1024 (x ∷ bytes));
}

-- What a round is to come to for one client.
abbrev pub own_round : PollRound → ℕ → PollSlot → PollSlot
own_round r fd c = if r.ready fd then received_slot (bytes_of (r.received fd)) (r.taken fd) c else c

-- recv does not fail on a descriptor that is ready, and fills the buffer only with a NUL among the bytes.
abbrev pub Receives : PollRound → Type 0
Receives r =
    (fd : ℕ)
    → r.ready fd ≡ true
    → (bytes : List ℕ) × (r.received fd ≡ came bytes)
      × ((length bytes < 1024) ⊎ (has_nul (take 1024 bytes) ≡ true))

put_slot_at : (t : PollSlots) (i : ℕ) (c : PollSlot) → put_slot t i c i ≡ c
put_slot_at t i c = rw (==_refl i)

put_slot_other : (t : PollSlots) (i k : ℕ) (c : PollSlot) → k ≢ i → put_slot t i c k ≡ t k
put_slot_other t i k c ne = rw (==_ne k i ne)

served_slot-received :
    (bytes : List ℕ) (taken : ℕ) (c : PollSlot)
    → served_slot bytes taken c ≡ received_slot bytes taken c
unfolding served_slot
served_slot-received [] taken c = refl
served_slot-received (x ∷ bytes) taken c = refl

serve_slot-received :
    (bytes : List ℕ) (taken : ℕ) (c : PollSlot)
    → (length bytes < 1024) ⊎ (has_nul (take 1024 bytes) ≡ true)
    → serve_slot (came bytes) taken c ≡ ok (received_slot bytes taken c)
unfolding serve_slot poll_printable
serve_slot-received bytes taken c (inl short) =
    rw (lt→ltb (length bytes) 1024 short) (ap ok (served_slot-received bytes taken c))
serve_slot-received bytes taken c (inr nul) = elim (Bool-cases (ltb (length bytes) 1024)) [
  | inl e ↦ rw e (ap ok (served_slot-received bytes taken c))
  | inr e ↦ rw (e, nul) (ap ok (served_slot-received bytes taken c))
]

module _ (r : PollRound) (receives : Receives r) where
  -- One entry.
  pub record ScansOne (i : ℕ) (slots : PollSlots) (run : Run PollSlots) : Type 0 where
    pub after : PollSlots
    pub done : run ≡ ok after
    pub own : after i ≡ own_round r i (slots i)
    pub others : (k : ℕ) → k ≢ i → after k ≡ slots k

  scan_one-ScansOne :
      (i : ℕ) (slots : PollSlots) (b : Bool)
      → r.ready i ≡ b
      → ScansOne i slots (scan_one b r i slots)
  unfolding scan_one
  scan_one-ScansOne i slots false q = record {
    after = slots;
    done = refl;
    own = rw (q) refl;
    others = λ k ne. refl;
  }
  scan_one-ScansOne i slots true q =
      let (bytes, got, prints) = receives i q in
      let c = received_slot bytes (r.taken i) (slots i) in
      record {
        after = put_slot slots i c;
        done = rw (got) (
            ap (λ (run : Run PollSlot). run >>= λ c'. ok (put_slot slots i c'))
              (serve_slot-received bytes (r.taken i) (slots i) prints));
        own = put_slot_at slots i c ∙ rw (q, got) refl;
        others = λ k ne. put_slot_other slots i k c ne;
      }

  -- The loop.
  pub record Scans (n i : ℕ) (slots : PollSlots) (run : Run PollSlots) : Type 0 where
    pub after : PollSlots
    pub done : run ≡ ok after
    pub within : (k : ℕ) → i ≤ k → k < i + n → after k ≡ own_round r k (slots k)
    pub below : (k : ℕ) → k < i → after k ≡ slots k
    pub above : (k : ℕ) → i + n ≤ k → after k ≡ slots k

  scan-Scans : (n i : ℕ) (slots : PollSlots) → Scans n i slots (scan n r i slots)
  unfolding scan
  scan-Scans zero i slots = record {
    after = slots;
    done = refl;
    within = λ k h h'. absurd (omega (arith, h, h'));
    below = λ k h. refl;
    above = λ k h. refl;
  }
  scan-Scans (suc n) i slots =
      let first = scan_one-ScansOne i slots (r.ready i) refl in
      let rest = scan-Scans n (suc i) first.after in
      record {
        after = rest.after;
        done =
            ap (λ (run : Run PollSlots). run >>= λ slots'. scan n r (suc i) slots') first.done
            ∙ rest.done;
        within = λ k h h'. elim (Bool-cases (k == i)) [
          | inl e ↦
              let same = (==_iff k i).0 e in
              rest.below k (omega (arith, same))
              ∙ subst (λ (j : ℕ). first.after j ≡ own_round r j (slots j)) (sym same) first.own
          | inr e ↦
              let ne : k ≢ i = ground (arith, e) in
              rest.within k (omega (arith, h, ne)) (omega (arith, h'))
              ∙ ap (own_round r k) (first.others k ne)
        ];
        below = λ k h. rest.below k (omega (arith, h)) ∙ first.others k (λ q. omega (arith, h, q));
        above = λ k h. rest.above k (omega (arith, h)) ∙ first.others k (λ q. omega (arith, h, q));
      }

-- What the loop keeps: what is polled lies from the listener to `maxfd`, within the array.
pub record IsPoll (s : PollServer) : Type 0 where
  pub small : s.maxfd < poll_size
  pub low : s.sockfd ≤ s.maxfd
  pub inside : (fd : ℕ) → (s.slots fd).polls ≡ true → (s.sockfd ≤ fd) × (fd ≤ s.maxfd)

-- What poll, accept and recv are documented to answer, with descriptors above the listener's that fit
-- the array, no error of accept or recv, and no buffer filled without a NUL.
pub record Documented (r : PollRound) (s : PollServer) : Type 0 where
  pub accepts :
      r.ready s.sockfd ≡ true
      → (c : ℕ) × (r.accepted ≡ some c)
        × (s.sockfd < c)
        × (c < poll_size)
        × ((s.slots c).polls ≡ false)
  pub receives : Receives r

-- The part of a round before the scan.
pub record Accepted (s : PollServer) (run : Run PollServer) : Type 0 where
  pub after : PollServer
  pub done : run ≡ ok after
  pub keeps : IsPoll after
  pub same_listener : after.sockfd ≡ s.sockfd
  pub same_slots :
      (fd : ℕ) → (s.slots fd).polls ≡ true → (fd ≤ after.maxfd) × (after.slots fd ≡ s.slots fd)

module _ (s : PollServer) (h : IsPoll s) where
  larger_bounds :
      (a b : ℕ) → (a ≤ larger a b) × (b ≤ larger a b) × ((larger a b ≡ a) ⊎ (larger a b ≡ b))
  larger_bounds a b = elim (Bool-cases (ltb b a)) [
    | inl e ↦ let lt = ltb→lt b a e in rw (e) ((omega arith), (omega (arith, lt)), inl refl)
    | inr e ↦ rw (e) ((ground (arith, e)), (omega arith), inr refl)
  ]

  poll_accept-Accepted :
      (c : ℕ)
      → s.sockfd < c
      → c < poll_size
      → (s.slots c).polls ≡ false
      → Accepted s (poll_accept (some c) s)
  unfolding poll_accept
  poll_accept-Accepted c above fits free =
      let (c_fits, max_fits, which) = larger_bounds c s.maxfd in
      let low = h.low in
      let small = h.small in
      record {
        after = record s { slots = put_slot s.slots c (new_slot c); maxfd = larger c s.maxfd };
        done = rw (lt→ltb c poll_size fits) refl;
        keeps = record {
          small = elim which [ inl q ↦ omega (arith, q, fits) | inr q ↦ omega (arith, q, small) ];
          low = omega (arith, low, max_fits);
          inside = λ fd. elim (Bool-cases (fd == c)) [
            | inl e ↦ λ polled.
                let same = (==_iff fd c).0 e in
                (omega (arith, same, above), omega (arith, same, c_fits))
            | inr e ↦ λ polled.
                let (from, to) = h.inside fd (
                  subst (λ (b : Bool). (if b then new_slot c else s.slots fd).polls ≡ true) e
                    polled) in
                (from, omega (arith, to, max_fits))
          ];
        };
        same_listener = refl;
        same_slots = λ fd polled.
            let (from, to) = h.inside fd polled in
            (
              omega (arith, to, max_fits),
              put_slot_other s.slots c fd (new_slot c)
                  (λ q. let off = subst (λ (k : ℕ). (s.slots k).polls ≡ false) (sym q) free in cc),
            );
      }

  accept_part-Accepted :
      (r : PollRound) (b : Bool)
      → Documented r s
      → r.ready s.sockfd ≡ b
      → Accepted s (accept_part b r s)
  unfolding accept_part
  accept_part-Accepted r false doc q = record {
    after = s;
    done = refl;
    keeps = h;
    same_listener = refl;
    same_slots = λ fd polled. ((h.inside fd polled).1, refl);
  }
  accept_part-Accepted r true doc q =
      let (c, e, above, fits, free) = doc.accepts q in
      subst (λ (a : Option ℕ). Accepted s (poll_accept a s)) (sym e)
        (poll_accept-Accepted c above fits free)

  -- A round does not fault and keeps what is polled between the listener, which stays, and `maxfd`, if accept
  -- gives a free descriptor above the listener's that fits the array, recv does not fail, and the bytes of
  -- a recv leave room for a NUL or have one: of each client that is polled and ready the first 1024 bytes
  -- are sent back as far as send takes them, or its entry is closed at the end, and no other client that is
  -- polled changes.
  pub poll_round-serves :
      (r : PollRound)
      → Documented r s
      → (s' : PollServer) × (poll_round r s ≡ ok s')
        × IsPoll s'
        × (s'.sockfd ≡ s.sockfd)
        × ((fd : ℕ)
            → fd ≢ s.sockfd
            → (s.slots fd).polls ≡ true
            → s'.slots fd ≡ own_round r fd (s.slots fd))
  unfolding poll_round
  poll_round-serves r doc =
      let first = accept_part-Accepted r (r.ready s.sockfd) doc refl in
      let s1 = first.after in
      let low = first.keeps.low in
      let scanned = scan-Scans r doc.receives (s1.maxfd - s1.sockfd) (suc s1.sockfd) s1.slots in
      (
        record s1 { slots = scanned.after },
        ap
              (λ (run : Run PollServer). run >>= λ s'.
                scan (s'.maxfd - s'.sockfd) r (suc s'.sockfd) s'.slots >>= λ slots.
                ok (record s' { slots = slots }))
              first.done
            ∙ ap (λ (run : Run PollSlots). run >>= λ slots. ok (record s1 { slots = slots }))
                scanned.done,
        record {
          small = first.keeps.small;
          low = first.keeps.low;
          inside = λ fd polled. elim (Bool-cases (ltb s1.sockfd fd)) [
            | inl e ↦
                let above = ltb→lt s1.sockfd fd e in
                elim (Bool-cases (ltb s1.maxfd fd)) [
                  | inl e' ↦
                      let beyond = ltb→lt s1.maxfd fd e' in
                      first.keeps.inside fd (
                        subst (λ (c : PollSlot). c.polls ≡ true)
                          (scanned.above fd (omega (arith, low, beyond))) polled)
                  | inr e' ↦ (omega (arith, above), ground (arith, e'))
                ]
            | inr e ↦ first.keeps.inside fd (
                subst (λ (c : PollSlot). c.polls ≡ true) (scanned.below fd (ground (arith, e)))
                  polled)
          ];
        },
        first.same_listener,
        λ fd other polled.
            let (to, same) = first.same_slots fd polled in
            let (from, to') = h.inside fd polled in
            let listener = first.same_listener in
            scanned.within fd (omega (arith, from, other, listener)) (omega (arith, to, low))
            ∙ ap (own_round r fd) same,
      )

pub poll_start-IsPoll : (sockfd : ℕ) → sockfd < poll_size → IsPoll (poll_start sockfd)
unfolding poll_start
poll_start-IsPoll sockfd fits = record {
  small = fits;
  low = omega arith;
  inside = λ fd. elim (Bool-cases (fd == sockfd)) [
    | inl e ↦
        λ polled. let same = (==_iff fd sockfd).0 e in (omega (arith, same), omega (arith, same))
    | inr e ↦ λ polled.
        let off =
          subst (λ (b : Bool). (if b then new_slot sockfd else zero_slot).polls ≡ true) e polled in
        absurd (cc)
  ];
}

-- Each round's calls answer as documented in the state that the rounds before it leave.
abbrev pub AllDocumented : List PollRound → PollServer → Type 0
AllDocumented [] s = Unit
AllDocumented (r ∷ rounds) s = Documented r s × Ensures (AllDocumented rounds) (poll_round r s)

pub poll_run-IsPoll :
    (rounds : List PollRound) (s : PollServer)
    → IsPoll s
    → AllDocumented rounds s
    → (s' : PollServer) × (poll_run rounds s ≡ ok s') × IsPoll s'
unfolding poll_run
poll_run-IsPoll [] s h doc = (s, refl, h)
poll_run-IsPoll (r ∷ rounds) s h (doc, later) =
    let (s1, one, h1, same, each) = poll_round-serves s h r doc in
    let (s2, more, h2) =
      poll_run-IsPoll rounds s1 h1 (Ensures-ok (AllDocumented rounds) (poll_round r s) later one) in
    (s2, ap (λ (run : Run PollServer). run >>= λ s'. poll_run rounds s') one ∙ more, h2)
