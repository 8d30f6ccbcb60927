-- ===== src/Kcp/Order.antt =====
-- The replies of the KCP server, against what KCP has received.
use voice.Prelude.{
  ℕ, ◌+◌, ◌≤◌, ◌<◌, ◌≡◌, refl, ap, sym, subst, ◌∙◌, inl, inr, Bool, true, false, Option, none, some,
  List, [], ◌∷◌, ◌++◌, append_assoc, append-nil, length, length-take, take, ltb, ltb→lt, Bool-cases,
  if◌then◌else◌, arith,
}
use voice.Kcp.{
  recv_buf, KcpOps, Datagram, packet, empty, nothing, KcpWait, KcpServer, reply, take_input,
  updated, after_wait, goes_on, kcp_turn, kcp_loop,
}

-- What ikcp.c documents: `inbox` is the messages that are whole and not taken; `input` puts those that a
-- datagram completes behind it, and `recv` takes the first if the buffer has room for it.
pub record KcpLaws {Kcp : Type 0} (ops : KcpOps Kcp) (inbox : Kcp → List (List ℕ))
    (completes : List ℕ → Kcp → List (List ℕ)) : Type 0 where
  pub updates : (clock : ℕ) (k : Kcp) → inbox (ops.update clock k) ≡ inbox k
  pub flushes : (k : Kcp) → inbox (ops.flush k) ≡ inbox k
  pub sends : (bytes : List ℕ) (k : Kcp) → inbox (ops.send bytes k) ≡ inbox k
  pub inputs :
      (bytes : List ℕ) (k : Kcp) → inbox (ops.input bytes k).1 ≡ inbox k ++ completes bytes k
  pub takes_none : (n : ℕ) (k : Kcp) → inbox k ≡ [] → ops.recv n k ≡ (none, k)
  pub takes_long :
      (n : ℕ) (k : Kcp) (m : List ℕ) (ms : List (List ℕ))
      → inbox k ≡ m ∷ ms
      → n < length m
      → ops.recv n k ≡ (none, k)
  pub takes_first :
      (n : ℕ) (k : Kcp) (m : List ℕ) (ms : List (List ℕ))
      → inbox k ≡ m ∷ ms
      → length m ≤ n
      → (k' : Kcp) × (ops.recv n k ≡ (some m, k')) × (inbox k' ≡ ms)

module _ {Kcp : Type 0} (ops : KcpOps Kcp) (inbox : Kcp → List (List ℕ))
    (completes : List ℕ → Kcp → List (List ℕ)) (laws : KcpLaws ops inbox completes) where
  -- What has been replied to, with what waits.
  abbrev pub messages : KcpServer Kcp → List (List ℕ)
  messages s = s.replies ++ inbox s.kcp

  abbrev pub completed : Datagram → Kcp → List (List ℕ)
  completed (packet from byte bytes) k = completes (take recv_buf (byte ∷ bytes)) k
  completed (empty from) k = []
  completed nothing k = []

  -- What the datagrams of a run complete.
  abbrev pub all_completed : List KcpWait → KcpServer Kcp → List (List ℕ)
  all_completed [] s = []
  all_completed (w ∷ waits) s =
      completed w.datagram (ops.update w.clock s.kcp)
      ++ (if goes_on w.datagram then all_completed waits (kcp_turn ops w s) else [])

  replied :
      (n : ℕ) (k : Kcp) (s : KcpServer Kcp)
      → messages (reply ops (ops.recv n k) (record s { kcp = k })) ≡ s.replies ++ inbox k
  replied n k s = by_inbox (inbox k) refl
    where
      of_result :
          (r r' : Option (List ℕ) × Kcp)
          → r ≡ r'
          → messages (reply ops r (record s { kcp = k }))
            ≡ messages (reply ops r' (record s { kcp = k }))
      of_result r r' q =
          ap (λ (r : Option (List ℕ) × Kcp). messages (reply ops r (record s { kcp = k }))) q

      by_inbox :
          (ms : List (List ℕ))
          → inbox k ≡ ms
          → messages (reply ops (ops.recv n k) (record s { kcp = k })) ≡ s.replies ++ inbox k
      by_inbox [] e = of_result _ (none, k) (laws.takes_none n k e)
      by_inbox (m ∷ ms) e = elim (Bool-cases (ltb n (length m))) [
        | inl q ↦ of_result _ (none, k) (laws.takes_long n k m ms e (ltb→lt n (length m) q))
        | inr q ↦
            let (k', run, rest) = laws.takes_first n k m ms e (ground (arith, q)) in
            of_result _ (some m, k') run
            ∙ ap (λ (l : List (List ℕ)). (s.replies ++ m ∷ []) ++ l)
                (laws.flushes (ops.send m k') ∙ laws.sends m k' ∙ rest)
            ∙ append_assoc s.replies (m ∷ []) ms
            ∙ ap (λ (l : List (List ℕ)). s.replies ++ l) (sym e)
      ]

  taken_input :
      (n : ℕ) (r : Bool × Kcp) (s : KcpServer Kcp) (added : List (List ℕ))
      → inbox r.1 ≡ inbox s.kcp ++ added
      → messages (take_input ops n r s) ≡ messages s ++ added
  taken_input n (false, k) s added e =
      ap (λ (l : List (List ℕ)). s.replies ++ l) e
      ∙ sym (append_assoc s.replies (inbox s.kcp) added)
  taken_input n (true, k) s added e =
      replied n k s
      ∙ ap (λ (l : List (List ℕ)). s.replies ++ l) e
      ∙ sym (append_assoc s.replies (inbox s.kcp) added)

  turn_completes :
      (clock : ℕ) (d : Datagram) (s : KcpServer Kcp)
      → messages (after_wait ops d (updated ops clock s))
        ≡ messages s ++ completed d (ops.update clock s.kcp)
  turn_completes clock d s = by_datagram d
    where
      same : messages (updated ops clock s) ≡ messages s
      same = ap (λ (l : List (List ℕ)). s.replies ++ l) (laws.updates clock s.kcp)

      by_datagram :
          (d : Datagram)
          → messages (after_wait ops d (updated ops clock s))
            ≡ messages s ++ completed d (ops.update clock s.kcp)
      by_datagram (packet from byte bytes) =
          let got = take recv_buf (byte ∷ bytes) in
          taken_input (length got) (ops.input got (ops.update clock s.kcp))
            (record s {
              kcp = ops.update clock s.kcp;
              client_addr = some from;
              recv_count = s.recv_count + 1;
            })
            (completes got (ops.update clock s.kcp)) (laws.inputs got (ops.update clock s.kcp))
          ∙ ap (λ (l : List (List ℕ)). l ++ completes got (ops.update clock s.kcp)) same
      by_datagram (empty from) = same ∙ sym (append-nil (messages s))
      by_datagram nothing = same ∙ sym (append-nil (messages s))

  one_turn :
      (b : Bool) (s next last : KcpServer Kcp) (added more : List (List ℕ))
      → messages next ≡ messages s ++ added
      → messages last ≡ messages next ++ more
      → messages (if b then last else next) ≡ messages s ++ (added ++ (if b then more else []))
  one_turn true s next last added more h later =
      later ∙ ap (λ (l : List (List ℕ)). l ++ more) h ∙ append_assoc (messages s) added more
  one_turn false s next last added more h later =
      h ∙ ap (λ (l : List (List ℕ)). messages s ++ l) (sym (append-nil added))

  -- With KCP as documented, the server's replies followed by the messages that wait in KCP are, in order,
  -- those that were there when the loop began and those that the datagrams completed: none is lost, repeated
  -- or overtaken, whatever the datagrams and the clock.
  pub kcp_loop-in_order :
      (waits : List KcpWait) (s : KcpServer Kcp)
      → messages (kcp_loop ops waits s) ≡ messages s ++ all_completed waits s
  unfolding kcp_loop kcp_turn
  kcp_loop-in_order [] s = sym (append-nil (messages s))
  kcp_loop-in_order (w ∷ waits) s =
      one_turn (goes_on w.datagram) s (kcp_turn ops w s) (kcp_loop ops waits (kcp_turn ops w s))
        (completed w.datagram (ops.update w.clock s.kcp)) (all_completed waits (kcp_turn ops w s))
        (turn_completes w.clock w.datagram s) (kcp_loop-in_order waits (kcp_turn ops w s))

  -- A message that is longer than the buffer stays the first.
  module _ (m : List ℕ) (long : recv_buf < length m) where
    abbrev pub FirstIs : Kcp → Type 0
    FirstIs k = (ms : List (List ℕ)) × (inbox k ≡ m ∷ ms)

    abbrev pub Waits : KcpServer Kcp → KcpServer Kcp → Type 0
    Waits s s' = (s'.replies ≡ s.replies) × FirstIs s'.kcp

    input-Waits :
        (n : ℕ) (r : Bool × Kcp) (s : KcpServer Kcp)
        → n ≤ recv_buf
        → FirstIs r.1
        → Waits s (take_input ops n r s)
    input-Waits n (false, k) s small first = (refl, first)
    input-Waits n (true, k) s small (ms, e) =
        subst (λ (r : Option (List ℕ) × Kcp). Waits s (reply ops r (record s { kcp = k })))
          (sym (laws.takes_long n k m ms e (omega (arith, small, long)))) (refl, (ms, e))

    turn-Waits :
        (clock : ℕ) (d : Datagram) (s : KcpServer Kcp)
        → FirstIs s.kcp
        → Waits s (after_wait ops d (updated ops clock s))
    turn-Waits clock (packet from byte bytes) s (ms, e) =
        let got = take recv_buf (byte ∷ bytes) in
        let k = ops.update clock s.kcp in
        input-Waits (length got) (ops.input got k)
          (record s { kcp = k; client_addr = some from; recv_count = s.recv_count + 1 })
          (let short = length-take 1499 bytes in omega (arith, short))
          (
            ms ++ completes got k,
            laws.inputs got k
                ∙ ap (λ (l : List (List ℕ)). l ++ completes got k) (laws.updates clock s.kcp ∙ e),
          )
    turn-Waits clock (empty from) s (ms, e) = (refl, (ms, laws.updates clock s.kcp ∙ e))
    turn-Waits clock nothing s (ms, e) = (refl, (ms, laws.updates clock s.kcp ∙ e))

    either-Waits :
        (b : Bool) (s next last : KcpServer Kcp)
        → Waits s next
        → Waits next last
        → Waits s (if b then last else next)
    either-Waits true s next last h later = (later.0 ∙ h.0, later.1)
    either-Waits false s next last h later = h

    -- When the first message that waits in KCP is longer than the buffer of 1500 bytes, the server never replies
    -- again, to this message or to another, whatever the datagrams and the clock, with KCP as documented.
    pub kcp_loop-stuck :
        (waits : List KcpWait) (s : KcpServer Kcp) → FirstIs s.kcp → Waits s (kcp_loop ops waits s)
    unfolding kcp_loop kcp_turn
    kcp_loop-stuck [] s first = (refl, first)
    kcp_loop-stuck (w ∷ waits) s first =
        let now = turn-Waits w.clock w.datagram s first in
        either-Waits (goes_on w.datagram) s (kcp_turn ops w s)
          (kcp_loop ops waits (kcp_turn ops w s)) now
          (kcp_loop-stuck waits (kcp_turn ops w s) now.1)
