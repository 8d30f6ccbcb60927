-- ===== src/Uring/Crosstalk.antt =====
-- What one buffer for all connections does.
use voice.Prelude.{
  ℕ, suc, ◌≤◌, ◌<◌, ◌≡◌, refl, ap, ap₂, ◌∙◌, List, [], ◌∷◌, ◌++◌, arith, length, take, drop,
  take-all, take-front,
}
use voice.Prelude.Int.{ℤ}
use voice.Uring.{
  event_accept, event_read, event_write, Sqe, Server, get_sqe, set_event_accept, set_event_recv,
  set_event_send, on_accept, on_read, on_completion, next_completion, peek_batch, main_step,
  smaller, connected, came, took, carry_out, FitsEvent, started, Reachable, at_start, by_main,
  by_kernel,
}

none_open : 0 < 1024
none_open = omega arith

one_open : 1 < 1024
one_open = omega arith

two_open : 2 < 1024
two_open = omega arith

module _ (socket a b : ℤ) (c d : ℕ) (x y : List ℕ) where
  abbrev accept_sqe : Sqe
  accept_sqe = record { info = record { fd = socket; event = event_accept }; len = 0 }

  abbrev recv_sqe : ℤ → Sqe
  recv_sqe fd = record { info = record { fd = fd; event = event_read }; len = 1024 }

  abbrev send_sqe : ℤ → ℕ → Sqe
  send_sqe fd len = record { info = record { fd = fd; event = event_write }; len = len }

  -- What the two recv requests write, one over the other.
  abbrev first : List ℕ
  first = c ∷ take 1023 x

  abbrev second : List ℕ
  second = d ∷ take 1023 y

  abbrev behind : List ℕ
  behind = drop (length second) (first ++ drop (length first) (started socket).buffer)

  -- Both connect and send, and then the first is answered.
  answered_first :
      (s : Server) × Reachable socket s
      × (s.received ≡ (a, first) ∷ (b, second) ∷ [])
      × (s.sent ≡ (a, take (smaller (length first) (length first)) (second ++ behind)) ∷ [])
  unfolding main_step peek_batch next_completion on_completion on_accept on_read set_event_accept
      set_event_recv set_event_send get_sqe carry_out FitsEvent
  answered_first =
      let r0 : Reachable socket (started socket) = at_start in
      let r1 = by_main r0 none_open refl in
      let r2 = by_kernel [] accept_sqe [] (connected a) r1 refl refl in
      let r3 = by_main r2 one_open refl in
      let r4 = by_main r3 one_open refl in
      let r5 = by_main r4 one_open refl in
      let r6 = by_main r5 one_open refl in
      let r7 = by_kernel [] accept_sqe (recv_sqe a ∷ []) (connected b) r6 refl refl in
      let r8 = by_main r7 two_open refl in
      let r9 = by_main r8 two_open refl in
      let r10 = by_main r9 two_open refl in
      let r11 = by_main r10 two_open refl in
      let r12 =
        by_kernel [] (recv_sqe a) (accept_sqe ∷ recv_sqe b ∷ []) (came (c ∷ x)) r11 refl refl in
      let r13 = by_kernel (accept_sqe ∷ []) (recv_sqe b) [] (came (d ∷ y)) r12 refl refl in
      let r14 = by_main r13 two_open refl in
      let r15 = by_main r14 two_open refl in
      let r16 = by_main r15 two_open refl in
      let r17 = by_main r16 two_open refl in
      let r18 = by_main r17 two_open refl in
      let r19 =
        by_kernel (accept_sqe ∷ []) (send_sqe a (length first)) (send_sqe b (length second) ∷ [])
          (took (length first)) r18 refl refl in
      (_, r19, refl, refl)

smaller_self : (n : ℕ) → smaller n n ≡ n
smaller_self n = ground arith

-- Whatever two connections send, the one that sends no more than the other and comes first can be
-- answered with the other's bytes: one buffer stands behind all requests. Both fit the buffer.
pub answered-crosstalk :
    (socket a b : ℤ) (c d : ℕ) (x y : List ℕ)
    → length x ≤ length y
    → length y ≤ 1023
    → (s : Server) × Reachable socket s
      × (s.received ≡ (a, c ∷ x) ∷ (b, d ∷ y) ∷ [])
      × (s.sent ≡ (a, take (suc (length x)) (d ∷ y)) ∷ [])
answered-crosstalk socket a b c d x y shorter fits =
    let (s, r, received, sent) = answered_first socket a b c d x y in
    let whole_x = take-all 1023 x (omega (arith, shorter, fits)) in
    let whole_y = take-all 1023 y fits in
    let gone =
      ap (λ (n : ℕ). take n (second socket a b c d x y ++ behind socket a b c d x y))
        (smaller_self (length (first socket a b c d x y)))
      ∙ ap₂
          (λ (u : List ℕ) (v : List ℕ).
            take (suc (length u)) (d ∷ (v ++ behind socket a b c d x y)))
          whole_x whole_y
      ∙ take-front (suc (length x)) (d ∷ y) (behind socket a b c d x y) (omega (arith, shorter)) in
    (
      s,
      r,
      received ∙ ap₂ (λ (u : List ℕ) (v : List ℕ). (a, c ∷ u) ∷ (b, d ∷ v) ∷ []) whole_x whole_y,
      sent ∙ ap (λ (t : List ℕ). (a, t) ∷ []) gone,
    )
