-- ===== src/Kcp/Examples.antt =====
-- A KCP that takes each datagram for a message.
use voice.Prelude.{
  ℕ, ◌≤◌, ◌<◌, ◌≡◌, refl, true, false, Option, none, some, List, [], ◌∷◌, ◌++◌, length, replicate,
  if◌then◌else◌, ltb, lt→ltb, Bool-cases, ltb→lt, inl, inr, arith,
}
use voice.Kcp.{
  KcpOps, KcpWait, packet, empty, nothing, new_server, kcp_main, minus_one, kcp_loop, kcp_turn,
  iclock, iclock64,
}
use voice.Kcp.Order.{KcpLaws, messages, all_completed, Waits, kcp_loop-in_order, kcp_loop-stuck}

abbrev Queue : Type 0
Queue = List (List ℕ)

abbrev queue_recv : ℕ → Queue → Option (List ℕ) × Queue
queue_recv n [] = (none, [])
queue_recv n (m ∷ ms) = if ltb n (length m) then (none, m ∷ ms) else (some m, ms)

abbrev queue_ops : KcpOps Queue
queue_ops = record {
  update = λ clock k. k;
  input = λ bytes k. (true, k ++ bytes ∷ []);
  recv = queue_recv;
  send = λ bytes k. k;
  flush = λ k. k;
}

queue_none : (n : ℕ) (k : Queue) → k ≡ [] → queue_recv n k ≡ (none, k)
queue_none n [] e = refl
queue_none n (m ∷ ms) e = absurd (cc)

queue_long :
    (n : ℕ) (k : Queue) (m : List ℕ) (ms : Queue)
    → k ≡ m ∷ ms
    → n < length m
    → queue_recv n k ≡ (none, k)
queue_long n k m ms e h = rw (e, lt→ltb n (length m) h) refl

queue_first :
    (n : ℕ) (k : Queue) (m : List ℕ) (ms : Queue)
    → k ≡ m ∷ ms
    → length m ≤ n
    → (k' : Queue) × (queue_recv n k ≡ (some m, k')) × (k' ≡ ms)
queue_first n k m ms e h = elim (Bool-cases (ltb n (length m))) [
  | inl q ↦ let lt = ltb→lt n (length m) q in absurd (omega (arith, lt, h))
  | inr q ↦ (ms, rw (e, q) refl, refl)
]

queue-KcpLaws : KcpLaws queue_ops (λ k. k) (λ bytes k. bytes ∷ [])
queue-KcpLaws = record {
  updates = λ clock k. refl;
  flushes = λ k. refl;
  sends = λ bytes k. refl;
  inputs = λ bytes k. refl;
  takes_none = queue_none;
  takes_long = queue_long;
  takes_first = queue_first;
}

abbrev two_packets : List KcpWait
two_packets =
    record { clock = 5; datagram = packet 1 65 (66 ∷ []) }
    ∷ record { clock = 6; datagram = nothing }
    ∷ record { clock = 7; datagram = packet 2 67 [] }
    ∷ record { clock = 8; datagram = empty 3 }
    ∷ record { clock = 9; datagram = packet 1 68 [] }
    ∷ []

replies_in_order :
    (kcp_loop queue_ops two_packets (new_server [])).replies ≡ (65 ∷ 66 ∷ []) ∷ (67 ∷ []) ∷ []
unfolding kcp_loop kcp_turn
replies_in_order = refl

in_order_example :
    messages queue_ops
      (λ k. k)
      (λ bytes k. bytes ∷ [])
      queue-KcpLaws
      (kcp_loop queue_ops two_packets (new_server []))
    ≡ all_completed queue_ops
        (λ k. k)
        (λ bytes k. bytes ∷ [])
        queue-KcpLaws
        two_packets
        (new_server [])
in_order_example =
    kcp_loop-in_order queue_ops (λ k. k) (λ bytes k. bytes ∷ []) queue-KcpLaws two_packets
      (new_server [])

stuck_example :
    Waits queue_ops
      (λ k. k)
      (λ bytes k. bytes ∷ [])
      queue-KcpLaws
      (replicate 1501 7)
      (omega arith)
      (new_server (replicate 1501 7 ∷ []))
      (kcp_loop queue_ops two_packets (new_server (replicate 1501 7 ∷ [])))
stuck_example =
    kcp_loop-stuck queue_ops (λ k. k) (λ bytes k. bytes ∷ []) queue-KcpLaws (replicate 1501 7)
      (omega arith) two_packets (new_server (replicate 1501 7 ∷ [])) ([], refl)

clock_wraps : iclock 4294967 296000 ≡ 0
unfolding iclock iclock64
clock_wraps = refl

no_port : kcp_main queue_ops 1 false false [] 5 two_packets ≡ minus_one
unfolding kcp_main
no_port = refl
