-- ===== src/Poll/Examples.antt =====
-- A client is accepted on the descriptor 4, and its bytes are sent back.
use voice.Prelude.{ℕ, ◌≡◌, ◌≢◌, refl, true, none, some, [], ◌∷◌, ◌==◌, ==_iff, arith, inl}
use voice.Prelude.Run.{ok, fault}
use voice.Poll.{PollServer, came, PollRound, poll_accept, accept_part, poll_round, poll_start}
use voice.Poll.Rounds.{own_round, IsPoll, Documented, poll_round-serves, poll_start-IsPoll}

abbrev accepts_four : PollRound
accepts_four = record {
  ready = λ k. k == 3;
  accepted = some 4;
  received = λ k. came [];
  taken = λ k. 0;
}

accepts_four-Documented : Documented accepts_four (poll_start 3)
unfolding poll_start
accepts_four-Documented = record {
  accepts = λ q. (4, refl, omega arith, omega arith, refl);
  receives = λ k _. ([], refl, inl (omega arith));
}

abbrev with_four :
    (s' : PollServer) × (poll_round accepts_four (poll_start 3) ≡ ok s')
    × IsPoll s'
    × (s'.sockfd ≡ (poll_start 3).sockfd)
    × ((fd : ℕ)
        → fd ≢ (poll_start 3).sockfd
        → ((poll_start 3).slots fd).polls ≡ true
        → s'.slots fd ≡ own_round accepts_four fd ((poll_start 3).slots fd))
with_four =
    poll_round-serves (poll_start 3) (poll_start-IsPoll 3 (omega arith)) accepts_four
      accepts_four-Documented

abbrev four_sends : PollRound
four_sends = record {
  ready = λ k. k == 4;
  accepted = none;
  received = λ k. came (7 ∷ 8 ∷ []);
  taken = λ k. 2;
}

-- Any state with the listener 3.
four_sends-Documented : (s : PollServer) → s.sockfd ≡ 3 → Documented four_sends s
four_sends-Documented s at = record {
  accepts = λ q. let same = (==_iff s.sockfd 4).0 q in absurd (omega (arith, at, same));
  receives = λ k _. (7 ∷ 8 ∷ [], refl, inl (omega arith));
}

serves_four :
    (s' : PollServer) × (poll_round four_sends with_four.0 ≡ ok s')
    × IsPoll s'
    × (s'.sockfd ≡ with_four.0.sockfd)
    × ((fd : ℕ)
        → fd ≢ with_four.0.sockfd
        → (with_four.0.slots fd).polls ≡ true
        → s'.slots fd ≡ own_round four_sends fd (with_four.0.slots fd))
unfolding poll_start
serves_four =
    poll_round-serves with_four.0 with_four.2 four_sends
      (four_sends-Documented with_four.0 with_four.3)

accept_fails : poll_round (record accepts_four { accepted = none }) (poll_start 3) ≡ fault
unfolding poll_round accept_part poll_accept poll_start
accept_fails = refl
