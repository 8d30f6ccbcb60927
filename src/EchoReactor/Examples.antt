-- ===== src/EchoReactor/Examples.antt =====
-- A client that connects and says "hi".
use voice.Prelude.{
  ℕ, ◌≤◌, ◌≡◌, ◌≢◌, refl, sym, subst, true, false, none, some, List, [], ◌∷◌, ◌++◌, arith, ◌==◌,
  Bool-cases, inl, inr, All,
}
use voice.Prelude.Run.{ok}
use voice.EchoReactor.{
  ConnTable, came, recv_conn, send_conn, EchoEvent, echo_run, echo_start, empty_conn,
  echo_printable,
}
use voice.EchoReactor.Connections.{
  conn_run, put_other, AllReported, events_of, Sound, listening, connected,
}
use voice.EchoReactor.Echo.{echo_run-connections, conn_waits, TakesAll, echo_run-echoes}

abbrev hello : List EchoEvent
hello =
    record {
      fd = 3;
      input = true;
      output = false;
      accepted = some 5;
      received = came [];
      taken = 0;
    }
    ∷ record {
      fd = 5;
      input = true;
      output = false;
      accepted = none;
      received = came (104 ∷ 105 ∷ []);
      taken = 0;
    }
    ∷ record {
      fd = 5;
      input = false;
      output = true;
      accepted = none;
      received = came [];
      taken = 2048;
    }
    ∷ []

hello-Sound : All (Sound 3) hello
hello-Sound = (
  listening 5 refl refl refl refl (λ (e : 5 ≡ 3). omega (arith, e)) (omega arith),
  (
    connected (104 ∷ 105 ∷ []) (λ (e : 5 ≡ 3). omega (arith, e)) refl,
    (connected [] (λ (e : 5 ≡ 3). omega (arith, e)) refl, tt),
  ),
)

hello_reported : (fd : ℕ) → fd ≢ 3 → AllReported (events_of 3 fd hello) empty_conn
unfolding recv_conn send_conn echo_printable
hello_reported fd ne = elim (Bool-cases (5 == fd)) [
  | inl e ↦ rw (e) (tt, ((refl, refl, refl), ((refl, refl), tt)))
  | inr e ↦ rw (e) tt
]

hello_taken : (fd : ℕ) → All TakesAll (events_of 3 fd hello)
hello_taken fd = elim (Bool-cases (5 == fd)) [
  | inl e ↦ rw (e) (tt, (tt, (big, tt)))
  | inr e ↦ rw (e) tt
]
  where
    big : 1024 ≤ 2048
    big = omega arith

echo_example :
    (t : ConnTable) × (echo_run hello (echo_start 3) ≡ ok t)
    × ((fd : ℕ) → fd ≢ 3 → (t fd).gone_out ++ conn_waits (t fd) ≡ (t fd).came_in)
echo_example = echo_run-echoes 3 hello hello-Sound hello_reported hello_taken

connections_example :
    (t' : ConnTable) × (echo_run hello (echo_start 3) ≡ ok t')
    × ((fd : ℕ) → fd ≢ 3 → t' fd ≡ conn_run (events_of 3 fd hello) (echo_start 3 fd))
unfolding echo_start
connections_example = echo_run-connections 3 hello (echo_start 3) refl hello-Sound (λ fd ne.
    subst (AllReported (events_of 3 fd hello)) (sym (put_other (λ k. empty_conn) 3 fd _ ne))
      (hello_reported fd ne))
