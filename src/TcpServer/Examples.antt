-- ===== src/TcpServer/Examples.antt =====
-- Runs of the TCP servers.
use voice.Prelude.{
  ℕ, zero, suc, ◌+◌, ◌≡◌, refl, true, false, none, some, List, [], ◌∷◌, ◌++◌, arith, length, subst,
  ◌==◌,
}
use voice.Prelude.Run.{ok}
use voice.TcpServer.{
  RecvOutcome, came, would_block, failed, unwatched, server_step, TcpServer, TcpEvent, watch_fd,
  print_messages, PortAnswers, serving, server_main, epoll_main, onebyone_main, returned,
  accept_loop, events_run, serve_event, islistenfd,
}
use voice.TcpServer.Drain.{flat, text_of, IsQuiet, GoesOn, Bounded}
use voice.TcpServer.Listeners.{serve_event-closes_listener}
use voice.TcpServer.Serves.{Reliable, Prints, queued_at, serve_run-Prints}

-- A socket on which these messages have come.
abbrev recv_message : List (List ℕ) → RecvOutcome × List (List ℕ)
recv_message [] = (would_block, [])
recv_message (m ∷ ms) = (came m, ms)

takes_message : (s : List (List ℕ)) → flat s ≡ text_of (recv_message s).0 ++ flat (recv_message s).1
takes_message [] = refl
takes_message (m ∷ ms) = refl

none_left : (s : List (List ℕ)) → IsQuiet (recv_message s).0 → flat s ≡ []
none_left [] quiet = refl
none_left (m ∷ ms) quiet = absurd quiet

bounded_server : Bounded server_step recv_message length
unfolding server_step
bounded_server [] h = absurd h
bounded_server (m ∷ ms) h = omega arith

quiet_server : Reliable recv_message flat length server_step
unfolding server_step
quiet_server [] q = tt
quiet_server (m ∷ ms) q = absurd (subst GoesOn q tt)

abbrev empty_server : TcpServer
empty_server = record { watched = λ k. unwatched; printed = [] }

abbrev message_event : ℕ → List (List ℕ) → TcpEvent (List (List ℕ))
message_event fd s = record { fd = fd; accepted = some 9; socket = s }

abbrev three_events : List (TcpEvent (List (List ℕ)))
three_events =
    message_event 3 []
    ∷ message_event 9 ((1 ∷ 2 ∷ []) ∷ (3 ∷ []) ∷ [])
    ∷ message_event 9 ((4 ∷ []) ∷ [])
    ∷ []

abbrev all_open : ℕ → PortAnswers
all_open i = record { socket = some (3 + i); binds = true; listens = true }

abbrev from_three : ℕ → ℕ → List ℕ
from_three zero k = []
from_three (suc n) k = k ∷ from_three n (suc k)

starts : server_main 2 all_open ≡ serving (from_three 1024 3)
unfolding server_main
starts = refl

serve_event-closes_listener_example :
    serve_event
      (λ (s : List (List ℕ)). (failed, s))
      1
      (from_three 1024 3)
      (message_event 103 [])
      empty_server
    ≡ ok (watch_fd 103 unwatched (print_messages 103 [] empty_server))
serve_event-closes_listener_example =
    serve_event-closes_listener (λ (s : List (List ℕ)). (failed, s)) 2 all_open (from_three 1024 3)
      100 0 (message_event 103 []) empty_server starts (omega arith) (omega arith) refl refl refl

serve_run-Prints_example :
    Prints recv_message flat length server_step
      (λ fd. queued_at flat (λ k. islistenfd k (3 ∷ 4 ∷ []) == 0) fd three_events)
      empty_server
      (events_run (serve_event recv_message 3 (3 ∷ 4 ∷ [])) three_events empty_server)
serve_run-Prints_example =
    serve_run-Prints recv_message flat length (3 ∷ 4 ∷ []) 3 three_events empty_server (record {
      net = record { takes = takes_message; empty = none_left };
      bounded = bounded_server;
      reliable = quiet_server;
      enough = (omega arith, (omega arith, (omega arith, tt)));
    })

epoll_refused :
    epoll_main 2 (record { socket = some 3; binds = false; listens = true }) ≡ returned 2
unfolding epoll_main
epoll_refused = refl

onebyone_refused :
    onebyone_main 2 (record { socket = some 3; binds = false; listens = true }) ≡ returned 3
unfolding onebyone_main
onebyone_refused = refl

accepts_two : accept_loop (some 4 ∷ none ∷ some 5 ∷ []) ≡ 4 ∷ 5 ∷ []
unfolding accept_loop
accepts_two = refl
