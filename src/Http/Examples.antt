-- ===== src/Http/Examples.antt =====
-- A response of five bytes, for a sprintf that writes one digit.
use voice.Prelude.{
  ℕ, ◌+◌, ◌≡◌, refl, Bool, true, false, some, List, [], ◌∷◌, ◌<◌, some_injective, arith,
}
use voice.Prelude.Run.{ok}
use voice.Prelude.Memory.{write_bytes, read_bytes}
use voice.Http.Reactor.{
  HttpEvent, HttpTable, http_start, http_event, http_tests, http_read, http_write, http_accept,
  http_run,
}
use voice.Http.Reactor.Responses.{AllReported, Responds, http_run-Responds}
use voice.Http.{
  http_printable, of_size, http_request, http_send, http_recv, http_response, respond, send_status,
}

abbrev digit : ℕ → List ℕ
digit n = (48 + n) ∷ []

abbrev of_five : ℕ → Bool → Bool → HttpEvent
of_five fd input output = record {
  fd = fd;
  input = input;
  output = output;
  accepted = some 5;
  received = b'G' ∷ [];
  opened = of_size 5;
}

-- A client is accepted, asks, is sent a response, and asks again.
abbrev one_client : List HttpEvent
one_client =
    of_five 3 true false
    ∷ of_five 5 true false
    ∷ of_five 5 false true
    ∷ of_five 5 false true
    ∷ of_five 5 false true
    ∷ of_five 5 true false
    ∷ []

fits_table : (client_fd : ℕ) → some 5 ≡ some client_fd → client_fd < 1048576
fits_table client_fd q = let same = some_injective q in omega (arith, same)

one_client-AllReported : AllReported digit 5 one_client (http_start (3 ∷ []))
unfolding http_printable http_start http_event http_tests http_read http_write http_accept http_send
    http_recv http_request http_response respond send_status write_bytes read_bytes
one_client-AllReported = (
  record {
    of_input = λ q. refl;
    of_output = λ q. absurd (cc);
    fits = fits_table;
    opens = refl;
    prints = refl;
  },
  (
    record {
      of_input = λ q. refl;
      of_output = λ q. absurd (cc);
      fits = fits_table;
      opens = refl;
      prints = refl;
    },
    (
      record {
        of_input = λ q. absurd (cc);
        of_output = λ q. refl;
        fits = fits_table;
        opens = refl;
        prints = refl;
      },
      (
        record {
          of_input = λ q. absurd (cc);
          of_output = λ q. refl;
          fits = fits_table;
          opens = refl;
          prints = refl;
        },
        (
          record {
            of_input = λ q. absurd (cc);
            of_output = λ q. refl;
            fits = fits_table;
            opens = refl;
            prints = refl;
          },
          (
            record {
              of_input = λ q. refl;
              of_output = λ q. absurd (cc);
              fits = fits_table;
              opens = refl;
              prints = refl;
            },
            tt,
          ),
        ),
      ),
    ),
  ),
)

reactor_run_example :
    (t : HttpTable) × (http_run digit one_client (http_start (3 ∷ [])) ≡ ok t) × Responds digit 5 t
reactor_run_example =
    http_run-Responds digit 5 (omega arith) (3 ∷ []) one_client one_client-AllReported
