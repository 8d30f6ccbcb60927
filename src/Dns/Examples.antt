-- ===== src/Dns/Examples.antt =====
-- A response with one query and one answer, and the names in it.
use voice.Prelude.{ℕ, ◌+◌, ◌≡◌, refl, List, [], ◌∷◌, ◌++◌, arith, true, All}
use voice.Prelude.Int.{pos}
use voice.Prelude.Run.{ok}
use voice.Prelude.Memory.{read_bytes}
use voice.Prelude.Text.{codes}
use voice.Dns.{convert_domain, byte_at, dns_parse_name}
use voice.Dns.Name.{NameAt, end_at, label_at, jump_at, dns_parse_name-NameAt}
use voice.Dns.Domain.{IsLabel, dns_parse_name-convert_domain}
use voice.Dns.Response.{word_at, skip_queries, dns_parse_response}
use voice.Dns.Response.Hosts.{HostAt, dns_parse_response-hosts}

abbrev labels : List (List ℕ)
labels = codes "ab" ∷ codes "c" ∷ []

labels-IsLabel : All IsLabel labels
labels-IsLabel = (
  record { some_bytes = λ e. cc; no_dot = ground arith; short = omega arith },
  (record { some_bytes = λ e. cc; no_dot = ground arith; short = omega arith }, tt),
)

parse_example :
    (buf : List ℕ) × (convert_domain (codes "ab.c") ≡ ok buf)
    × (dns_parse_name 3 ((7 ∷ []) ++ (buf ++ 9 ∷ [])) 1 [] ≡ ok (codes "ab.c"))
parse_example =
    dns_parse_name-convert_domain (7 ∷ []) (9 ∷ []) (codes "ab") (codes "c" ∷ []) labels-IsLabel
      (omega arith)

-- The response: a header, the query for "ab.c", and an answer that points to its name.
abbrev response : List ℕ
response =
    0 ∷ 5 ∷ 129 ∷ 128 ∷ 0 ∷ 1 ∷ 0 ∷ 1 ∷ 0 ∷ 0 ∷ 0 ∷ 0 ∷ 2 ∷ 97 ∷ 98 ∷ 1 ∷ 99 ∷ 0 ∷ 0 ∷ 1 ∷ 0 ∷ 1
    ∷ 192 ∷ 12 ∷ 0 ∷ 1 ∷ 0 ∷ 1 ∷ 0 ∷ 0 ∷ 0 ∷ 60 ∷ 0 ∷ 4 ∷ 10 ∷ 0 ∷ 0 ∷ 1 ∷ []

response-name : NameAt response 12 labels
unfolding byte_at read_bytes
response-name =
    label_at 12 (codes "ab") (codes "c" ∷ []) (λ e. cc) (omega arith) refl refl
      (label_at 15 (codes "c") [] (λ e. cc) (omega arith) refl refl (end_at 17 refl))

pointer-name : NameAt response 22 labels
unfolding byte_at read_bytes
pointer-name = jump_at 22 0 12 (codes "ab") (codes "c" ∷ []) (omega arith) refl refl response-name

pointer_example : dns_parse_name 4 response 22 (codes "x") ≡ ok (codes "x" ++ codes "ab.c")
unfolding response-name pointer-name
pointer_example =
    dns_parse_name-NameAt response 22 labels pointer-name 4 (codes "x") (omega arith) (omega arith)

-- Stands for inet_ntop.
abbrev first_byte_text : List ℕ → List ℕ
first_byte_text [] = []
first_byte_text (b ∷ bs) = (48 + b) ∷ []

answer-HostAt : HostAt 4 response 22 (codes "ab.c") (10 ∷ 0 ∷ 0 ∷ 1 ∷ [])
unfolding byte_at read_bytes word_at response-name pointer-name
answer-HostAt = record {
  labels = labels;
  named = pointer-name;
  enough = omega arith;
  text = refl;
  room = omega arith;
  no_nul = ground arith;
  is_host = refl;
  ttl = 0 ∷ 0 ∷ 0 ∷ 60 ∷ [];
  has_ttl = refl;
  is_ipv4 = refl;
  has_ip = refl;
}

response_example :
    dns_parse_response first_byte_text 4 true response
    ≡ ok (pos 1, record { domain = codes "ab.c"; ip = 58 ∷ [] } ∷ [])
unfolding byte_at read_bytes word_at skip_queries
response_example =
    dns_parse_response-hosts first_byte_text 4 response 1 22
      ((codes "ab.c", 10 ∷ 0 ∷ 0 ∷ 1 ∷ []) ∷ []) refl refl refl (answer-HostAt, tt)
