-- ===== src/Dns/Response/Hosts.antt =====
-- What dns_parse_response makes of records of type A.
use voice.Prelude.{
  ℕ, suc, ◌+◌, ◌-◌, ◌≤◌, ◌<◌, ◌≡◌, ◌≢◌, refl, ap, sym, true, some, List, [], ◌∷◌, ◌++◌, arith,
  length, replicate, All, map,
}
use voice.Prelude.Int.{pos}
use voice.Prelude.Run.{ok}
use voice.Prelude.Memory.{read_bytes}
use voice.Prelude.Text.{c_string, c_string-append}
use voice.Dns.{out_size}
use voice.Dns.Name.{join, NameAt, rounds, dns_parse_name-NameAt}
use voice.Dns.Response.{
  DnsItem, word_at, skip_queries, host_item, parse_answer, parse_answers, dns_parse_response,
}

-- A record of type A in a message, whose name is a pointer or of two bytes.
pub record HostAt (fuel : ℕ) (buffer : List ℕ) (ptr : ℕ) (name ip : List ℕ) : Type 0 where
  pub labels : List (List ℕ)
  pub named : NameAt buffer ptr labels
  pub enough : rounds named ≤ fuel
  pub text : name ≡ join labels
  pub room : length name < out_size
  pub no_nul : All (λ c. c ≢ 0) name
  pub is_host : word_at buffer (ptr + 2) ≡ ok 1
  pub ttl : List ℕ
  pub has_ttl : read_bytes buffer (ptr + 6) 4 ≡ some ttl
  pub is_ipv4 : word_at buffer (ptr + 10) ≡ ok 4
  pub has_ip : read_bytes buffer (ptr + 12) 4 ≡ some ip

-- Such records one behind the other.
abbrev pub HostsAt : ℕ → List ℕ → ℕ → List (List ℕ × List ℕ) → Type 0
HostsAt fuel buffer ptr [] = Unit
HostsAt fuel buffer ptr ((name, ip) ∷ hosts) =
    HostAt fuel buffer ptr name ip × HostsAt fuel buffer (ptr + 12 + 4) hosts

terminated :
    (name : List ℕ)
    → All (λ c. c ≢ 0) name
    → length name < out_size
    → c_string (name ++ replicate (out_size - length name) 0) ≡ some name
terminated name h l = rw (spare) (c_string-append name (replicate (out_size - length name - 1) 0) h)
  where
    spare : out_size - length name ≡ suc (out_size - length name - 1)
    spare = omega arith

module _ (inet_ntop : List ℕ → List ℕ) (fuel : ℕ) (buffer : List ℕ) where
  abbrev pub item_of : List ℕ × List ℕ → DnsItem
  item_of (name, ip) = record { domain = name; ip = inet_ntop ip }

  host_item-ipv4 :
      (name ip : List ℕ) (at : ℕ)
      → read_bytes buffer at 4 ≡ some ip
      → c_string (name ++ replicate (out_size - length name) 0) ≡ some name
      → host_item inet_ntop buffer name at 4 ≡ ok (item_of (name, ip) ∷ [], at + 4)
  unfolding host_item
  host_item-ipv4 name ip at r c = rw (r, c) refl

  parse_answer-host :
      (ptr : ℕ) (name ip : List ℕ)
      → HostAt fuel buffer ptr name ip
      → parse_answer inet_ntop fuel buffer ptr ≡ ok (item_of (name, ip) ∷ [], ptr + 12 + 4)
  unfolding parse_answer
  parse_answer-host ptr name ip v =
      rw
        (
          dns_parse_name-NameAt buffer ptr v.labels v.named fuel [] v.enough
              (omega (arith, v.room, ap length v.text)),
          v.is_host,
          v.has_ttl,
          v.is_ipv4,
          sym v.text,
        )
        (host_item-ipv4 name ip (ptr + 12) v.has_ip (terminated name v.no_nul v.room))

  parse_answers-hosts :
      (ptr : ℕ) (hosts : List (List ℕ × List ℕ))
      → HostsAt fuel buffer ptr hosts
      → parse_answers inet_ntop fuel (length hosts) buffer ptr ≡ ok (map item_of hosts)
  unfolding parse_answers
  parse_answers-hosts ptr [] v = refl
  parse_answers-hosts ptr ((name, ip) ∷ hosts) v =
      rw (parse_answer-host ptr name ip v.0, parse_answers-hosts (ptr + 12 + 4) hosts v.1)

  -- A response whose answers, behind the queries, are records of type A with a name of two bytes, a pointer,
  -- that is read in the rounds given, has no NUL and fits its array, and with an address of four bytes, gives
  -- their names and addresses, in order, and their number.
  pub dns_parse_response-hosts :
      (querys start : ℕ) (hosts : List (List ℕ × List ℕ))
      → word_at buffer 4 ≡ ok querys
      → word_at buffer 6 ≡ ok (length hosts)
      → skip_queries fuel querys buffer 12 ≡ ok start
      → HostsAt fuel buffer start hosts
      → dns_parse_response inet_ntop fuel true buffer
        ≡ ok (pos (length (map item_of hosts)), map item_of hosts)
  unfolding dns_parse_response
  dns_parse_response-hosts querys start hosts q a s v =
      rw (q, a, s, parse_answers-hosts start hosts v)
