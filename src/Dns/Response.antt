-- ===== src/Dns/Response.antt =====
-- dns_parse_response: the parser of the answers. `inet_ntop` is a parameter, and so is whether `calloc`
-- finds memory.
pub mod Hosts
use voice.Prelude.{
  ℕ, zero, suc, ◌+◌, ◌-◌, ◌*◌, Bool, true, false, Option, List, [], ◌∷◌, ◌++◌, ◌==◌, if◌then◌else◌,
  length, replicate,
}
use voice.Prelude.Int.{ℤ, pos, negsuc}
use voice.Prelude.Run.{Run, ok, fault, out_of_fuel, of_option, ◌>>=◌}
use voice.Prelude.Memory.{read_bytes}
use voice.Prelude.Text.{c_string}
use voice.Dns.{byte_at, out_size, dns_parse_name}

pub record DnsItem : Type 0 where
  pub domain : List ℕ
  pub ip : List ℕ

-- ntohs of the two bytes.
unfoldable pub word_at : List ℕ → ℕ → Run ℕ
unfolding byte_at
word_at buffer ptr =
    byte_at buffer ptr >>= λ hi. byte_at buffer (ptr + 1) >>= λ lo. ok (hi * 256 + lo)

-- Behind a name of the query section, which has no pointers.
unfoldable pub skip_name : ℕ → List ℕ → ℕ → Run ℕ
unfolding byte_at
skip_name zero buffer ptr = out_of_fuel
skip_name (suc fuel) buffer ptr = byte_at buffer ptr >>= λ flag. elim (flag == 0) [
  | true ↦ ok (ptr + flag + 1)
  | false ↦ skip_name fuel buffer (ptr + flag + 1)
]

unfoldable pub skip_queries : ℕ → ℕ → List ℕ → ℕ → Run ℕ
unfolding skip_name
skip_queries fuel zero buffer ptr = ok ptr
skip_queries fuel (suc n) buffer ptr =
    skip_name fuel buffer ptr >>= λ p. skip_queries fuel n buffer (p + 4)

module _ (inet_ntop : List ℕ → List ℕ) where
  -- The branch for a record of type A whose data stands at `data_at`.
  unfoldable pub host_item : List ℕ → List ℕ → ℕ → ℕ → Run (List DnsItem × ℕ)
  host_item buffer aname data_at size =
      if size == 4
      then (do
        netip ← of_option (read_bytes buffer data_at 4)
        name ← of_option (c_string (aname ++ replicate (out_size - length aname) 0))
        ok (record { domain = name; ip = inet_ntop netip } ∷ [], data_at + size))
      else ok ([], data_at + size)

  -- One answer: the items it adds and where the next one is read. Only the data of the two types that
  -- are known is passed over.
  unfoldable pub parse_answer : ℕ → List ℕ → ℕ → Run (List DnsItem × ℕ)
  unfolding word_at host_item
  parse_answer fuel buffer ptr = do
    aname ← dns_parse_name fuel buffer ptr []
    type ← word_at buffer (ptr + 2)
    ttl ← of_option (read_bytes buffer (ptr + 6) 4)
    size ← word_at buffer (ptr + 10)
    (if type == 5
        then (dns_parse_name fuel buffer (ptr + 12) [] >>= λ cname. ok ([], ptr + 12 + size))
        else if type == 1
        then host_item buffer aname (ptr + 12) size
        else ok ([], ptr + 12))

  unfoldable pub parse_answers : ℕ → ℕ → List ℕ → ℕ → Run (List DnsItem)
  unfolding parse_answer
  parse_answers fuel zero buffer ptr = ok []
  parse_answers fuel (suc n) buffer ptr = parse_answer fuel buffer ptr >>= λ (items, next).
      parse_answers fuel n buffer next >>= λ rest. ok (items ++ rest)

  -- The number of items, or -1, and the items.
  unfoldable pub dns_parse_response : ℕ → Bool → List ℕ → Run (ℤ × List DnsItem)
  unfolding parse_answers skip_queries
  dns_parse_response fuel got_list buffer = do
    querys ← word_at buffer 4
    answers ← word_at buffer 6
    ptr ← skip_queries fuel querys buffer 12
    (if got_list
        then (parse_answers fuel answers buffer ptr >>= λ items. ok (pos (length items), items))
        else ok (negsuc 0, []))
