-- ===== src/Dns.antt =====
-- dns.c: the names of the DNS protocol, the query and the parser of the response. A buffer is a list
-- of bytes; what `dns_parse_name` writes to `out` is given as the bytes written so far, with `*len`
-- their number. `rand` and `inet_ntop` are arguments.
pub mod Name
pub mod Domain
pub mod Response
pub mod Request
mod Examples
use voice.Prelude.{
  ℕ, zero, suc, ◌+◌, ◌-◌, ◌*◌, ◌/◌, ◌%◌, Bool, true, false, Option, none, some, List, [], ◌∷◌, ◌++◌,
  ◌==◌, leb, if◌then◌else◌, length, replicate,
}
use voice.Prelude.Run.{Run, ok, fault, out_of_fuel, of_option, ◌>>=◌}
use voice.Prelude.Memory.{read_bytes, write_bytes, le_bytes, be16}
use voice.Prelude.Text.{c_string}

abbrev pub dot : ℕ
dot = 46

-- The pieces between the dots.
abbrev pub onto_first : ℕ → List (List ℕ) → List (List ℕ)
onto_first c [] = (c ∷ []) ∷ []
onto_first c (l ∷ ls) = (c ∷ l) ∷ ls

abbrev pub pieces : List ℕ → List (List ℕ)
pieces [] = [] ∷ []
pieces (c ∷ s) = let ls = pieces s in if c == dot then [] ∷ ls else onto_first c ls

-- `strtok` passes over the empty ones.
abbrev pub tokens_of : List (List ℕ) → List (List ℕ)
tokens_of [] = []
tokens_of ([] ∷ ls) = tokens_of ls
tokens_of ((c ∷ l) ∷ ls) = (c ∷ l) ∷ tokens_of ls

-- Every token behind its length, as a byte.
abbrev pub encode : List (List ℕ) → List ℕ
encode [] = []
encode (l ∷ ls) = (length l % 256) ∷ (l ++ encode ls)

-- The whole buffer, `strlen(domain) + 2` bytes.
unfoldable pub convert_domain : List ℕ → Run (List ℕ)
convert_domain domain =
    of_option (
      write_bytes (replicate (length domain + 2) 0) 0
        (encode (tokens_of (pieces domain)) ++ 0 ∷ []))

-- The bytes of the struct; `id` is stored as the host does.
unfoldable pub dns_create_header : ℕ → List ℕ
dns_create_header id = le_bytes 2 id ++ (be16 256 ++ (be16 1 ++ (be16 0 ++ (be16 0 ++ be16 0))))

pub record DnsQuestion : Type 0 where
  pub size : ℕ
  pub qtype : List ℕ
  pub qclass : List ℕ
  pub name : List ℕ

unfoldable pub dns_create_question : List ℕ → Run DnsQuestion
unfolding convert_domain
dns_create_question hostname = do
  name ← convert_domain hostname
  ok (record { size = length hostname + 2; qtype = be16 1; qclass = be16 1; name = name })

-- The request and how much of it is used.
unfoldable pub dns_build_request : List ℕ → DnsQuestion → ℕ → Run (ℕ × List ℕ)
dns_build_request header question rlen = do
  r1 ← of_option (write_bytes (replicate rlen 0) 0 header)
  name ← of_option (read_bytes question.name 0 question.size)
  r2 ← of_option (write_bytes r1 12 name)
  r3 ← of_option (write_bytes r2 (12 + question.size) question.qtype)
  r4 ← of_option (write_bytes r3 (12 + question.size + 2) question.qclass)
  ok (12 + question.size + 2 + 2, r4)

-- Both upper bits of a byte.
unfoldable pub is_pointer : ℕ → Bool
is_pointer b = b / 64 % 4 == 3

abbrev pub out_size : ℕ
out_size = 128

unfoldable pub byte_at : List ℕ → ℕ → Run ℕ
byte_at chunk ptr =
    of_option (read_bytes chunk ptr 1) >>= λ bs. elim bs [ [] ↦ fault | b ∷ more ↦ ok b ]

-- What is written behind what stands in `out`.
unfoldable pub put : List ℕ → List ℕ → Run (List ℕ)
put out bs = if leb (length out + length bs) out_size then ok (out ++ bs) else fault

-- A label of so many bytes, and the dot behind it unless the name ends.
unfoldable pub take_label : List ℕ → ℕ → ℕ → List ℕ → Run (List ℕ)
unfolding byte_at put
take_label chunk ptr flag out = do
  label ← of_option (read_bytes chunk (ptr + 1) flag)
  out' ← put out label
  next ← byte_at chunk (ptr + 1 + flag)
  (if next == 0 then ok out' else put out' (dot ∷ []))

-- A round, from the flag byte on; `next` is the rest of the loop, or the call.
unfoldable pub parse_at : (ℕ → List ℕ → Run (List ℕ)) → List ℕ → ℕ → List ℕ → ℕ → Run (List ℕ)
unfolding byte_at is_pointer take_label
parse_at next chunk ptr out flag = elim (flag == 0) [
  | true ↦ ok out
  | false ↦ elim (is_pointer flag) [
    | true ↦ byte_at chunk (ptr + 1) >>= λ low. next (flag % 64 * 256 + low) out
    | false ↦ take_label chunk ptr flag out >>= λ out'. next (ptr + flag + 1) out'
  ]
]

-- The rounds of the loop and of the calls it makes are counted together.
unfoldable pub dns_parse_name : ℕ → List ℕ → ℕ → List ℕ → Run (List ℕ)
unfolding byte_at
dns_parse_name zero chunk ptr out = out_of_fuel
dns_parse_name (suc fuel) chunk ptr out =
    byte_at chunk ptr >>= λ flag. parse_at (dns_parse_name fuel chunk) chunk ptr out flag
