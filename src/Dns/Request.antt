-- ===== src/Dns/Request.antt =====
-- The query that dns_build_request puts together.
use voice.Prelude.{
  ℕ, ◌+◌, ◌≤◌, ◌≡◌, refl, ap, sym, subst, ◌∙◌, append_assoc, append-nil, Option, some, List, [],
  ◌++◌, arith, length, length-append, length-drop, replicate, length-replicate, drop,
}
use voice.Prelude.Run.{ok, ◌>>=◌}
use voice.Prelude.Memory.{read_bytes, write_bytes, be16, write_bytes-append, read_bytes-front}
use voice.Dns.{convert_domain, dns_create_header, dns_create_question, dns_build_request}
use voice.Dns.Domain.{convert_domain-total}

-- A write behind what is written, with room left.
record Wrote (pre src : List ℕ) (room : ℕ) (r : Option (List ℕ)) : Type 0 where
  rest : List ℕ
  done : r ≡ some ((pre ++ src) ++ rest)
  left : length rest + length src ≡ room

write_behind :
    (pre rest src : List ℕ) (off : ℕ)
    → off ≡ length pre
    → length src ≤ length rest
    → Wrote pre src (length rest) (write_bytes (pre ++ rest) off src)
write_behind pre rest src off e h = record {
  rest = drop (length src) rest;
  done = rw (e) (write_bytes-append pre rest src h ∙ ap some (sym (append_assoc pre src _)));
  left = omega (arith, length-drop (length src) rest);
}

read_all : (xs : List ℕ) (n : ℕ) → length xs ≡ n → read_bytes xs 0 n ≡ some xs
read_all xs n e =
    ap (read_bytes xs 0) (sym e)
    ∙ subst (λ t. read_bytes t 0 (length xs) ≡ some xs) (append-nil xs) (read_bytes-front xs [])

-- For a buffer with 18 bytes more than the domain has, the request is the header, the converted domain,
-- the type and the class, and the rest of the buffer; the answer is the number of bytes used.
pub dns_build_request-query :
    (domain : List ℕ) (id rlen : ℕ)
    → length domain + 18 ≤ rlen
    → (name : List ℕ) × (rest : List ℕ) × (convert_domain domain ≡ ok name)
      × ((dns_create_question domain >>= λ q. dns_build_request (dns_create_header id) q rlen)
          ≡ ok (length domain + 18, (((dns_create_header id ++ name) ++ be16 1) ++ be16 1) ++ rest))
unfolding dns_create_header dns_create_question dns_build_request
dns_build_request-query domain id rlen h =
    let (name, converted, size) = convert_domain-total domain in
    let header = dns_create_header id in
    let zeros : List ℕ = replicate rlen 0 in
    let all : length zeros ≡ rlen = length-replicate rlen 0 in
    let w1 = write_behind [] zeros header 0 refl (omega (arith, all)) in
    let w2 = write_behind header w1.rest name 12 refl (omega (arith, all, w1.left, size)) in
    let w3 =
      write_behind (header ++ name) w2.rest (be16 1) (12 + (length domain + 2))
        (omega (arith, size, length-append header name))
        (omega (arith, all, w1.left, w2.left, size)) in
    let w4 =
      write_behind ((header ++ name) ++ be16 1) w3.rest (be16 1) (12 + (length domain + 2) + 2)
        (omega (arith, size, length-append header name, length-append (header ++ name) (be16 1)))
        (omega (arith, all, w1.left, w2.left, w3.left, size)) in
    (
      name,
      w4.rest,
      converted,
      rw (converted, w1.done, read_all name (length domain + 2) size, w2.done, w3.done, w4.done)
          (ap (λ (n : ℕ). ok (n, (((header ++ name) ++ be16 1) ++ be16 1) ++ w4.rest))
            (omega arith)),
    )
