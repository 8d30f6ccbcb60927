-- ===== src/Dns/Domain.antt =====
-- convert_domain: what it writes, and that the parser reads it back.
use voice.Prelude.{
  ℕ, zero, suc, ◌+◌, ◌%◌, ◌≤◌, ◌<◌, ◌≡◌, ◌≢◌, refl, ap, sym, ◌∙◌, some, List, [], ◌∷◌, ◌++◌, arith,
  ◌==◌, ==_ne, Bool-cases, inl, inr, length, length-append, replicate, length-replicate,
  append_assoc, append-nil, All, drop,
}
use voice.Prelude.Run.{ok, of_option}
use voice.Prelude.Memory.{
  read_bytes, write_bytes, write_bytes-front, length-write_bytes, read_bytes-append,
}
use voice.Dns.{
  dot, pieces, tokens_of, onto_first, encode, convert_domain, byte_at, out_size, dns_parse_name,
}
use voice.Dns.Name.{join, NameAt, end_at, label_at, rounds, dns_parse_name-NameAt}

-- What a label of a domain is: some bytes without a dot, less than 64.
pub record IsLabel (l : List ℕ) : Type 0 where
  pub some_bytes : l ≢ []
  pub no_dot : All (λ c. c ≢ dot) l
  pub short : length l < 64

pieces-label : (l : List ℕ) → All (λ c. c ≢ dot) l → pieces l ≡ l ∷ []
pieces-label [] h = refl
pieces-label (c ∷ l) h = rw (==_ne c dot h.0, pieces-label l h.1)

pieces-dot : (l s : List ℕ) → All (λ c. c ≢ dot) l → pieces (l ++ dot ∷ s) ≡ l ∷ pieces s
pieces-dot [] s h = refl
pieces-dot (c ∷ l) s h = rw (==_ne c dot h.0, pieces-dot l s h.1)

pieces-join :
    (l : List ℕ) (ls : List (List ℕ)) → All IsLabel (l ∷ ls) → pieces (join (l ∷ ls)) ≡ l ∷ ls
pieces-join l [] h = pieces-label l h.0.no_dot
pieces-join l (m ∷ ls) h =
    pieces-dot l (join (m ∷ ls)) h.0.no_dot ∙ ap (◌∷◌ l) (pieces-join m ls h.1)

tokens_of-labels : (ls : List (List ℕ)) → All IsLabel ls → tokens_of ls ≡ ls
tokens_of-labels [] h = refl
tokens_of-labels ([] ∷ ls) h = absurd (h.0.some_bytes refl)
tokens_of-labels ((c ∷ l) ∷ ls) h = ap (◌∷◌ (c ∷ l)) (tokens_of-labels ls h.1)

length-encode :
    (l : List ℕ) (ls : List (List ℕ)) → length (encode (l ∷ ls)) ≡ length (join (l ∷ ls)) + 1
length-encode l [] = omega (arith, length-append l [])
length-encode l (m ∷ ls) = omega (
  arith,
  length-append l (encode (m ∷ ls)),
  length-append l (dot ∷ join (m ∷ ls)),
  length-encode m ls,
)

drop_all : (n : ℕ) → drop {A = ℕ} n (replicate n 0) ≡ []
drop_all zero = refl
drop_all (suc n) = drop_all n

-- The domain with these labels, at least one, is written label by label and fills the buffer.
pub convert_domain-join :
    (l : List ℕ) (ls : List (List ℕ))
    → All IsLabel (l ∷ ls)
    → convert_domain (join (l ∷ ls)) ≡ ok (encode (l ∷ ls) ++ 0 ∷ [])
unfolding convert_domain
convert_domain-join l ls h =
    rw
      (
        ap tokens_of (pieces-join l ls h) ∙ tokens_of-labels (l ∷ ls) h,
        sym size,
        write_bytes-front (replicate (length bytes) 0) bytes
            (omega (arith, length-replicate {A = ℕ} (length bytes) 0)),
        drop_all (length bytes),
      )
      (ap ok (append-nil bytes))
  where
    bytes : List ℕ
    bytes = encode (l ∷ ls) ++ 0 ∷ []

    size : length bytes ≡ length (join (l ∷ ls)) + 2
    size = omega (arith, length-append (encode (l ∷ ls)) (0 ∷ []), length-encode l ls)

-- The bytes of the tokens, counted against the pieces.
abbrev weight : List (List ℕ) → ℕ
weight [] = 0
weight (l ∷ ls) = length l + 1 + weight ls

weight-onto :
    (c : ℕ) (ls : List (List ℕ)) → weight ls ≢ 0 → weight (onto_first c ls) ≡ weight ls + 1
weight-onto c [] h = absurd (h refl)
weight-onto c (l ∷ ls) h = omega arith

weight-pieces : (s : List ℕ) → weight (pieces s) ≡ length s + 1
weight-pieces [] = refl
weight-pieces (c ∷ s) =
    let rest = weight-pieces s in
    elim (Bool-cases (c == dot)) [
      | inl e ↦ rw (e) (omega (arith, rest))
      | inr e ↦ rw (e) (omega (arith, rest, weight-onto c (pieces s) (λ z. omega (arith, z, rest))))
    ]

encode_le : (ls : List (List ℕ)) → length (encode (tokens_of ls)) ≤ weight ls
encode_le [] = omega arith
encode_le ([] ∷ ls) = omega (arith, encode_le ls)
encode_le ((c ∷ l) ∷ ls) = omega (arith, encode_le ls, length-append l (encode (tokens_of ls)))

-- Whatever the domain is, convert_domain stays in its buffer, which is two bytes longer.
pub convert_domain-total :
    (domain : List ℕ)
    → (buf : List ℕ) × (convert_domain domain ≡ ok buf) × (length buf ≡ length domain + 2)
unfolding convert_domain
convert_domain-total domain =
    (_, ap of_option fits, (length-write_bytes zeros 0 bytes _ fits).0 ∙ size)
  where
    zeros : List ℕ
    zeros = replicate (length domain + 2) 0

    bytes : List ℕ
    bytes = encode (tokens_of (pieces domain)) ++ 0 ∷ []

    size : length zeros ≡ length domain + 2
    size = length-replicate (length domain + 2) 0

    fits : write_bytes zeros 0 bytes ≡ some (bytes ++ drop (length bytes) zeros)
    fits = write_bytes-front zeros bytes (
        omega (
          arith,
          size,
          length-append (encode (tokens_of (pieces domain))) (0 ∷ []),
          encode_le (pieces domain),
          weight-pieces domain,
        ))

byte_at-append :
    (pre : List ℕ) (b : ℕ) (post : List ℕ) → byte_at (pre ++ b ∷ post) (length pre) ≡ ok b
unfolding byte_at
byte_at-append pre b post = rw (read_bytes-append pre (b ∷ []) post)

-- What `encode` writes is a name, wherever it stands.
abbrev Named : List ℕ → ℕ → List (List ℕ) → Type 0
Named chunk ptr ls = (v : NameAt chunk ptr ls) × (rounds v ≡ suc (length ls))

encode-NameAt :
    (chunk pre post : List ℕ) (ptr : ℕ) (ls : List (List ℕ))
    → All IsLabel ls
    → chunk ≡ pre ++ (encode ls ++ 0 ∷ post)
    → ptr ≡ length pre
    → Named chunk ptr ls
encode-NameAt chunk pre post ptr [] h e p =
    (end_at ptr (rw (e, p) (byte_at-append pre 0 post)), refl)
encode-NameAt chunk pre post ptr (l ∷ ls) h e p =
    let more =
      encode-NameAt chunk (pre ++ length l % 256 ∷ l) post (ptr + length l + 1) ls h.1 (e ∙ regroup)
        (omega (arith, p, length-append pre (length l % 256 ∷ l))) in
    (
      label_at ptr l ls h.0.some_bytes h.0.short
          (rw (e, p) (byte_at-append pre (length l % 256) _ ∙ ap ok (omega (arith, h.0.short))))
          (e_read) more.0,
      ap suc more.1,
    )
  where
    tail : List ℕ
    tail = encode ls ++ 0 ∷ post

    regroup : pre ++ (encode (l ∷ ls) ++ 0 ∷ post) ≡ (pre ++ length l % 256 ∷ l) ++ tail
    regroup =
        rw (append_assoc pre (length l % 256 ∷ l) tail, append_assoc l (encode ls) (0 ∷ post)) refl

    head : List ℕ
    head = pre ++ length l % 256 ∷ []

    behind : chunk ≡ head ++ (l ++ tail)
    behind =
        e
        ∙ rw
            (
              append_assoc pre (length l % 256 ∷ []) (l ++ tail),
              append_assoc l (encode ls) (0 ∷ post),
            )
            refl

    start : ptr + 1 ≡ length head
    start = omega (arith, p, length-append pre (length l % 256 ∷ []))

    e_read : read_bytes chunk (ptr + 1) (length l) ≡ some l
    e_read = rw (behind, start) (read_bytes-append head l tail)

-- A domain of labels that are as IsLabel says, with its dots no longer than dns_parse_name's output, is written
-- by convert_domain and read back by dns_parse_name, wherever it stands in a message, in as many rounds as
-- there are labels and one more.
pub dns_parse_name-convert_domain :
    (pre post : List ℕ) (l : List ℕ) (ls : List (List ℕ))
    → All IsLabel (l ∷ ls)
    → length (join (l ∷ ls)) ≤ out_size
    → (buf : List ℕ) × (convert_domain (join (l ∷ ls)) ≡ ok buf)
      × (dns_parse_name (suc (length (l ∷ ls))) (pre ++ (buf ++ post)) (length pre) []
          ≡ ok (join (l ∷ ls)))
dns_parse_name-convert_domain pre post l ls h room = (
  encode (l ∷ ls) ++ 0 ∷ [],
  convert_domain-join l ls h,
  rw (append_assoc (encode (l ∷ ls)) (0 ∷ []) post) (
      dns_parse_name-NameAt _ (length pre) (l ∷ ls) named.0 (suc (length (l ∷ ls))) []
        (omega (arith, named.1)) (omega (arith, room))),
)
  where
    chunk : List ℕ
    chunk = pre ++ (encode (l ∷ ls) ++ 0 ∷ post)

    named : Named chunk (length pre) (l ∷ ls)
    named = encode-NameAt chunk pre post (length pre) (l ∷ ls) h refl refl
