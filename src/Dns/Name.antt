-- ===== src/Dns/Name.antt =====
-- Names: what the parser makes of what convert_domain writes, and of compressed names.
use voice.Prelude.{
  ℕ, zero, suc, ◌+◌, ◌*◌, ◌%◌, ◌≤◌, ◌<◌, ◌≡◌, ◌≢◌, refl, ap, sym, subst, ◌∙◌, Bool, true, false,
  some, List, [], ◌∷◌, ◌++◌, arith, ◌==◌, ==_ne, length, length-append, append_assoc, append-nil,
}
use voice.Prelude.Run.{Run, ok, out_of_fuel}
use voice.Prelude.Memory.{read_bytes, leb-true}
use voice.Dns.{dot, is_pointer, out_size, byte_at, put, take_label, parse_at, dns_parse_name}

-- The text of a name.
abbrev pub join : List (List ℕ) → List ℕ
join [] = []
join (l ∷ []) = l
join (l ∷ m ∷ ls) = l ++ dot ∷ join (m ∷ ls)

-- A name in a message: labels, an end, and jumps to names that stand elsewhere. A jump leads to a
-- label, and so does what follows a label unless the name ends there.
pub data NameAt (chunk : List ℕ) : ℕ → List (List ℕ) → Type 0 where
  end_at : (ptr : ℕ) → byte_at chunk ptr ≡ ok 0 → NameAt chunk ptr []
  label_at :
      (ptr : ℕ) (label : List ℕ) (ls : List (List ℕ))
      → label ≢ []
      → length label < 64
      → byte_at chunk ptr ≡ ok (length label)
      → read_bytes chunk (ptr + 1) (length label) ≡ some label
      → NameAt chunk (ptr + length label + 1) ls
      → NameAt chunk ptr (label ∷ ls)
  jump_at :
      (ptr hi lo : ℕ) (label : List ℕ) (ls : List (List ℕ))
      → hi < 64
      → byte_at chunk ptr ≡ ok (192 + hi)
      → byte_at chunk (ptr + 1) ≡ ok lo
      → NameAt chunk (hi * 256 + lo) (label ∷ ls)
      → NameAt chunk ptr (label ∷ ls)

-- The rounds that a name takes.
abbrev pub rounds : {chunk : List ℕ} {ptr : ℕ} {ls : List (List ℕ)} → NameAt chunk ptr ls → ℕ
rounds (end_at ptr e) = 1
rounds (label_at ptr label ls ne short b r more) = suc (rounds more)
rounds (jump_at ptr hi lo label ls h b l more) = suc (rounds more)

abbrev is_empty : List (List ℕ) → Bool
is_empty [] = true
is_empty (l ∷ ls) = false

-- The first byte of a name says whether it ends there.
record FirstByte (chunk : List ℕ) (ptr : ℕ) (ls : List (List ℕ)) : Type 0 where
  byte : ℕ
  read : byte_at chunk ptr ≡ ok byte
  ends : (byte == 0) ≡ is_empty ls

pub length_ne : (l : List ℕ) → l ≢ [] → length l ≢ 0
length_ne [] ne = absurd (ne refl)
length_ne (c ∷ l) ne = λ e. omega (arith, e)

first_byte :
    (chunk : List ℕ) (ptr : ℕ) (ls : List (List ℕ)) → NameAt chunk ptr ls → FirstByte chunk ptr ls
first_byte chunk _ _ (end_at ptr e) = record { byte = 0; read = e; ends = refl }
first_byte chunk _ _ (label_at ptr l ls ne short b r more) = record {
  byte = length l;
  read = b;
  ends = ==_ne (length l) 0 (length_ne l ne);
}
first_byte chunk _ _ (jump_at ptr hi lo l ls h b low more) = record {
  byte = 192 + hi;
  read = b;
  ends = ground arith;
}

-- A label with what separates it from the rest.
abbrev with_dot : List ℕ → Bool → List ℕ
with_dot label true = label
with_dot label false = label ++ dot ∷ []

put-fits : (out bs : List ℕ) → length out + length bs ≤ out_size → put out bs ≡ ok (out ++ bs)
unfolding put
put-fits out bs h = rw (leb-true (length out + length bs) out_size h)

take_label-reads :
    (chunk : List ℕ) (ptr : ℕ) (label out : List ℕ) (ls : List (List ℕ))
    → read_bytes chunk (ptr + 1) (length label) ≡ some label
    → FirstByte chunk (ptr + 1 + length label) ls
    → length out + length (with_dot label (is_empty ls)) ≤ out_size
    → take_label chunk ptr (length label) out ≡ ok (out ++ with_dot label (is_empty ls))
unfolding take_label
take_label-reads chunk ptr label out [] r next room =
    rw (r, put-fits out label room, next.read, next.ends)
take_label-reads chunk ptr label out (l ∷ ls) r next room = rw (
  r,
  put-fits out label (omega (arith, length-append label (dot ∷ []))),
  next.read,
  next.ends,
  put-fits (out ++ label) (dot ∷ [])
      (omega (arith, length-append label (dot ∷ []), length-append out label)),
  append_assoc out label (dot ∷ []),
)

join-cons : (l : List ℕ) (ls : List (List ℕ)) → join (l ∷ ls) ≡ with_dot l (is_empty ls) ++ join ls
join-cons l [] = sym (append-nil l)
join-cons l (m ∷ ls) = sym (append_assoc l (dot ∷ []) (join (m ∷ ls)))

is_pointer-high : (hi : ℕ) → hi < 64 → is_pointer (192 + hi) ≡ true
unfolding is_pointer
is_pointer-high hi h = ground arith

is_pointer-low : (b : ℕ) → b < 64 → is_pointer b ≡ false
unfolding is_pointer
is_pointer-low b h = ground arith

module _ (next : ℕ → List ℕ → Run (List ℕ)) (chunk : List ℕ) (ptr : ℕ) (out : List ℕ) where
  parse_at-end : parse_at next chunk ptr out 0 ≡ ok out
  unfolding parse_at
  parse_at-end = refl

  parse_at-label :
      (l : List ℕ) (ls : List (List ℕ))
      → l ≢ []
      → length l < 64
      → read_bytes chunk (ptr + 1) (length l) ≡ some l
      → FirstByte chunk (ptr + 1 + length l) ls
      → length out + length (with_dot l (is_empty ls)) ≤ out_size
      → parse_at next chunk ptr out (length l)
        ≡ next (ptr + length l + 1) (out ++ with_dot l (is_empty ls))
  unfolding parse_at
  parse_at-label l ls ne short r first room = rw (
    parse_at,
    ==_ne (length l) 0 (length_ne l ne),
    is_pointer-low (length l) short,
    take_label-reads chunk ptr l out ls r first room,
  )

  parse_at-jump :
      (hi lo : ℕ)
      → hi < 64
      → byte_at chunk (ptr + 1) ≡ ok lo
      → parse_at next chunk ptr out (192 + hi) ≡ next (hi * 256 + lo) out
  unfolding parse_at
  parse_at-jump hi lo h low =
      rw (parse_at, high_ne, is_pointer-high hi h, low) (ap (λ p. next p out) target)
    where
      high_ne : (192 + hi == 0) ≡ false
      high_ne = ground arith

      target : (192 + hi) % 64 * 256 + lo ≡ hi * 256 + lo
      target = omega arith

rounds_pos :
    (chunk : List ℕ) (ptr : ℕ) (ls : List (List ℕ)) (v : NameAt chunk ptr ls) → 1 ≤ rounds v
rounds_pos chunk _ _ (end_at ptr e) = omega arith
rounds_pos chunk _ _ (label_at ptr l ls ne short b r more) = omega arith
rounds_pos chunk _ _ (jump_at ptr hi lo l ls h b low more) = omega arith

-- A name in a message, compressed or not, is written behind what `out` holds, when it fits.
pub dns_parse_name-NameAt :
    (chunk : List ℕ) (ptr : ℕ) (ls : List (List ℕ)) (v : NameAt chunk ptr ls) (fuel : ℕ)
    (out : List ℕ)
    → rounds v ≤ fuel
    → length out + length (join ls) ≤ out_size
    → dns_parse_name fuel chunk ptr out ≡ ok (out ++ join ls)
unfolding dns_parse_name
dns_parse_name-NameAt chunk ptr ls v zero out enough room =
    absurd (omega (arith, rounds_pos chunk ptr ls v))
dns_parse_name-NameAt chunk _ _ (end_at ptr e) (suc fuel) out enough room =
    rw (e) (parse_at-end (dns_parse_name fuel chunk) chunk ptr out ∙ ap ok (sym (append-nil out)))
dns_parse_name-NameAt chunk _ _ (label_at ptr l ls ne short b r more) (suc fuel) out enough room =
    let parts : length (join (l ∷ ls)) ≡ length (with_dot l (is_empty ls)) + length (join ls) =
      ap length (join-cons l ls) ∙ length-append (with_dot l (is_empty ls)) (join ls) in
    rw (b) (
      parse_at-label (dns_parse_name fuel chunk) chunk ptr out l ls ne short r
        (subst (λ p. FirstByte chunk p ls) (omega arith)
          (first_byte chunk (ptr + length l + 1) ls more))
        (omega (arith, parts))
      ∙ dns_parse_name-NameAt chunk (ptr + length l + 1) ls more fuel
          (out ++ with_dot l (is_empty ls)) (omega arith)
          (omega (arith, parts, length-append out (with_dot l (is_empty ls))))
      ∙ ap ok (
          append_assoc out (with_dot l (is_empty ls)) (join ls)
          ∙ ap (λ t. out ++ t) (sym (join-cons l ls))))
dns_parse_name-NameAt chunk _ _ (jump_at ptr hi lo l ls h b low more) (suc fuel) out enough room =
    rw (b) (
      parse_at-jump (dns_parse_name fuel chunk) chunk ptr out hi lo h low
      ∙ dns_parse_name-NameAt chunk (hi * 256 + lo) (l ∷ ls) more fuel out (omega arith) room)

-- A pointer to itself is followed for ever: no number of rounds is enough.
pub dns_parse_name-loop :
    (chunk : List ℕ) (ptr hi lo fuel : ℕ) (out : List ℕ)
    → hi < 64
    → byte_at chunk ptr ≡ ok (192 + hi)
    → byte_at chunk (ptr + 1) ≡ ok lo
    → ptr ≡ hi * 256 + lo
    → dns_parse_name fuel chunk ptr out ≡ out_of_fuel
unfolding dns_parse_name
dns_parse_name-loop chunk ptr hi lo zero out h b low e = refl
dns_parse_name-loop chunk ptr hi lo (suc fuel) out h b low e = rw (b) (
    parse_at-jump (dns_parse_name fuel chunk) chunk ptr out hi lo h low
    ∙ ap (λ p. dns_parse_name fuel chunk p out) (sym e)
    ∙ dns_parse_name-loop chunk ptr hi lo fuel out h b low e)
