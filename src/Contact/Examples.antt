-- ===== src/Contact/Examples.antt =====
-- The entries of contact.c on a small book.
use voice.Prelude.{◌≡◌, refl, none, some, List, [], ◌∷◌, ◌++◌, arith}
use voice.Prelude.Int.{pos}
use voice.Prelude.Run.{ok}
use voice.Prelude.Text.{codes, str_eq}
use voice.Dll.{null, Heap, write}
use voice.Dll.Chain.{node, Chain}
use voice.Contact.{Person, Book, name_length, phone_length, line_of, delete_entry}
use voice.Contact.Entries.{Entry, IsContact, Holds, Became, delete_entry-erase}
use voice.Contact.Token.{array, paraser_token, Plain, paraser_token-line}

abbrev ann : Person
ann = record { name = codes "ann"; phone = codes "1234" }

abbrev bob : Person
bob = record { name = codes "bob"; phone = codes "5" }

abbrev cells : Heap Person
cells = write (write (λ p. none) 8 (some (node ann 16 null))) 16 (some (node bob null 8))

abbrev two : Book
two = record { nnode = 8; count = 2; heap = cells }

abbrev entries : List Entry
entries = (8, ann) ∷ (16, bob) ∷ []

two-Chain : Chain cells null null entries
two-Chain = ((λ e. omega (arith, e)), refl, refl, ((λ e. omega (arith, e)), refl, refl, tt))

two-IsContact : IsContact two entries
two-IsContact = record { list = record { head = refl; chain = two-Chain }; bound = omega arith }

two-Holds : Holds two (ann ∷ bob ∷ [])
two-Holds = (entries, two-IsContact, refl)

ann-Plain : Plain ann
ann-Plain = record {
  name = ground arith;
  phone = ground arith;
  name_fits = omega arith;
  phone_fits = omega arith;
}

bob-Plain : Plain bob
bob-Plain = record {
  name = ground arith;
  phone = ground arith;
  name_fits = omega arith;
  phone_fits = omega arith;
}

delete_ann : Became (bob ∷ []) (pos 0) tt (delete_entry (codes "ann") (some two))
unfolding str_eq
delete_ann = delete_entry-erase two (ann ∷ bob ∷ []) (codes "ann") two-Holds (omega arith)

token_ann :
    paraser_token (line_of ann ++ 0 ∷ []) 22
    ≡ ok (pos 0, array name_length (codes "ann"), array phone_length (codes "1234" ++ 10 ∷ []))
token_ann = paraser_token-line ann (0 ∷ []) ann-Plain
