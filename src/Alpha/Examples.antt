-- ===== src/Alpha/Examples.antt =====
-- A book with Ann under A and Cy under C.
use voice.Prelude.{◌≡◌, refl, true, none, some, [], ◌∷◌, arith}
use voice.Prelude.Int.{pos}
use voice.Prelude.Run.{ok}
use voice.Prelude.Text.{codes, str_eq}
use voice.Dll.{null}
use voice.Contact.{Person}
use voice.Alpha.{
  AlphaBook, get_index_by_name, alpha_search_entry, alpha_insert_entry, alpha_line_of,
}
use voice.Alpha.Index.{IsAlpha, alpha_search_entry-lookup, alpha_insert_entry-files, set_list}

abbrev ann : Person
ann = record { name = codes "Ann"; phone = codes "12" }

abbrev empty : AlphaBook
empty = record { heads = λ i. null; count = 0; heap = λ p. none }

empty-IsAlpha : IsAlpha empty (λ i. [])
empty-IsAlpha = record {
  list = λ i. record { head = refl; chain = tt };
  bound = λ i. omega arith;
  apart = λ i j p d h. refl;
  filed = λ i. tt;
}

abbrev insert_ann :
    (b : AlphaBook) × (alpha_insert_entry 8 true (codes "Ann") (codes "12") (some empty)
      ≡ ok (some b, pos 0, tt))
    × IsAlpha b (set_list (λ i. []) 0 ((8, ann) ∷ []))
unfolding get_index_by_name
insert_ann =
    alpha_insert_entry-files empty (λ i. []) 0 8 (codes "Ann") (codes "12") empty-IsAlpha
      (λ e. omega (arith, e)) (λ k. refl) refl (omega arith) (omega arith)

search_ann :
    alpha_search_entry (codes "Ann") (some insert_ann.0)
    ≡ ok (some insert_ann.0, pos 0, some (alpha_line_of ann))
unfolding str_eq
search_ann =
    alpha_search_entry-lookup insert_ann.0 (set_list (λ i. []) 0 ((8, ann) ∷ [])) 0 (codes "Ann")
      ann insert_ann.2 (omega arith) refl
