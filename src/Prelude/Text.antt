-- ===== src/Prelude/Text.antt =====
-- Texts as lists of character codes, and the C library's tests on them.
use Prim.Native.Nat.{ℕ, zero, suc, ◌≤◌}
use Prim.Native.Char.{code}
use Prim.Native.String.{String}
use mathlib.Core.Path.{◌≡◌, refl}
use mathlib.Core.Bool.{Bool, true, false, ◌&&◌, ◌||◌}
use mathlib.Core.Option.{Option, none, some}
use mathlib.Core.List.{List, [], ◌∷◌, ◌++◌}
use native.Mathlib.Omega.{arith}
use voice.Prelude.Run.{Run, ok, fault}
use voice.Prelude.Tests.{◌==◌, ==_refl, ==_ne, Bool-cases, ltb, if◌then◌else◌}
use voice.Prelude.Lists.{All, length, drop}
use mathlib.Core.Logic.{◌≢◌, inl, inr}

-- The codes of an ASCII literal.
abbrev pub codes : String → List ℕ
codes String.[] = []
codes (String.◌∷◌ c s) = code c ∷ codes s

-- strncmp(s, p, strlen(p)) == 0.
unfoldable pub has_prefix : List ℕ → List ℕ → Bool
has_prefix [] s = true
has_prefix (p ∷ ps) [] = false
has_prefix (p ∷ ps) (c ∷ s) = p == c && has_prefix ps s

-- strstr(s, p) != NULL.
unfoldable pub strstr : List ℕ → List ℕ → Bool
unfolding has_prefix
strstr [] p = has_prefix p []
strstr (c ∷ s) p = has_prefix p (c ∷ s) || strstr s p

-- The characters before the terminating NUL; `none` when the buffer has none.
unfoldable pub c_string : List ℕ → Option (List ℕ)
c_string [] = none
c_string (c ∷ s) = elim (c == 0) [
  | true ↦ some []
  | false ↦ elim (c_string s) [ none ↦ none | some t ↦ some (c ∷ t) ]
]

-- Whether there is a NUL, as printf's %s needs it.
unfoldable pub has_nul : List ℕ → Bool
has_nul [] = false
has_nul (c ∷ s) = c == 0 || has_nul s

pub has_prefix-append : (p s : List ℕ) → has_prefix p (p ++ s) ≡ true
unfolding has_prefix
has_prefix-append [] s = refl
has_prefix-append (c ∷ p) s = rw (==_refl c, has_prefix-append p s)

pub c_string-append : (s rest : List ℕ) → All (λ c. c ≢ 0) s → c_string (s ++ 0 ∷ rest) ≡ some s
unfolding c_string
c_string-append [] rest h = refl
c_string-append (c ∷ s) rest h =
    rw (==_ne c 0 h.0, c_string) (rw (c_string-append s rest h.1, c_string))

pub c_string-none : (s : List ℕ) → All (λ c. c ≢ 0) s → c_string s ≡ none
unfolding c_string
c_string-none [] h = refl
c_string-none (c ∷ s) h = rw (==_ne c 0 h.0, c_string) (rw (c_string-none s h.1, c_string))

pub c_string-behind :
    (s t text : List ℕ)
    → c_string t ≡ some text
    → (text' : List ℕ) × (c_string (s ++ t) ≡ some text')
unfolding c_string
c_string-behind [] t text e = (text, e)
c_string-behind (c ∷ s) t text e =
    let (text', e') = c_string-behind s t text e in
    elim (Bool-cases (c == 0)) [
      | inl q ↦ ([], rw (q, c_string))
      | inr q ↦ (c ∷ text', rw (q, c_string) (rw (e', c_string)))
    ]

pub c_string-drop :
    (k : ℕ) (s t text : List ℕ)
    → k ≤ length s
    → c_string t ≡ some text
    → (text' : List ℕ) × (c_string (drop k (s ++ t)) ≡ some text')
c_string-drop zero s t text h e = c_string-behind s t text e
c_string-drop (suc k) [] t text h e = absurd (omega (arith, h))
c_string-drop (suc k) (c ∷ s) t text h e = c_string-drop k s t text (omega (arith, h)) e

-- strcmp(s, t) == 0.
unfoldable pub str_eq : List ℕ → List ℕ → Bool
str_eq [] [] = true
str_eq [] (d ∷ t) = false
str_eq (c ∷ s) [] = false
str_eq (c ∷ s) (d ∷ t) = c == d && str_eq s t

pub str_eq_refl : (s : List ℕ) → str_eq s s ≡ true
unfolding str_eq
str_eq_refl [] = refl
str_eq_refl (c ∷ s) = rw (==_refl c, str_eq_refl s)

pub eq-of-str_eq : (s t : List ℕ) → str_eq s t ≡ true → s ≡ t
unfolding str_eq
eq-of-str_eq [] [] e = refl
eq-of-str_eq [] (d ∷ t) e = cc
eq-of-str_eq (c ∷ s) [] e = cc
eq-of-str_eq (c ∷ s) (d ∷ t) e = ground (arith, eq-of-str_eq s t)

-- A directive `%s` of `scanf` into an array of `cap` bytes: a word that leaves no room for the NUL is
-- written past its end.
unfoldable pub scan_word : ℕ → List ℕ → Run (List ℕ)
scan_word cap word = if ltb (length word) cap then ok word else fault
