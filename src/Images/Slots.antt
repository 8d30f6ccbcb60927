-- ===== src/Images/Slots.antt =====
-- The pool of connections: what get_conn and release_conn do to the slots.
use voice.Prelude.{
  ℕ, ◌≡◌, ◌≢◌, refl, ap, sym, subst, ◌∙◌, Bool, true, false, List, [], ◌∷◌, map, ◌==◌, ==_iff,
  ==_ne, ==_refl, if◌then◌else◌, Bool-cases, inl, inr,
}
use voice.Images.{ConnSlot, get_conn, release_conn}

abbrev pub conns : List ConnSlot → List ℕ
conns = map (λ (s : ConnSlot). s.conn)

abbrev pub has_conn : ℕ → List ℕ → Bool
has_conn c [] = false
has_conn c (d ∷ ds) = if d == c then true else has_conn c ds

-- The connections differ from one another; NULL may stand in several slots.
abbrev pub Distinct : List ℕ → Type 0
Distinct [] = Unit
Distinct (c ∷ cs) = (c ≢ 0 → has_conn c cs ≡ false) × Distinct cs

abbrev pub is_used : ℕ → List ConnSlot → Bool
is_used c [] = false
is_used c (s ∷ slots) = if s.conn == c then s.used else is_used c slots

-- What get_conn leaves: a connection that was free is used now, and the others are as they were.
pub record Got (slots : List ConnSlot) (r : ℕ × List ConnSlot) : Type 0 where
  pub kept : conns r.1 ≡ conns slots
  pub known : r.0 ≢ 0 → has_conn r.0 (conns slots) ≡ true
  pub free : r.0 ≢ 0 → is_used r.0 slots ≡ false
  pub taken : r.0 ≢ 0 → is_used r.0 r.1 ≡ true
  pub others : (d : ℕ) → d ≢ r.0 → is_used d r.1 ≡ is_used d slots

if_true {ℓ} : {A : Type ℓ} (b : Bool) (x y : A) → b ≡ true → (if b then x else y) ≡ x
if_true b x y e = rw (e)

if_false {ℓ} : {A : Type ℓ} (b : Bool) (x y : A) → b ≡ false → (if b then x else y) ≡ y
if_false b x y e = rw (e)

-- The first slot is used, and the connection comes from behind it.
taken_behind :
    (s : ConnSlot) (slots : List ConnSlot) (r : ℕ × List ConnSlot)
    → (s.conn ≢ 0 → has_conn s.conn (conns slots) ≡ false)
    → s.used ≡ true
    → Got slots r
    → Got (s ∷ slots) (r.0, s ∷ r.1)
taken_behind s slots r apart used g = record {
  kept = ap (λ (ds : List ℕ). s.conn ∷ ds) g.kept;
  known = λ ne. elim (Bool-cases (s.conn == r.0)) [
    | inl q ↦ if_true _ _ _ q
    | inr q ↦ if_false _ _ _ q ∙ g.known ne
  ];
  free = λ ne. elim (Bool-cases (s.conn == r.0)) [
    | inl q ↦
        let same = (==_iff s.conn r.0).0 q in
        absurd
          (clash ne (subst (λ (c : ℕ). c ≢ 0 → has_conn c (conns slots) ≡ false) same apart ne))
    | inr q ↦ if_false _ _ _ q ∙ g.free ne
  ];
  taken = λ ne. elim (Bool-cases (s.conn == r.0)) [
    | inl q ↦ if_true _ _ _ q ∙ used
    | inr q ↦ if_false _ _ _ q ∙ g.taken ne
  ];
  others = λ d ne. ap (λ (b : Bool). if s.conn == d then s.used else b) (g.others d ne);
}
  where
    clash : r.0 ≢ 0 → has_conn r.0 (conns slots) ≡ false → ⊥
    clash ne e = true_false (sym (g.known ne) ∙ e)
      where
        true_false : true ≡ false → ⊥
        true_false q = cc

taken_here :
    (s : ConnSlot) (slots : List ConnSlot)
    → s.used ≡ false
    → Got (s ∷ slots) (s.conn, record s { used = true } ∷ slots)
taken_here s slots e = record {
  kept = refl;
  known = λ ne. if_true _ _ _ (==_refl s.conn);
  free = λ ne. if_true _ _ _ (==_refl s.conn) ∙ e;
  taken = λ ne. if_true _ _ _ (==_refl s.conn);
  others = λ d ne.
      let other = ==_ne s.conn d (λ q. ne (sym q)) in
      if_false _ _ _ other ∙ sym (if_false _ _ _ other);
}

pub get_conn-Got : (slots : List ConnSlot) → Distinct (conns slots) → Got slots (get_conn slots)
unfolding get_conn
get_conn-Got [] h = record {
  kept = refl;
  known = λ ne. absurd (ne refl);
  free = λ ne. refl;
  taken = λ ne. absurd (ne refl);
  others = λ d ne. refl;
}
get_conn-Got (s ∷ slots) h = elim (Bool-cases s.used) [
  | inl e ↦
      subst (Got (s ∷ slots)) (sym (if_true s.used _ _ e))
        (taken_behind s slots (get_conn slots) h.0 e (get_conn-Got slots h.1))
  | inr e ↦ subst (Got (s ∷ slots)) (sym (if_false s.used _ _ e)) (taken_here s slots e)
]

-- release_conn frees at most the slots of its connection.
pub conns-release_conn :
    (conn : ℕ) (slots : List ConnSlot) → conns (release_conn conn slots) ≡ conns slots
unfolding release_conn
conns-release_conn conn [] = refl
conns-release_conn conn (s ∷ slots) = elim (Bool-cases (s.conn == conn)) [
  | inl e ↦
      ap conns (
        if_true (s.conn == conn) (record s { used = false } ∷ slots) (s ∷ release_conn conn slots)
          e)
  | inr e ↦
      ap conns (
        if_false (s.conn == conn) (record s { used = false } ∷ slots) (s ∷ release_conn conn slots)
          e)
      ∙ ap (λ (ds : List ℕ). s.conn ∷ ds) (conns-release_conn conn slots)
]

pub is_used-release_conn :
    (conn d : ℕ) (slots : List ConnSlot)
    → d ≢ conn
    → is_used d (release_conn conn slots) ≡ is_used d slots
unfolding release_conn
is_used-release_conn conn d [] ne = refl
is_used-release_conn conn d (s ∷ slots) ne = elim (Bool-cases (s.conn == conn)) [
  | inl e ↦
      let other = ==_ne s.conn d (λ q. ne (sym q ∙ (==_iff s.conn conn).0 e)) in
      ap (is_used d) (
        if_true (s.conn == conn) (record s { used = false } ∷ slots) (s ∷ release_conn conn slots)
          e)
      ∙ if_false _ _ _ other
      ∙ sym (if_false _ _ _ other)
  | inr e ↦
      ap (is_used d) (
        if_false (s.conn == conn) (record s { used = false } ∷ slots) (s ∷ release_conn conn slots)
          e)
      ∙ ap (λ (b : Bool). if s.conn == d then s.used else b) (is_used-release_conn conn d slots ne)
]
