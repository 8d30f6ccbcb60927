-- ===== src/Images/Tasks.antt =====
-- What the threads keep: each has its own connection, and no task is lost or done twice.
use voice.Prelude.{
  ℕ, zero, suc, ◌+◌, ◌≡◌, ◌≢◌, refl, ap, sym, subst, ◌∙◌, true, false, some, List, [], ◌∷◌, arith,
  map, some_injective, inl, inr, get_elem?, set, set_cases, occurrences,
}
use voice.Images.{
  ConnSlot, get_conn, release_conn, Doing, looping, over, fetched, connected, ImageWorker, Images,
}
use voice.Images.Slots.{
  conns, Distinct, is_used, Got, get_conn-Got, conns-release_conn, is_used-release_conn,
}

-- The connection of a worker, 0 for none.
abbrev pub holds : Doing → ℕ
holds looping = 0
holds over = 0
holds (fetched t) = 0
holds (connected t conn) = conn

-- How often a task is in the worker's hands.
abbrev pub hand : ℕ → Doing → ℕ
hand t looping = 0
hand t over = 0
hand t (fetched u) = occurrences t (u ∷ [])
hand t (connected u conn) = occurrences t (u ∷ [])

abbrev pub in_hands : ℕ → List ImageWorker → ℕ
in_hands t [] = 0
in_hands t (w ∷ ws) = hand t w.doing + in_hands t ws

abbrev pub written_tasks : List (ℕ × ℕ) → List ℕ
written_tasks = map (λ (p : ℕ × ℕ). p.0)

-- The connection that a worker holds is used, and no other worker holds it.
pub record Held (workers : List ImageWorker) (slots : List ConnSlot) : Type 0 where
  pub distinct : Distinct (conns slots)
  pub used :
      (k : ℕ) (w : ImageWorker)
      → get_elem? workers k ≡ some w
      → holds w.doing ≢ 0
      → is_used (holds w.doing) slots ≡ true
  pub apart :
      (j k : ℕ) (v w : ImageWorker)
      → get_elem? workers j ≡ some v
      → get_elem? workers k ≡ some w
      → holds v.doing ≢ 0
      → holds v.doing ≡ holds w.doing
      → j ≡ k

-- A task that was pushed waits, is in one worker's hands, was written, or was dropped, as often as it was
-- pushed.
pub record IsImages (s : Images) : Type 0 where
  pub held : Held s.workers s.slots
  pub account :
      (t : ℕ)
      → occurrences t s.tasks
          + in_hands t s.workers
          + occurrences t (written_tasks s.written)
          + occurrences t s.dropped
        ≡ occurrences t s.pushed

pub in_hands-set :
    (t : ℕ) (ws : List ImageWorker) (k : ℕ) (w w' : ImageWorker)
    → get_elem? ws k ≡ some w
    → in_hands t (set ws k w') + hand t w.doing ≡ in_hands t ws + hand t w'.doing
in_hands-set t [] k w w' e = cc
in_hands-set t (v ∷ ws) zero w w' e =
    omega (arith, ap (λ (u : ImageWorker). hand t u.doing) (some_injective e))
in_hands-set t (v ∷ ws) (suc k) w w' e = omega (arith, in_hands-set t ws k w w' e)

-- One worker goes on, and the slots change with it.
module _ {workers : List ImageWorker} {slots : List ConnSlot} (h : Held workers slots) (k : ℕ)
    (w : ImageWorker) (e : get_elem? workers k ≡ some w) where
  abbrev to : Doing → ImageWorker
  to doing = record w { doing = doing }

  updated :
      (doing : Doing) (slots' : List ConnSlot)
      → Distinct (conns slots')
      → (holds doing ≢ 0 → is_used (holds doing) slots' ≡ true)
      → ((j : ℕ) (v : ImageWorker)
          → j ≢ k
          → get_elem? workers j ≡ some v
          → holds v.doing ≢ 0
          → (is_used (holds v.doing) slots' ≡ true) × (holds v.doing ≢ holds doing))
      → Held (set workers k (to doing)) slots'
  updated doing slots' distinct own others = record {
    distinct = distinct;
    used = λ j v at ne. elim (set_cases workers k j (to doing) v at) [
      | inl (_, is) ↦
          subst (λ (u : ImageWorker). holds u.doing ≢ 0 → is_used (holds u.doing) slots' ≡ true)
            (sym is) own ne
      | inr (other, there) ↦ (others j v other there ne).0
    ];
    apart = λ i j u v at_i at_j ne same. elim (set_cases workers k i (to doing) u at_i) [
      | inl (i_is, u_is) ↦ elim (set_cases workers k j (to doing) v at_j) [
        | inl (j_is, v_is) ↦ i_is ∙ sym j_is
        | inr (other, there) ↦
            let doing_is = ap (λ (x : ImageWorker). holds x.doing) u_is in
            absurd ((others j v other there (λ z. ne (same ∙ z))).1 (sym same ∙ doing_is))
      ]
      | inr (other, there) ↦ elim (set_cases workers k j (to doing) v at_j) [
        | inl (j_is, v_is) ↦
            absurd
              ((others i u other there ne).1 (same ∙ ap (λ (x : ImageWorker). holds x.doing) v_is))
        | inr (other', there') ↦ h.apart i j u v there there' ne same
      ]
    ];
  }

  -- Without a connection.
  pub goes_on : (doing : Doing) → holds doing ≡ 0 → Held (set workers k (to doing)) slots
  goes_on doing none_held =
      updated doing slots h.distinct (λ ne. absurd (ne none_held))
        (λ j v other there ne. (h.used j v there ne, λ q. ne (q ∙ none_held)))

  pub gets : (t : ℕ) → Held (set workers k (to (connected t (get_conn slots).0))) (get_conn slots).1
  gets t =
      updated (connected t (get_conn slots).0) (get_conn slots).1
        (subst Distinct (sym got.kept) h.distinct) got.taken
        (λ j v other there ne.
          let differs = new_one (holds v.doing) ne (h.used j v there ne) in
          (got.others (holds v.doing) differs ∙ h.used j v there ne, differs))
    where
      got : Got slots (get_conn slots)
      got = get_conn-Got slots h.distinct

      new_one : (d : ℕ) → d ≢ 0 → is_used d slots ≡ true → d ≢ (get_conn slots).0
      new_one d ne in_use q =
          true_false (sym in_use ∙ ap (λ (c : ℕ). is_used c slots) q ∙ got.free (λ z. ne (q ∙ z)))
        where
          true_false : true ≡ false → ⊥
          true_false r = cc

  pub gives_back :
      (t conn : ℕ)
      → w.doing ≡ connected t conn
      → Held (set workers k (to looping)) (release_conn conn slots)
  gives_back t conn doing =
      updated looping (release_conn conn slots)
        (subst Distinct (sym (conns-release_conn conn slots)) h.distinct) (λ ne. absurd (ne refl))
        (λ j v other there ne.
          let own = ap holds doing in
          (
            is_used-release_conn conn (holds v.doing) slots
                  (λ q. other (h.apart j k v w there e ne (q ∙ sym own)))
                ∙ h.used j v there ne,
            ne,
          ))
