-- ===== src/Images/Turns.antt =====
-- What a turn of a worker keeps.
use voice.Prelude.{
  ℕ, ◌+◌, ◌≤◌, ◌≡◌, refl, ap, sym, subst, ◌∙◌, Bool, Option, some, List, [], ◌∷◌, arith,
  if◌then◌else◌, Bool-cases, inl, inr, get_elem?, set, occurrences, occurrences-append,
}
use voice.Prelude.Run.{Run, ok}
use voice.Images.{
  file_image_length, get_conn, release_conn, Doing, looping, over, fetched, connected, ImageWorker,
  Images, now, take_task,
}
use voice.Images.Slots.{}
use voice.Images.Tasks.{
  holds, hand, in_hands, written_tasks, IsImages, in_hands-set, goes_on, gets, gives_back,
}

-- Every file can be opened and fits the buffer of task_entry.
abbrev pub FilesFit : (ℕ → Option ℕ) → Type 0
FilesFit files = (t : ℕ) → (n : ℕ) × (files t ≡ some n) × (n ≤ file_image_length)

-- What a step leaves.
pub record Keeps (r : Run Images) : Type 0 where
  pub after : Images
  pub done : r ≡ ok after
  pub images : IsImages after

module _ (s : Images) (v : IsImages s) (k : ℕ) (w : ImageWorker)
    (e : get_elem? s.workers k ≡ some w) where
  -- The worker goes on without a connection, and the tasks stay where they are.
  only_moves :
      (doing : Doing)
      → holds doing ≡ 0
      → ((t : ℕ) → hand t doing ≡ hand t w.doing)
      → Keeps (ok (now k w doing s))
  only_moves doing none_held same = record {
    after = now k w doing s;
    done = refl;
    images = record {
      held = goes_on v.held k w e doing none_held;
      account = λ t.
          omega (
            arith,
            v.account t,
            same t,
            in_hands-set t s.workers k w (record w { doing = doing }) e,
          );
    };
  }

  takes :
      (u : ℕ) (tasks : List ℕ)
      → s.tasks ≡ u ∷ tasks
      → w.doing ≡ looping
      → Keeps (ok (now k w (fetched u) (record s { tasks = tasks })))
  takes u tasks q at = record {
    after = now k w (fetched u) (record s { tasks = tasks });
    done = refl;
    images = record {
      held = goes_on v.held k w e (fetched u) refl;
      account = λ t.
          first_or_not t (in_hands-set t s.workers k w (record w { doing = fetched u }) e)
            (ap (hand t) at) (ap (occurrences t) q ∙ occurrences-append t (u ∷ []) tasks);
    };
  }
    where
      first_or_not :
          (t : ℕ)
          → in_hands t (set s.workers k (record w { doing = fetched u })) + hand t w.doing
            ≡ in_hands t s.workers + occurrences t (u ∷ [])
          → hand t w.doing ≡ 0
          → occurrences t s.tasks ≡ occurrences t (u ∷ []) + occurrences t tasks
          → occurrences t tasks
              + in_hands t (set s.workers k (record w { doing = fetched u }))
              + occurrences t (written_tasks s.written)
              + occurrences t s.dropped
            ≡ occurrences t s.pushed
      first_or_not t workers none_in_hand split =
          omega (arith, v.account t, workers, none_in_hand, split)

  pub take_task-Keeps :
      (tasks : List ℕ) → s.tasks ≡ tasks → w.doing ≡ looping → Keeps (ok (take_task k w tasks s))
  unfolding take_task
  take_task-Keeps [] q at = elim (Bool-cases w.terminate) [
    | inl stop ↦
        subst (λ (b : Bool). Keeps (ok (if b then now k w over s else s))) (sym stop)
          (only_moves over refl (λ t. sym (ap (hand t) at)))
    | inr on ↦
        subst (λ (b : Bool). Keeps (ok (if b then now k w over s else s))) (sym on)
          (record { after = s; done = refl; images = v })
  ]
  take_task-Keeps (u ∷ tasks) q at = elim (Bool-cases w.terminate) [
    | inl stop ↦
        subst
          (λ (b : Bool).
            Keeps
              (ok (if b then now k w over s else now k w (fetched u) (record s { tasks = tasks }))))
          (sym stop) (only_moves over refl (λ t. sym (ap (hand t) at)))
    | inr on ↦
        subst
          (λ (b : Bool).
            Keeps
              (ok (if b then now k w over s else now k w (fetched u) (record s { tasks = tasks }))))
          (sym on) (takes u tasks q at)
  ]

  pub enters :
      (t : ℕ)
      → w.doing ≡ fetched t
      → Keeps (
          ok (
            now k w (connected t (get_conn s.slots).0) (record s { slots = (get_conn s.slots).1 })))
  enters t at = record {
    after = now k w (connected t (get_conn s.slots).0) (record s { slots = (get_conn s.slots).1 });
    done = refl;
    images = record {
      held = gets v.held k w e t;
      account = λ u. omega (
        arith,
        v.account u,
        ap (hand u) at,
        in_hands-set u s.workers k w (record w { doing = connected t (get_conn s.slots).0 }) e,
      );
    };
  }

  pub leaves :
      (t conn : ℕ)
      → w.doing ≡ connected t conn
      → Keeps (
          ok (
            now k w looping
              (record s { slots = release_conn conn s.slots; written = (t, conn) ∷ s.written })))
  leaves t conn at = record {
    after =
        now k w looping
          (record s { slots = release_conn conn s.slots; written = (t, conn) ∷ s.written });
    done = refl;
    images = record {
      held = gives_back v.held k w e t conn at;
      account = λ u. omega (
        arith,
        v.account u,
        ap (hand u) at,
        in_hands-set u s.workers k w (record w { doing = looping }) e,
        occurrences-append u (t ∷ []) (written_tasks s.written),
      );
    };
  }
