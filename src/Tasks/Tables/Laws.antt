-- ===== src/Tasks/Tables/Laws.antt =====
-- Lemmas on the tables: rows by task and by generation, and the states by task.
use acgps_public.Prelude.{
  ◌≡◌, refl, ap, ap₂, sym, subst, ◌∙◌, inl, inr, ℕ, String, Bool, true, false, ◌&&◌, none, some,
  List, [], ◌∷◌, ◌==◌, eq_refl, arith, nat_eq, Bool-cases, if◌then◌else◌,
}
use acgps_public.Py.Laws.{eq_of_==}
use acgps_public.Py.Value.{lookup}
use acgps_public.Tasks.Tables.{Row, of_task, of_generation, of_sequence, event_at, upsert}

nat_eq_refl : (n : ℕ) → nat_eq n n ≡ true
nat_eq_refl n = ground arith

nat_eq-eq-true : (m n : ℕ) → nat_eq m n ≡ true → m ≡ n
nat_eq-eq-true m n h = ground arith

module _ {Text : Type 0} where
  pub lookup-upsert :
      (k : String) (v : Text) (d : List (String × Text)) → lookup k (upsert k v d) ≡ some v
  unfolding lookup upsert
  lookup-upsert k v [] = rw (eq_refl k) refl
  lookup-upsert k v ((j, w) ∷ d) = elim (Bool-cases (k == j)) [
    | inl same ↦ rw (same, eq_refl k) refl
    | inr other ↦ rw (other, other, lookup-upsert k v d) refl
  ]

  pub lookup-upsert-other :
      (j k : String) (v : Text) (d : List (String × Text))
      → (j == k) ≡ false
      → lookup j (upsert k v d) ≡ lookup j d
  unfolding lookup upsert
  lookup-upsert-other j k v [] h = rw h refl
  lookup-upsert-other j k v ((i, w) ∷ d) h = elim (Bool-cases (k == i)) [
    | inl same ↦
        let e : k ≡ i = eq_of_== k i same in rw (same, h, subst (λ q. (j == q) ≡ false) e h) refl
    | inr other ↦ elim (Bool-cases (j == i)) [
      | inl here ↦ rw (other, here) refl
      | inr there ↦ rw (other, there, lookup-upsert-other j k v d h) refl
    ]
  ]

  pub of_task-same :
      (k : String) (r : Row Text) (rs : List (Row Text))
      → r.task_id ≡ k
      → of_task k (r ∷ rs) ≡ r ∷ of_task k rs
  unfolding of_task
  of_task-same k r rs e = rw (subst (λ q. (r.task_id == q) ≡ true) e (eq_refl r.task_id)) refl

  pub of_task-other :
      (k : String) (r : Row Text) (rs : List (Row Text))
      → (r.task_id == k) ≡ false
      → of_task k (r ∷ rs) ≡ of_task k rs
  unfolding of_task
  of_task-other k r rs h = rw h refl

  pub of_generation-same :
      (g : ℕ) (r : Row Text) (rs : List (Row Text))
      → r.generation ≡ g
      → of_generation g (r ∷ rs) ≡ r ∷ of_generation g rs
  unfolding of_generation
  of_generation-same g r rs e = rw (same r.generation g e) refl
    where
      same : (m n : ℕ) → m ≡ n → nat_eq m n ≡ true
      same m n e = ground arith

  pub of_sequence-here :
      (n : ℕ) (r : Row Text) (rs : List (Row Text))
      → r.sequence ≡ n
      → of_sequence n (r ∷ rs) ≡ some r.event_json
  unfolding of_sequence
  of_sequence-here n r rs e = rw (same r.sequence n e) refl
    where
      same : (m n : ℕ) → m ≡ n → nat_eq m n ≡ true
      same m n e = ground arith

  -- The row at a coordinate: the last one, if it has the coordinate, or an earlier one.
  pub event_at-cons :
      (k : String) (g n : ℕ) (r : Row Text) (rs : List (Row Text))
      → event_at k g n (r ∷ rs) ≡ (
          if r.task_id == k && nat_eq r.generation g && nat_eq r.sequence n
          then some r.event_json
          else event_at k g n rs)
  unfolding event_at of_task of_generation of_sequence
  event_at-cons k g n r rs = elim (Bool-cases (r.task_id == k)) [
    | inr other ↦ rw other refl
    | inl same ↦ elim (Bool-cases (nat_eq r.generation g)) [
      | inr elsewhere ↦ rw (same, elsewhere) refl
      | inl here ↦ rw (same, here) refl
    ]
  ]

  pub event_at-here :
      (r : Row Text) (rs : List (Row Text))
      → event_at r.task_id r.generation r.sequence (r ∷ rs) ≡ some r.event_json
  event_at-here r rs =
      event_at-cons r.task_id r.generation r.sequence r rs
      ∙ rw (eq_refl r.task_id, nat_eq_refl r.generation, nat_eq_refl r.sequence) refl

  -- A row at another coordinate hides none of the earlier ones.
  pub event_at-kept :
      (k : String) (g n : ℕ) (r : Row Text) (rs : List (Row Text)) {t : Text}
      → event_at r.task_id r.generation r.sequence rs ≡ none
      → event_at k g n rs ≡ some t
      → event_at k g n (r ∷ rs) ≡ some t
  event_at-kept k g n r rs {t} missing found =
      elim (Bool-cases (r.task_id == k && nat_eq r.generation g && nat_eq r.sequence n)) [
        | inr other ↦ event_at-cons k g n r rs ∙ rw other found
        | inl here ↦
            let (same_task, rest) = both _ _ here in
            absurd (
              none-some (
                subst (λ o. o ≡ some t)
                  (ap (λ q. event_at q g n rs) (sym (eq_of_== r.task_id k (both _ _ same_task).0))
                    ∙ ap₂ (λ x y. event_at r.task_id x y rs)
                        (sym (nat_eq-eq-true r.generation g (both _ _ same_task).1))
                        (sym (nat_eq-eq-true r.sequence n rest))
                    ∙ missing)
                  found))
      ]
    where
      both : (a b : Bool) → (a && b) ≡ true → (a ≡ true) × (b ≡ true)
      both true b h = (refl, h)
      both false b h = absurd (cc)

      none-some : {u : Text} → none ≡ some u → ⊥
      none-some p = cc
