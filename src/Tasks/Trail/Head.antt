-- ===== src/Tasks/Trail/Head.antt =====
-- The head of a trail in the tables of acgps/workflow_store.py, and what the checks read of it.
use acgps_public.Prelude.{
  ◌≡◌, refl, ap, sym, subst, ◌∙◌, ℕ, ◌+◌, String, Bool, true, false, some, List, [], ◌∷◌, All,
  arith, ltb,
}
use acgps_public.Py.Result.{ok, >>=-eq-ok, ok-injective}
use acgps_public.Py.Value.{pos, Value, int, dict, Dict, Fields, pairs, get, py_eq}
use acgps_public.Workflow.Outcome.{Outside}
use acgps_public.Workflow.Catalog.{Catalog}
use acgps_public.Workflow.AuditEvent.Shape.{IsAuditEvent}
use acgps_public.Workflow.TaskState.Shape.{IsTaskState}
use acgps_public.Workflow.Generation.{is_one}
use acgps_public.Workflow.Passed.{
  IsTextThat, IsPositive, not-eq-false, int-py_eq, is_the_text-eq-true,
}
use acgps_public.Workflow.TaskState.Scalars.{is_scalar}
use acgps_public.Tasks.Json.{Json, loads_json_mapping, validate_sqlite_json_text, read_mapping}
use acgps_public.Tasks.Tables.{Row, of_generation, latest}
use acgps_public.Tasks.Tables.Laws.{of_generation-same}
use acgps_public.Tasks.Commit.{some_of, differences, not_successor}
use acgps_public.Tasks.PairCheck.{generation_of, sequence_of, column_int}
use acgps_public.Tasks.Pair.{text_equal_to}
use acgps_public.Tasks.Trail.{RoundTrip, row_of, Follows, Trail, created, advanced}

pub some_of-eq-false : (bs : List Bool) → some_of bs ≡ false → All (λ b. b ≡ false) bs
unfolding some_of
some_of-eq-false [] h = tt
some_of-eq-false (false ∷ bs) h = (refl, some_of-eq-false bs h)
some_of-eq-false (true ∷ bs) h = absurd (cc)

pub is_one-eq-true : (v : Value) → IsPositive v → is_one v ≡ true → v ≡ int (pos 1)
unfolding py_eq
is_one-eq-true v p h =
    p.is_int
    ∙ ap (λ q. int (pos q)) (int-py_eq p.number_of 1 (subst (λ q. is_one q ≡ true) p.is_int h))

pub sequence_of-int : (d : Dict) {n : ℕ} → get d "sequence" ≡ int (pos n) → sequence_of d ≡ n
unfolding sequence_of
sequence_of-int d e = ap column_int e

generation_of-int : (d : Dict) {n : ℕ} → get d "generation" ≡ int (pos n) → generation_of d ≡ n
unfolding generation_of
generation_of-int d e = ap column_int e

at_sequence :
    (v : Value) {m n : ℕ}
    → IsPositive v
    → m ≡ n
    → py_eq v (int (pos (m + 1))) ≡ true
    → v ≡ int (pos (n + 1))
at_sequence v {m} {n} p at h =
    p.is_int
    ∙ ap (λ q. int (pos q))
        (int-py_eq p.number_of (m + 1) (subst (λ q. py_eq q (int (pos (m + 1))) ≡ true) p.is_int h))
    ∙ ap (λ q. int (pos (q + 1))) at

not_below : {m n p : ℕ} → m ≡ n → p ≡ n + 1 → ltb p m ≡ false
not_below {m} {n} {p} e f = ground arith

module _ (json : Json) (law : RoundTrip json) where
  -- What is read from the text of a mapping.
  pub loads_json_mapping-dumps :
      (d : Fields) (code path : String) {f : Fields}
      → loads_json_mapping json (json.dumps (dict d)) code path ≡ ok f
      → law.normal d ≡ f
  unfolding loads_json_mapping read_mapping
  loads_json_mapping-dumps d code path {f} h =
      let (_, _, h₁) =
        >>=-eq-ok (validate_sqlite_json_text json (json.dumps (dict d)) code path) _ h in
      ok-injective (rw (law.reads d) at h₁)

  module _ (outside : Outside) (catalog : Catalog) where
    pub head_of_Trail :
        {k : String} {n : ℕ} {rows : List (Row json.Text)} {s : Fields}
        → Trail json outside k n rows s
        → (q : Row json.Text) × (latest rows ≡ some q) × (q.sequence ≡ n)
    unfolding latest
    head_of_Trail (created e s entry k type generation sequence) =
        (row_of json e, refl, sequence_of-int (pairs e) sequence)
    head_of_Trail (advanced trail e s entry k generation sequence follows) =
        let (q, is_head, at) = head_of_Trail trail in
        (
          row_of json e,
          rw (is_head, not_below at (sequence_of-int (pairs e) sequence)) refl,
          sequence_of-int (pairs e) sequence,
        )

    pub first_generation :
        {k : String} {n : ℕ} {rows : List (Row json.Text)} {s : Fields}
        → Trail json outside k n rows s
        → of_generation 1 rows ≡ rows
    unfolding of_generation
    first_generation (created e s entry k type generation sequence) =
        of_generation-same 1 (row_of json e) [] (generation_of-int (pairs e) generation)
    first_generation (advanced {rows = rows} trail e s entry k generation sequence follows) =
        of_generation-same 1 (row_of json e) rows (generation_of-int (pairs e) generation)
        ∙ ap (λ q. row_of json e ∷ q) (first_generation trail)

    pub state_of_Trail :
        {k : String} {n : ℕ} {rows : List (Row json.Text)} {s : Fields}
        → Trail json outside k n rows s
        → IsTaskState (pairs s) × (get (pairs s) "audit_generation" ≡ int (pos 1))
    state_of_Trail (created e s entry k type generation sequence) =
        (entry.state_passed.shape, entry.is_pair.same_generation ∙ generation)
    state_of_Trail (advanced trail e s entry k generation sequence follows) =
        (entry.state_passed.shape, entry.is_pair.same_generation ∙ generation)

    -- What reading the text of a state gives in a field that holds a scalar.
    read_back :
        {P : String → Type 0} (d : Fields) (name : String)
        → IsTextThat P (get (pairs d) name)
        → get (pairs (law.normal d)) name ≡ get (pairs d) name
    read_back d name t =
        (law.looks d).same_scalars name (subst (λ q. is_scalar q ≡ true) (sym t.is_text) refl)

    pub successor-Follows :
        {n : ℕ} (s₀ e s previous : Fields) (q : Row json.Text)
        → IsTaskState (pairs s₀)
        → get (pairs s₀) "audit_generation" ≡ int (pos 1)
        → IsAuditEvent (pairs e)
        → q.sequence ≡ n
        → not_successor (pairs e) (pairs s) (pairs (law.normal s₀)) (pairs previous) q.sequence
          ≡ false
        → Follows (pairs s₀) (pairs e)
          × (get (pairs e) "generation" ≡ int (pos 1))
          × (get (pairs e) "sequence" ≡ int (pos (n + 1)))
    unfolding not_successor
    successor-Follows s₀ e s previous q shape first event at h =
        let (type, (generation, (sequence, (hash, (_, (_, (from, _))))))) =
          some_of-eq-false
            (differences (pairs e) (pairs s) (pairs (law.normal s₀)) (pairs previous) q.sequence)
            h in
        let generation' : py_eq (get (pairs e) "generation") (int (pos 1)) ≡ true =
          subst (λ v. py_eq (get (pairs e) "generation") v ≡ true)
            ((law.looks s₀).same_scalars "audit_generation"
                (subst (λ v. is_scalar v ≡ true) (sym first) refl)
              ∙ first)
            (not-eq-false _ generation) in
        (
          record {
            is_transition = is_the_text-eq-true _ _ (not-eq-false _ type);
            from_state = text_equal_to _ _ shape.current_state (
                subst (λ v. py_eq (get (pairs e) "from_state") v ≡ true)
                  (read_back s₀ "current_state" shape.current_state) (not-eq-false _ from));
            previous_hash = text_equal_to _ _ shape.audit_head_hash (
                subst (λ v. py_eq (get (pairs e) "previous_event_hash") v ≡ true)
                  (read_back s₀ "audit_head_hash" shape.audit_head_hash) (not-eq-false _ hash));
          },
          is_one-eq-true _ event.generation generation',
          at_sequence (get (pairs e) "sequence") event.sequence at (not-eq-false _ sequence),
        )
