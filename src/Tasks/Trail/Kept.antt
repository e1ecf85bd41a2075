-- ===== src/Tasks/Trail/Kept.antt =====
-- Every commit of acgps/workflow_store.py keeps the trails of the tasks.
use acgps_public.Prelude.{
  ◌≡◌, refl, ap, ap₂, sym, subst, ◌∙◌, ℕ, ◌+◌, String, true, Option, some, List, [], ◌∷◌,
}
use acgps_public.Py.Result.{ok, >>=-eq-ok}
use acgps_public.Py.Value.{pos, int, dict, Fields, pairs, get}
use acgps_public.Workflow.Outcome.{Outside}
use acgps_public.Workflow.Catalog.{Catalog}
use acgps_public.Workflow.AuditEvent.{validate_audit_event}
use acgps_public.Workflow.TaskState.{validate_task_state}
use acgps_public.Workflow.Passed.{not-eq-false, is_the_text-eq-true}
use acgps_public.Workflow.TaskState.Scalars.{is_scalar}
use acgps_public.Tasks.Json.{Json, loads_json_mapping}
use acgps_public.Tasks.Tables.{Row, Tables, of_task, of_generation, latest}
use acgps_public.Tasks.Commit.{
  first_differences, check_first, check_against_head, check_successor,
  validate_authoritative_predecessor,
}
use acgps_public.Tasks.PairCheck.{task_of, column_int}
use acgps_public.Tasks.Pair.{IsEntry, fail_if-eq-ok}
use acgps_public.Tasks.Trail.{
  RoundTrip, row_of, Follows, Trail, created, advanced, Stored, absent, present,
}
use acgps_public.Tasks.Trail.Head.{
  some_of-eq-false, is_one-eq-true, loads_json_mapping-dumps, head_of_Trail, first_generation,
  state_of_Trail, successor-Follows,
}

module _ (json : Json) (law : RoundTrip json) where
  module _ (outside : Outside) (catalog : Catalog) where
    -- The event of a new task, and its state.
    first_of_Trail :
        (k : String) (e s : Fields) (tables : Tables json.Text)
        → IsEntry outside e s
        → task_of (pairs e) ≡ k
        → check_first json outside catalog (pairs e) tables ≡ ok tt
        → Trail json outside k 1 (row_of json e ∷ []) s
    unfolding check_first
    first_of_Trail k e s tables entry of_k h =
        let (_, (type, (generation, (sequence, _)))) =
          some_of-eq-false (first_differences json outside catalog (pairs e) tables)
            (fail_if-eq-ok _ _ _ _ h) in
        created e s entry of_k (is_the_text-eq-true _ _ (not-eq-false _ type))
          (is_one-eq-true _ entry.event_passed.shape.generation (not-eq-false _ generation))
          (is_one-eq-true _ entry.event_passed.shape.sequence (not-eq-false _ sequence))

    -- What the check against the head of a trail says of the event.
    following :
        {k : String} {n : ℕ} {rows : List (Row json.Text)} {s₀ : Fields}
        → Trail json outside k n rows s₀
        → (e s : Fields) (q : Row json.Text) → IsEntry outside e s
        → q.sequence ≡ n
        → check_against_head json outside catalog
            (pairs e)
            (pairs s)
            (pairs (law.normal s₀))
            (some q)
          ≡ ok tt
        → Follows (pairs s₀) (pairs e)
          × (get (pairs e) "generation" ≡ int (pos 1))
          × (get (pairs e) "sequence" ≡ int (pos (n + 1)))
    unfolding check_against_head
    following {k} {n} {rows} {s₀} trail e s q entry at h =
        let (previous, _, h₁) = >>=-eq-ok (loads_json_mapping json q.event_json _ _) _ h in
        let (_, _, h₂) = >>=-eq-ok (validate_audit_event outside catalog (dict previous)) _ h₁ in
        let (shape, first) = state_of_Trail json law outside catalog trail in
        successor-Follows json law outside catalog s₀ e s previous q shape first
          entry.event_passed.shape at (fail_if-eq-ok _ _ _ _ h₂)

    -- The head that the check finds for a task with a trail is the head of the trail.
    found_head :
        {k : String} {n : ℕ} {rows : List (Row json.Text)} {s₀ : Fields}
        → Trail json outside k n rows s₀
        → (e s : Fields) (tables : Tables json.Text) → of_task k tables.audit_events ≡ rows
        → task_of (pairs e) ≡ k
        → check_successor json outside catalog (pairs e) (pairs s) (pairs (law.normal s₀)) tables
          ≡ ok tt
        → (q : Row json.Text) × (q.sequence ≡ n)
          × (check_against_head json outside catalog
                (pairs e)
                (pairs s)
                (pairs (law.normal s₀))
                (some q)
              ≡ ok tt)
    unfolding check_successor
    found_head {k} {n} {rows} {s₀} trail e s tables has of_k h =
        let (q, is_head, at) = head_of_Trail json law outside catalog trail in
        let (_, first) = state_of_Trail json law outside catalog trail in
        let generation : column_int (get (pairs (law.normal s₀)) "audit_generation") ≡ 1 =
          ap column_int (
            (law.looks s₀).same_scalars "audit_generation"
              (subst (λ v. is_scalar v ≡ true) (sym first) refl)
            ∙ first) in
        let found : latest (
              of_generation (column_int (get (pairs (law.normal s₀)) "audit_generation"))
                (of_task (task_of (pairs e)) tables.audit_events))
            ≡ some q =
          ap₂ (λ g r. latest (of_generation g r)) generation
            (ap (λ t. of_task t tables.audit_events) of_k ∙ has)
          ∙ ap latest (first_generation json law outside catalog trail)
          ∙ is_head in
        (
          q,
          at,
          subst
              (λ o.
                check_against_head json outside catalog (pairs e) (pairs s) (pairs (law.normal s₀))
                  o
                ≡ ok tt)
              found h,
        )

    -- An event that the store accepts after a trail follows its state.
    pub followed :
        {k : String} {n : ℕ} {rows : List (Row json.Text)} {s₀ : Fields}
        → Trail json outside k n rows s₀
        → (e s : Fields) (tables : Tables json.Text) → IsEntry outside e s
        → of_task k tables.audit_events ≡ rows
        → task_of (pairs e) ≡ k
        → validate_authoritative_predecessor json outside catalog
            (pairs e)
            (pairs s)
            (some (json.dumps (dict s₀)))
            tables
          ≡ ok tt
        → Follows (pairs s₀) (pairs e)
          × (get (pairs e) "generation" ≡ int (pos 1))
          × (get (pairs e) "sequence" ≡ int (pos (n + 1)))
    unfolding validate_authoritative_predecessor
    followed {s₀ = s₀} trail e s tables entry has of_k h =
        let (current, read, h₁) =
          >>=-eq-ok (loads_json_mapping json (json.dumps (dict s₀)) _ _) _ h in
        let (_, _, h₂) = >>=-eq-ok (validate_task_state outside (dict current)) _ h₁ in
        let (q, at, h₃) = found_head trail e s tables has of_k (
          subst
            (λ f. check_successor json outside catalog (pairs e) (pairs s) (pairs f) tables ≡ ok tt)
            (sym (loads_json_mapping-dumps json law s₀ _ _ read)) h₂) in
        following trail e s q entry at h₃

    -- A commit of a new event extends the trail of its task.
    pub extended :
        {k : String} {o : Option json.Text} {rows : List (Row json.Text)}
        → Stored json outside k o rows
        → (e s : Fields) (tables : Tables json.Text) → IsEntry outside e s
        → of_task k tables.audit_events ≡ rows
        → task_of (pairs e) ≡ k
        → validate_authoritative_predecessor json outside catalog (pairs e) (pairs s) o tables
          ≡ ok tt
        → Stored json outside k (some (json.dumps (dict s))) (row_of json e ∷ rows)
    unfolding validate_authoritative_predecessor
    extended {k} absent e s tables entry has of_k h =
        present (first_of_Trail k e s tables entry of_k h)
    extended {k} (present trail) e s tables entry has of_k h =
        let (follows, generation, sequence) = followed trail e s tables entry has of_k h in
        present (advanced trail e s entry of_k generation sequence follows)
