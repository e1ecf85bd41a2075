-- ===== src/Tasks/ReadBack.antt =====
-- A state that a commit of acgps/workflow_store.py has written is read back.
use acgps_public.Prelude.{◌≡◌, refl, ap, sym, subst, ◌∙◌, String, Bool, true, some, eq_refl}
use acgps_public.Py.Result.{ok, >>=-eq-ok}
use acgps_public.Py.Value.{Value, text, dict, Dict, Fields, pairs, get, lookup, py_eq}
use acgps_public.Slot.State.{is_safe_id}
use acgps_public.Workflow.Outcome.{Outside, first_of}
use acgps_public.Workflow.Catalog.{Catalog}
use acgps_public.Workflow.Exact.{IsIteration}
use acgps_public.Workflow.Passed.{IsTextThat, first_of-eq-ok}
use acgps_public.Workflow.Request.{mapping_of}
use acgps_public.Workflow.TaskState.{validate_task_state}
use acgps_public.Workflow.TaskState.Scalars.{validate_task_state-LooksLike, LooksLike, is_scalar}
use acgps_public.Workflow.TaskState.Shape.{validate_task_state-inv}
use acgps_public.Tasks.Json.{
  Json, loads_json_mapping, read_mapping, validate_sqlite_json_text, sqlite_json_text,
}
use acgps_public.Tasks.Tables.{Tables}
use acgps_public.Tasks.Tables.Laws.{lookup-upsert}
use acgps_public.Tasks.Commit.{inserted, pair_checks, commit_task_state_and_audit}
use acgps_public.Tasks.PairCheck.{task_of, column_text}
use acgps_public.Tasks.Read.{require_safe_id, found_row, state_in_row, read_task_state}
use acgps_public.Tasks.Accepted.{commit-written}
use acgps_public.Tasks.Written.{Written, replayed, inserted_new, write_pair-Written}
use acgps_public.Tasks.Trail.{RoundTrip}

module _ (json : Json) (law : RoundTrip json) (outside : Outside) where
  -- The text of a state that has passed its checks is read as a state that passes them.
  state_in_row-reads :
      (k : String) (s : Fields) (message : String)
      → IsIteration outside
      → validate_task_state outside (dict s) ≡ ok tt
      → validate_sqlite_json_text json (json.dumps (dict s)) "WORKFLOW_STATE_CORRUPT" "task_state"
        ≡ ok tt
      → get (pairs s) "task_id" ≡ text k
      → state_in_row json outside k (json.dumps (dict s)) message ≡ ok (law.normal s)
  unfolding state_in_row loads_json_mapping read_mapping py_eq
  state_in_row-reads k s message iteration passed writable of_k =
      let read_task : get (pairs (law.normal s)) "task_id" ≡ text k =
        (law.looks s).same_scalars "task_id" (subst (λ v. is_scalar v ≡ true) (sym of_k) refl)
        ∙ of_k in
      rw
        (
          writable,
          law.reads s,
          validate_task_state-LooksLike outside s (law.normal s) iteration (law.looks s) passed,
          read_task,
          eq_refl k,
        )
        refl

  -- A safe identity, with a row whose text is read.
  read_task_state-reads :
      (k : String) (tables : Tables json.Text) {state_json : json.Text} {s : Fields}
      → is_safe_id k ≡ true
      → lookup k tables.task_states ≡ some state_json
      → state_in_row json outside k state_json "task-state payload must match requested task_id"
        ≡ ok s
      → read_task_state json outside k tables ≡ ok s
  unfolding read_task_state require_safe_id found_row
  read_task_state-reads k tables safe found read = rw (safe, found, read) refl

  module _ (catalog : Catalog) where
    Written-state :
        (event state : Dict) (event_json state_json : json.Text) (tables : Tables json.Text)
        {b : Bool} {after : Tables json.Text}
        → Written json outside catalog event state event_json state_json tables b after
        → b ≡ true
        → lookup (task_of state) after.task_states ≡ some state_json
    unfolding inserted
    Written-state event state event_json state_json tables (replayed found) is_new = absurd (cc)
    Written-state event state event_json state_json tables (inserted_new missing passed) is_new =
        lookup-upsert (task_of state) state_json tables.task_states

    -- A state that a commit has written, where the call returns true, is read back: read_task_state
    -- of its task returns a mapping with the same keys and the same scalars, the one that the json
    -- module reads from the text of the state.
    pub commit-read_back :
        (event : Value) (s : Fields) (tables : Tables json.Text) {after : Tables json.Text}
        → IsIteration outside
        → commit_task_state_and_audit json outside catalog event (dict s) tables ≡ ok (true, after)
        → (read_task_state json outside (task_of (pairs s)) after ≡ ok (law.normal s))
          × LooksLike (pairs (law.normal s)) (pairs s)
    unfolding commit_task_state_and_audit sqlite_json_text task_of
    commit-read_back event s tables {after} iteration h =
        let written =
          sym (commit-written json outside catalog event (dict s) tables tables h) ∙ h in
        let (_, checked, h₁) =
          >>=-eq-ok (first_of (pair_checks json outside catalog event (dict s))) _ h in
        let (_, (passed, _)) =
          first_of-eq-ok (pair_checks json outside catalog event (dict s)) checked in
        let (_, _, h₂) =
          >>=-eq-ok (sqlite_json_text json event "WORKFLOW_AUDIT_CORRUPT" "audit_event") _ h₁ in
        let (_, state_json, _) =
          >>=-eq-ok (sqlite_json_text json (dict s) "WORKFLOW_STATE_CORRUPT" "task_state") _ h₂ in
        let (_, writable, _) =
          >>=-eq-ok
            (validate_sqlite_json_text json (json.dumps (dict s)) "WORKFLOW_STATE_CORRUPT"
              "task_state")
            _ state_json in
        let (f, same, state) = validate_task_state-inv outside (dict s) passed in
        let t : IsTextThat (λ i. is_safe_id i ≡ true) (get (pairs s) "task_id") =
          subst (λ v. IsTextThat (λ i. is_safe_id i ≡ true) (get (mapping_of v) "task_id"))
            (sym same) state.shape.task_id in
        let is_task : task_of (pairs s) ≡ t.content = ap column_text t.is_text in
        (
          read_task_state-reads (task_of (pairs s)) after
              (subst (λ k. is_safe_id k ≡ true) (sym is_task) t.has_property)
              (Written-state (mapping_of event) (pairs s) (json.dumps event) (json.dumps (dict s))
                tables (write_pair-Written json outside catalog _ _ _ _ tables written) refl)
              (state_in_row-reads (task_of (pairs s)) s _ iteration passed writable
                (t.is_text ∙ ap text (sym is_task))),
          law.looks s,
        )
