-- ===== src/Tasks/PlannedParts.antt =====
-- What the checks of an accepted transaction say of its request, its event and its state.
use acgps_public.Prelude.{
  ◌≡◌, mem, ap, sym, subst, ◌∙◌, String, Bool, true, false, not, if◌then◌else◌,
}
use acgps_public.Py.Result.{ok, >>=-eq-ok}
use acgps_public.Py.Value.{Value, text, dict, Dict, Fields, pairs, get, py_eq, is_text, is_null}
use acgps_public.Workflow.Outcome.{Outside, refuse_if, require_mapping, with_code}
use acgps_public.Workflow.Passed.{
  first_of-eq-ok, refuse_if-eq-ok, with_code-eq-ok, require_mapping-eq-ok, not-eq-false,
  is_the_text-eq-true, IsTextThat, require_member-eq-ok,
}
use acgps_public.Workflow.Request.{
  mapping_of, validate_transition_request, request_checks, request_fields_checks,
  check_request_fields,
}
use acgps_public.Workflow.Request.Authorized.{
  IsAuthorized, validate_transition_request-IsAuthorized,
}
use acgps_public.Workflow.AuditEvent.{
  validate_audit_event, validate_event_mapping, event_mapping_checks,
}
use acgps_public.Workflow.AuditEvent.Shape.{IsAuditEvent, validate_audit_event-inv}
use acgps_public.Workflow.TaskState.{validate_task_state}
use acgps_public.Workflow.TaskState.Shape.{IsTaskState, validate_task_state-IsTaskState}
use acgps_public.Workflow.Catalog.{Catalog}
use acgps_public.Workflow.Transaction.{is_initialization, transition_records, check_records}
use acgps_public.Workflow.Plan.{
  request_of, event_of, planned_move, check_planned_move, check_planned_hash,
}
use acgps_public.Workflow.EventFields.{
  check_event_policy, check_event_bindings, event_bindings_checks,
}
use acgps_public.Workflow.AuditEvent.Content.{IsTyped, validate_audit_event-IsSealed}
use acgps_public.Workflow.Generation.{audit_corrupt}
use acgps_public.Workflow.Binding.{is_the_text}
use acgps_public.Workflow.Binding.PolicyResult.{validate_policy_evaluation_binding}
use acgps_public.Policy.Vocabulary.{task_states}

pub not_refused :
    (b : Bool) (code path message : String) → refuse_if (not b) code path message ≡ ok tt → b ≡ true
not_refused b code path message h = not-eq-false b (refuse_if-eq-ok _ _ _ _ h)

pub check_planned_hash-eq-ok :
    (outside : Outside) (d : Dict) (name target : String)
    → check_planned_hash outside d name target ≡ ok tt
    → get d name ≡ text (outside.sha (get d target))
unfolding check_planned_hash
check_planned_hash-eq-ok outside d name target h =
    is_the_text-eq-true _ _ (not-eq-false _ (refuse_if-eq-ok _ _ _ _ h))

pub chosen :
    {A : Type 0} (b : Bool) (x y : A) {z : A} → (if b then x else y) ≡ z → b ≡ false → y ≡ z
chosen true x y h e = absurd (cc)
chosen false x y h e = h

pub check_records-IsAuthorized :
    (outside : Outside) (d : Dict)
    → check_records outside d ≡ ok tt
    → is_initialization d ≡ false
    → IsAuthorized (request_of d)
unfolding check_records
check_records-IsAuthorized outside d h transition =
    let (_, (request, _)) =
      first_of-eq-ok (transition_records outside d)
        (chosen (is_initialization d) _ _ h transition) in
    validate_transition_request-IsAuthorized outside (get d "canonical_request")
      (with_code-eq-ok _ _ request)

pub event_shape :
    (outside : Outside) (loaded : Catalog) (v : Value)
    → validate_audit_event outside loaded v ≡ ok tt
    → IsAuditEvent (mapping_of v)
event_shape outside loaded v h =
    let (fields, is_dict, passed) = validate_audit_event-inv outside loaded v h in
    subst (λ w. IsAuditEvent (mapping_of w)) (sym is_dict) passed.shape

-- The transition of an event and its policy binding, where it accepts a transition.
pub record IsBound (outside : Outside) (event : Dict) : Type 0 where
  pub transition :
      get event "event_type" ≡ text "TRANSITION_ACCEPTED"
      → is_text (get event "transition_id") ≡ true
  pub policy :
      get event "event_type" ≡ text "TRANSITION_ACCEPTED"
      → validate_policy_evaluation_binding outside (get event "policy_evaluation_binding") ≡ ok tt

check_event_policy-validated :
    (outside : Outside) (d : Dict)
    → check_event_policy outside d ≡ ok tt
    → is_null (get d "policy_evaluation_binding") ≡ false
    → validate_policy_evaluation_binding outside (get d "policy_evaluation_binding") ≡ ok tt
unfolding check_event_policy
check_event_policy-validated outside d h there =
    let (_, valid, _) =
      >>=-eq-ok
        (with_code (validate_policy_evaluation_binding outside (get d "policy_evaluation_binding"))
          audit_corrupt)
        _ (chosen (is_null (get d "policy_evaluation_binding")) _ _ h there) in
    with_code-eq-ok _ _ valid

bindings-IsBound :
    (outside : Outside) (fields : Fields)
    → IsTyped (pairs fields)
    → check_event_bindings outside (pairs fields) ≡ ok tt
    → IsBound outside (pairs fields)
unfolding check_event_bindings
bindings-IsBound outside fields typed h =
    let (_, (policy, _)) = first_of-eq-ok (event_bindings_checks outside (pairs fields)) h in
    record {
      transition = λ type.
          let (_, _, is_id, _) =
            typed.accepted (ap (is_the_text "TASK_CREATED") type)
              (ap (is_the_text "TRANSITION_ACCEPTED") type) in
          is_id;
      policy = λ type.
          let (_, _, _, there) =
            typed.accepted (ap (is_the_text "TASK_CREATED") type)
              (ap (is_the_text "TRANSITION_ACCEPTED") type) in
          check_event_policy-validated outside (pairs fields) policy there;
    }

validate_event-bindings :
    (outside : Outside) (loaded : Catalog) (fields : Fields)
    → validate_audit_event outside loaded (dict fields) ≡ ok tt
    → check_event_bindings outside (pairs fields) ≡ ok tt
unfolding validate_audit_event validate_event_mapping
validate_event-bindings outside loaded fields h =
    let (_, (_, (_, (bindings, _)))) =
      first_of-eq-ok (event_mapping_checks outside loaded fields) h in
    bindings

pub event-IsBound :
    (outside : Outside) (loaded : Catalog) (v : Value)
    → validate_audit_event outside loaded v ≡ ok tt
    → IsBound outside (mapping_of v)
event-IsBound outside loaded v h =
    let (fields, is_dict, _, _, typed, _) = validate_audit_event-IsSealed outside loaded v h in
    subst (λ w. IsBound outside (mapping_of w)) (sym is_dict)
      (bindings-IsBound outside fields typed (
        validate_event-bindings outside loaded fields
          (subst (λ w. validate_audit_event outside loaded w ≡ ok tt) is_dict h)))

request-from :
    (outside : Outside) (v : Value)
    → validate_transition_request outside v ≡ ok tt
    → IsTextThat (λ s. mem s task_states ≡ true) (get (mapping_of v) "from_state")
unfolding validate_transition_request check_request_fields
request-from outside v h =
    let (r, mapping, h₁) = >>=-eq-ok (require_mapping v _ _ _) _ h in
    let (fields, is_dict, e) = require_mapping-eq-ok v _ _ _ mapping in
    let (_, (plain, _)) = first_of-eq-ok (request_checks outside r) h₁ in
    let (_, (_, (_, (_, (_, (from, _)))))) =
      first_of-eq-ok (request_fields_checks outside r) plain in
    subst (λ (q : Dict). IsTextThat (λ s. mem s task_states ≡ true) (get q "from_state"))
      (sym (ap mapping_of is_dict ∙ e))
      (require_member-eq-ok _ task_states "from_state" "WORKFLOW_UNKNOWN_STATE" from)

pub check_records-from :
    (outside : Outside) (d : Dict)
    → check_records outside d ≡ ok tt
    → is_initialization d ≡ false
    → IsTextThat (λ s. mem s task_states ≡ true) (get (request_of d) "from_state")
unfolding check_records
check_records-from outside d h transition =
    let (_, (request, _)) =
      first_of-eq-ok (transition_records outside d)
        (chosen (is_initialization d) _ _ h transition) in
    request-from outside (get d "canonical_request") (with_code-eq-ok _ _ request)

pub planned_target :
    (d : Dict)
    → check_planned_move d ≡ ok tt
    → py_eq (get (event_of d) "to_state") (get (request_of d) "to_state") ≡ true
unfolding check_planned_move
planned_target d move =
    let (_, (_, (_, (to, _)))) = first_of-eq-ok (planned_move d) move in not_refused _ _ _ _ to

pub state_shape :
    (outside : Outside) (v : Value)
    → validate_task_state outside v ≡ ok tt
    → IsTaskState (mapping_of v)
state_shape outside v h =
    let (fields, is_dict, shape, _) = validate_task_state-IsTaskState outside v h in
    subst (λ w. IsTaskState (mapping_of w)) (sym is_dict) shape
