-- ===== src/Workflow/Request.antt =====
-- The requests of acgps/workflow_contracts.py: `validate_transition_request` and
-- `validate_task_initialization_request`.
pub mod Authorized
use acgps_public.Prelude.{
  ℕ, ◌+◌, String, Bool, true, false, not, ◌&&◌, Option, none, some, List, [], ◌∷◌, ◌==◌,
  if◌then◌else◌, mem, any,
}
use acgps_public.Py.Result.{ok, raise, ◌>>=◌, ◌>>◌}
use acgps_public.Py.Text.{fmt, show}
use acgps_public.Py.Value.{Value, null, text, seq, dict, Dict, get, pairs, items, py_eq, is_null}
use acgps_public.Policy.Vocabulary.{task_states}
use acgps_public.Workflow.Outcome.{
  Check, attribute_error, Outside, refuse_if, first_of, invalid_outcome, require_mapping,
  require_equal, validate_exact_mapping, validate_schema_version, require_safe_id,
  require_non_empty_string, require_member, validate_utc, join,
}
use acgps_public.Workflow.Vocabulary.{
  actors, transition_request_fields, initialization_request_fields,
}
use acgps_public.Workflow.Binding.{is_the_text, validate_evidence_binding}
use acgps_public.Workflow.Binding.PolicyResult.{elements, validate_policy_evaluation_binding}
use acgps_public.Workflow.Binding.Decision.{validate_human_decision_resolution_binding}

abbrev pub request_fields_checks : Outside → Dict → List (Check (Unit {0}))
request_fields_checks outside d =
    validate_schema_version (get d "schema_version") "schema_version"
    ∷ require_safe_id (get d "transition_id") "transition_id"
    ∷ require_safe_id (get d "task_id") "task_id"
    ∷ require_safe_id (get d "project_id") "project_id"
    ∷ require_non_empty_string (get d "idempotency_key") "idempotency_key"
    ∷ require_member (get d "from_state") task_states "from_state" "WORKFLOW_UNKNOWN_STATE"
    ∷ require_member (get d "to_state") task_states "to_state" "WORKFLOW_UNKNOWN_STATE"
    ∷ require_member (get d "actor") actors "actor" "WORKFLOW_INVALID_INPUT"
    ∷ validate_utc outside (get d "created_at_utc") "created_at_utc"
    ∷ []

unfoldable pub check_request_fields : Outside → Dict → Check (Unit {0})
unfolding first_of get validate_schema_version require_safe_id require_non_empty_string
    require_member validate_utc
check_request_fields outside d = first_of (request_fields_checks outside d)

-- The mapping of a value that a check has found to be one.
abbrev pub mapping_of : Value → Dict
mapping_of (dict fields) = pairs fields
mapping_of _ = []

-- The embedded policy result is one of this task.
unfoldable pub check_policy_identity : Dict → Value → Check (Unit {0})
unfolding first_of get require_equal
check_policy_identity d null = ok tt
check_policy_identity d (dict fields) = first_of (
    require_equal (get (pairs fields) "project_id") (get d "project_id")
      "policy_evaluation_binding.embedded_record.project_id"
      "embedded policy project_id must match transition request" "WORKFLOW_POLICY_RESULT_INVALID"
    ∷ require_equal (get (pairs fields) "task_id") (get d "task_id")
        "policy_evaluation_binding.embedded_record.task_id"
        "embedded policy task_id must match transition request" "WORKFLOW_POLICY_RESULT_INVALID"
    ∷ [])
check_policy_identity d _ = raise attribute_error

-- The policy binding authorizes the target of the request.
abbrev pub request_policy_checks : Outside → Dict → List (Check (Unit {0}))
request_policy_checks outside d =
    let policy = mapping_of (get d "policy_evaluation_binding") in
    validate_policy_evaluation_binding outside (get d "policy_evaluation_binding")
    ∷ refuse_if (not (is_the_text "embedded" (get policy "source")))
        "WORKFLOW_POLICY_RESULT_INVALID" "policy_evaluation_binding.source"
        "Task 1 transition validation requires an embedded validated policy result"
    ∷ check_policy_identity d (get policy "embedded_record")
    ∷ refuse_if
        (not (any (py_eq (get d "to_state")) (elements (get policy "authorized_transitions"))))
        "WORKFLOW_POLICY_RESULT_INVALID" "policy_evaluation_binding.authorized_transitions"
        "target state is not authorized by policy binding"
    ∷ []

unfoldable pub check_request_policy : Outside → Dict → Check (Unit {0})
unfolding get refuse_if validate_policy_evaluation_binding check_policy_identity py_eq items
    first_of
check_request_policy outside d = first_of (request_policy_checks outside d)

-- A decision comes with a request from WAITING_HUMAN, and with no other.
unfoldable pub check_request_decision : Outside → Dict → Check (Unit {0})
unfolding get refuse_if validate_human_decision_resolution_binding
check_request_decision outside d =
    if is_the_text "WAITING_HUMAN" (get d "from_state")
    then validate_human_decision_resolution_binding outside (get d "decision_resolution_binding")
        (record {
          target_state = get d "to_state";
          project_id = get d "project_id";
          task_id = get d "task_id";
        })
    else refuse_if (not (is_null (get d "decision_resolution_binding")))
        "WORKFLOW_DECISION_BINDING_INVALID" "decision_resolution_binding"
        "decision binding is only valid from WAITING_HUMAN"

-- `text_of(binding["binding_id"])`, once the binding is valid.
abbrev binding_id_of : Value → String
unfolding get
binding_id_of v = elim (get (mapping_of v) "binding_id") [ text s ↦ s | _ ↦ "" ]

-- `f"{path}[{index}]"`
abbrev at_index : String → ℕ → String
unfolding fmt show
at_index path index = fmt (path ∷ "[" ∷ show index ∷ "]" ∷ [])

-- The loop over the evidence, with the identities seen.
unfoldable pub check_evidence_from :
    Outside → String → ℕ → List String → List Value → Check (Unit {0})
unfolding validate_evidence_binding refuse_if mem fmt show get
check_evidence_from outside path index seen [] = ok tt
check_evidence_from outside path index seen (v ∷ vs) =
    let rest = check_evidence_from outside path (index + 1) (binding_id_of v ∷ seen) vs in
    validate_evidence_binding outside v (at_index path index)
    >> refuse_if (mem (binding_id_of v) seen) "WORKFLOW_INVALID_INPUT"
        (fmt (at_index path index ∷ ".binding_id" ∷ [])) "duplicate evidence binding_id"
    >> rest

unfoldable pub validate_evidence_binding_list : Outside → Value → String → String → Check (Unit {0})
unfolding check_evidence_from invalid_outcome items
validate_evidence_binding_list outside (seq vs) path message =
    check_evidence_from outside path 0 [] (items vs)
validate_evidence_binding_list outside _ path message =
    invalid_outcome "WORKFLOW_INVALID_INPUT" path message

abbrev pub request_checks : Outside → Dict → List (Check (Unit {0}))
request_checks outside d =
    validate_exact_mapping outside d transition_request_fields "transition request" ""
    ∷ check_request_fields outside d
    ∷ check_request_policy outside d
    ∷ check_request_decision outside d
    ∷ validate_evidence_binding_list outside (get d "evidence_bindings") "evidence_bindings"
        "evidence_bindings must be a list"
    ∷ []

unfoldable pub validate_transition_request : Outside → Value → Check (Unit {0})
unfolding require_mapping validate_exact_mapping check_request_fields check_request_policy
    check_request_decision validate_evidence_binding_list get first_of
validate_transition_request outside v =
    require_mapping v "WORKFLOW_INVALID_INPUT" "$" "transition request must be a mapping" >>= λ d.
    first_of (request_checks outside d)

unfoldable pub check_initialization_fields : Outside → Dict → Check (Unit {0})
unfolding first_of get validate_schema_version require_safe_id require_non_empty_string
    require_member validate_utc
check_initialization_fields outside d = first_of (
    validate_schema_version (get d "schema_version") "schema_version"
    ∷ require_safe_id (get d "initialization_id") "initialization_id"
    ∷ require_safe_id (get d "task_id") "task_id"
    ∷ require_safe_id (get d "project_id") "project_id"
    ∷ require_member (get d "initial_state") ("DRAFT" ∷ []) "initial_state"
        "WORKFLOW_ILLEGAL_TRANSITION"
    ∷ require_member (get d "actor") actors "actor" "WORKFLOW_INVALID_INPUT"
    ∷ require_non_empty_string (get d "idempotency_key") "idempotency_key"
    ∷ validate_utc outside (get d "created_at_utc") "created_at_utc"
    ∷ [])

unfoldable pub validate_task_initialization_request : Outside → Value → Check (Unit {0})
unfolding require_mapping validate_exact_mapping check_initialization_fields
    validate_evidence_binding get
validate_task_initialization_request outside v =
    require_mapping v "WORKFLOW_INVALID_INPUT" "$" "initialization request must be a mapping"
    >>= λ d.
        validate_exact_mapping outside d initialization_request_fields "initialization request" ""
        >> check_initialization_fields outside d
        >> validate_evidence_binding outside (get d "task_intake_binding") "task_intake_binding"
