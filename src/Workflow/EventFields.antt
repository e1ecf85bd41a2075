-- ===== src/Workflow/EventFields.antt =====
-- The fields, the chain and the bindings of an audit event in acgps/workflow_contracts.py.
use acgps_public.Prelude.{Bool, false, not, ◌&&◌, ◌||◌, List, [], ◌∷◌, if◌then◌else◌, mem, leb}
use acgps_public.Py.Result.{ok, ◌>>◌}
use acgps_public.Py.Value.{pos, Value, null, int, Dict, get, py_eq, is_null, is_dict}
use acgps_public.Workflow.Outcome.{
  Check, Outside, refuse_if, first_of, with_code, validate_schema_version, require_safe_id,
  require_sha, require_positive_int, require_member, validate_utc,
}
use acgps_public.Workflow.Vocabulary.{actors, event_types}
use acgps_public.Workflow.Binding.{is_the_text}
use acgps_public.Workflow.Binding.PolicyResult.{validate_policy_evaluation_binding}
use acgps_public.Workflow.Binding.Decision.{Expected, validate_human_decision_resolution_binding}
use acgps_public.Workflow.Request.{mapping_of, validate_evidence_binding_list}
use acgps_public.Workflow.TaskState.{is_optional_state}
use acgps_public.Workflow.Generation.{audit_corrupt, unless_null, is_one}

abbrev pub event_fields_checks : Outside → Dict → List (Check (Unit {0}))
event_fields_checks outside d =
    validate_schema_version (get d "schema_version") "schema_version"
    ∷ require_safe_id (get d "event_id") "event_id"
    ∷ require_positive_int (get d "generation") "generation"
    ∷ require_positive_int (get d "sequence") "sequence"
    ∷ require_safe_id (get d "project_id") "project_id"
    ∷ require_safe_id (get d "task_id") "task_id"
    ∷ require_member (get d "event_type") event_types "event_type" audit_corrupt
    ∷ require_member (get d "actor") actors "actor" "WORKFLOW_INVALID_INPUT"
    ∷ require_sha (get d "event_hash") "event_hash"
    ∷ validate_utc outside (get d "created_at_utc") "created_at_utc"
    ∷ []

unfoldable pub check_event_fields : Outside → Dict → Check (Unit {0})
unfolding first_of get validate_schema_version require_safe_id require_positive_int require_member
    require_sha validate_utc
check_event_fields outside d = first_of (event_fields_checks outside d)

-- `value > 1`, for an integer
abbrev pub above_one : Value → Bool
above_one (int (pos n)) = leb 2 n
above_one _ = false

-- The states, the transition and the place in the chain that an event names.
abbrev pub chain_fields_checks : Dict → List (Check (Unit {0}))
chain_fields_checks d =
    refuse_if (not (is_optional_state (get d "from_state"))) "WORKFLOW_UNKNOWN_STATE" "from_state"
      "unknown workflow state"
    ∷ refuse_if (not (is_optional_state (get d "to_state"))) "WORKFLOW_UNKNOWN_STATE" "to_state"
        "unknown workflow state"
    ∷ with_code (unless_null d "transition_id" require_safe_id) audit_corrupt
    ∷ with_code (unless_null d "previous_event_hash" require_sha) audit_corrupt
    ∷ refuse_if (is_one (get d "sequence") && not (is_null (get d "previous_event_hash")))
        audit_corrupt "previous_event_hash" "sequence 1 must not have previous_event_hash"
    ∷ refuse_if (above_one (get d "sequence") && is_null (get d "previous_event_hash"))
        audit_corrupt "previous_event_hash" "sequence greater than 1 requires previous_event_hash"
    ∷ refuse_if
        (is_the_text "TASK_CREATED" (get d "event_type")
          && (not (is_one (get d "generation")) || not (is_one (get d "sequence"))))
        audit_corrupt "event_type" "TASK_CREATED is only valid for generation 1 sequence 1"
    ∷ refuse_if (not (is_dict (get d "details"))) audit_corrupt "details"
        "details must be a mapping"
    ∷ []

unfoldable pub check_chain_fields : Dict → Check (Unit {0})
unfolding first_of get refuse_if with_code unless_null require_safe_id require_sha py_eq mem
check_chain_fields d = first_of (chain_fields_checks d)

-- The policy binding of an event, where it has one.
unfoldable pub check_event_policy : Outside → Dict → Check (Unit {0})
unfolding with_code validate_policy_evaluation_binding refuse_if get
check_event_policy outside d =
    if is_null (get d "policy_evaluation_binding")
    then ok tt
    else with_code (validate_policy_evaluation_binding outside (get d "policy_evaluation_binding"))
        audit_corrupt
      >> refuse_if
          (is_the_text "TRANSITION_ACCEPTED" (get d "event_type")
            && not (
                is_the_text "embedded"
                  (get (mapping_of (get d "policy_evaluation_binding")) "source")))
          audit_corrupt "policy_evaluation_binding.source"
          "Task 1 transition audit validation requires an embedded validated policy result"

abbrev anyone : Expected
anyone = record { target_state = null; project_id = null; task_id = null }

-- The bindings of an event.
abbrev pub event_bindings_checks : Outside → Dict → List (Check (Unit {0}))
event_bindings_checks outside d =
    with_code
      (validate_evidence_binding_list outside (get d "evidence_bindings") "evidence_bindings"
        "evidence bindings must be a list")
      audit_corrupt
    ∷ check_event_policy outside d
    ∷ (if is_null (get d "decision_resolution_binding")
        then ok tt
        else with_code
            (validate_human_decision_resolution_binding outside
              (get d "decision_resolution_binding") anyone)
            audit_corrupt)
    ∷ []

unfoldable pub check_event_bindings : Outside → Dict → Check (Unit {0})
unfolding first_of with_code validate_evidence_binding_list check_event_policy
    validate_human_decision_resolution_binding get
check_event_bindings outside d = first_of (event_bindings_checks outside d)
