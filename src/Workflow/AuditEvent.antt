-- ===== src/Workflow/AuditEvent.antt =====
-- `validate_audit_event` of acgps/workflow_contracts.py: one event of a task's audit trail.
pub mod Shape
pub mod Content
use acgps_public.Prelude.{
  ℕ, String, Bool, true, false, not, ◌&&◌, ◌||◌, Option, none, some, List, [], ◌∷◌, ◌==◌,
  if◌then◌else◌, mem, leb,
}
use acgps_public.Py.Result.{ok, raise, ◌>>=◌, ◌>>◌}
use acgps_public.Py.Text.{fmt}
use acgps_public.Py.Value.{
  ℤ, pos, Value, null, int, text, seq, nil, dict, Fields, end, field, Dict, get, pairs, of_pairs,
  py_eq, is_null, is_dict, is_text,
}
use acgps_public.Policy.Vocabulary.{task_states}
use acgps_public.Workflow.Outcome.{
  Check, Outside, refuse_if, first_of, with_code, require_mapping, validate_exact_mapping,
  validate_schema_version, require_safe_id, require_sha, require_positive_int, require_member,
  require_equal, validate_utc, has_exactly, is_safe_path_value, invalid_outcome,
}
use acgps_public.Workflow.Vocabulary.{
  actors, audit_event_fields, event_types, recovery_event_types, recovery_actions, threat_models,
}
use acgps_public.Workflow.Binding.{is_the_text}
use acgps_public.Workflow.Binding.PolicyResult.{validate_policy_evaluation_binding}
use acgps_public.Workflow.Binding.Decision.{Expected, validate_human_decision_resolution_binding}
use acgps_public.Workflow.Request.{mapping_of, validate_evidence_binding_list}
use acgps_public.Workflow.TaskState.{is_optional_state}
use acgps_public.Workflow.Catalog.{
  Catalog, validate_audit_event_field_matrix, validate_audit_event_generation_role,
  validate_audit_event_context_bindings,
}
use acgps_public.Workflow.Generation.{
  audit_corrupt, unless_null, is_one, is_among, validate_audit_generation, validate_trusted_prefix,
}
use acgps_public.Workflow.EventFields.{check_event_fields, check_chain_fields, check_event_bindings}

-- `_require_equal` of a field of `details.audit_generation`.
unfoldable pub generation_is : Dict → String → Value → String → Check (Unit {0})
unfolding require_equal get fmt
generation_is started name expected message =
    require_equal (get started name) expected (fmt ("details.audit_generation." ∷ name ∷ []))
      message audit_corrupt

-- An event that creates a task.
abbrev pub created_checks : Outside → Dict → Dict → List (Check (Unit {0}))
created_checks outside d details =
    let started = mapping_of (get details "audit_generation") in
    refuse_if (not (is_null (get d "transition_id"))) audit_corrupt "transition_id"
      "TASK_CREATED must not carry transition fields"
    ∷ refuse_if (not (is_null (get d "from_state"))) audit_corrupt "from_state"
        "TASK_CREATED must not carry transition fields"
    ∷ refuse_if (not (is_null (get d "to_state"))) audit_corrupt "to_state"
        "TASK_CREATED must not carry transition fields"
    ∷ refuse_if
        (not (is_null (get d "policy_evaluation_binding"))
          || not (is_null (get d "decision_resolution_binding")))
        audit_corrupt "policy_evaluation_binding"
        "TASK_CREATED must not carry policy or decision bindings"
    ∷ refuse_if (not (has_exactly details ("audit_generation" ∷ []))) audit_corrupt
        "details.audit_generation" "TASK_CREATED requires only details.audit_generation"
    ∷ with_code (validate_audit_generation outside (get details "audit_generation")) audit_corrupt
    ∷ generation_is started "generation" (int (pos 1)) "TASK_CREATED must start generation 1"
    ∷ generation_is started "task_id" (get d "task_id") "audit generation task_id must match event"
    ∷ generation_is started "started_by_event_id" (get d "event_id")
        "audit generation starter must match event"
    ∷ generation_is started "started_by_event_type" (text "TASK_CREATED")
        "generation 1 must start with TASK_CREATED"
    ∷ []

unfoldable pub check_created : Outside → Dict → Dict → Check (Unit {0})
unfolding first_of refuse_if get has_exactly with_code validate_audit_generation generation_is
check_created outside d details = first_of (created_checks outside d details)

abbrev is_empty_list : Value → Bool
is_empty_list (seq nil) = true
is_empty_list _ = false

-- An event that a transition appends.
abbrev pub accepted_transition_checks : Dict → List (Check (Unit {0}))
accepted_transition_checks d =
    refuse_if (is_null (get d "from_state")) audit_corrupt "from_state"
      "TRANSITION_ACCEPTED requires workflow states"
    ∷ refuse_if (is_null (get d "to_state")) audit_corrupt "to_state"
        "TRANSITION_ACCEPTED requires workflow states"
    ∷ refuse_if (not (is_text (get d "transition_id"))) audit_corrupt "transition_id"
        "TRANSITION_ACCEPTED requires transition_id"
    ∷ refuse_if (is_null (get d "policy_evaluation_binding")) audit_corrupt
        "policy_evaluation_binding" "TRANSITION_ACCEPTED requires policy binding"
    ∷ refuse_if (is_empty_list (get d "evidence_bindings")) audit_corrupt "evidence_bindings"
        "TRANSITION_ACCEPTED requires evidence bindings"
    ∷ []

unfoldable pub check_accepted_transition : Dict → Check (Unit {0})
unfolding first_of refuse_if get
check_accepted_transition d = first_of (accepted_transition_checks d)

-- The details of a recovery event, once its start record is valid.
abbrev pub recovery_start_checks : Dict → Dict → List (Check (Unit {0}))
recovery_start_checks d details =
    let started = mapping_of (get details "audit_generation") in
    let trusted = mapping_of (get details "previous_trusted_prefix") in
    refuse_if
      (not (
        is_the_text
          (if is_the_text "rollback_to_valid_prefix" (get details "recovery_action")
            then "ROLLBACK_RECORDED"
            else "RECOVERY_RECORDED")
          (get d "event_type")))
      audit_corrupt "event_type" "event_type must match recovery action"
    ∷ generation_is started "generation" (get d "generation")
        "audit generation must match event generation"
    ∷ generation_is started "task_id" (get d "task_id") "audit generation task_id must match event"
    ∷ generation_is started "started_by_event_id" (get d "event_id")
        "audit generation starter must match event"
    ∷ generation_is started "started_by_event_type" (get d "event_type")
        "audit generation starter type must match event"
    ∷ generation_is started "predecessor_generation" (get trusted "generation")
        "predecessor generation must match trusted prefix"
    ∷ generation_is started "predecessor_valid_head_hash" (get trusted "event_hash")
        "predecessor hash must match trusted prefix"
    ∷ generation_is started "quarantine_path" (get details "quarantine_path")
        "audit generation quarantine path must match details"
    ∷ generation_is started "threat_model" (get details "threat_model")
        "audit generation threat model must match details"
    ∷ []

unfoldable pub check_recovery_start : Dict → Dict → Check (Unit {0})
unfolding first_of generation_is get refuse_if pairs
check_recovery_start d details = first_of (recovery_start_checks d details)

abbrev recovery_details : List String
recovery_details =
    "recovery_id" ∷ "recovery_action" ∷ "recovery_transaction_id" ∷ "previous_trusted_prefix"
    ∷ "quarantine_path" ∷ "threat_model" ∷ "audit_generation" ∷ []

-- The identities of a recovery event.
unfoldable pub check_recovery_details : Dict → Check (Unit {0})
unfolding first_of get require_safe_id require_member
check_recovery_details details = first_of (
    require_safe_id (get details "recovery_id") "details.recovery_id"
    ∷ require_safe_id (get details "recovery_transaction_id") "details.recovery_transaction_id"
    ∷ require_member (get details "recovery_action") recovery_actions "details.recovery_action"
        audit_corrupt
    ∷ require_member (get details "threat_model") threat_models "details.threat_model" audit_corrupt
    ∷ [])

-- An event that starts a generation after a recovery or a rollback.
abbrev pub recovery_checks : Outside → Dict → Dict → List (Check (Unit {0}))
recovery_checks outside d details =
    refuse_if (not (is_among recovery_event_types (get d "event_type"))) audit_corrupt "event_type"
      "unknown audit event type"
    ∷ refuse_if (not (is_one (get d "sequence"))) audit_corrupt "sequence"
        "recovery events must start an audit generation"
    ∷ refuse_if (not (is_null (get d "previous_event_hash"))) audit_corrupt "previous_event_hash"
        "generation-start recovery events must not have previous_event_hash"
    ∷ refuse_if (not (has_exactly details recovery_details)) audit_corrupt "details"
        "recovery events require exact generation-start details"
    ∷ with_code
        (validate_trusted_prefix outside (get details "previous_trusted_prefix")
          "details.previous_trusted_prefix")
        audit_corrupt
    ∷ with_code (check_recovery_details details) audit_corrupt
    ∷ (is_safe_path_value (get details "quarantine_path") >>= λ safe.
        refuse_if (not safe) audit_corrupt "details.quarantine_path"
          "quarantine_path must be safe relative POSIX path")
    ∷ with_code (validate_audit_generation outside (get details "audit_generation")) audit_corrupt
    ∷ check_recovery_start d details
    ∷ []

unfoldable pub check_recovery : Outside → Dict → Dict → Check (Unit {0})
unfolding first_of refuse_if get has_exactly with_code validate_trusted_prefix
    check_recovery_details is_safe_path_value validate_audit_generation check_recovery_start
check_recovery outside d details = first_of (recovery_checks outside d details)

-- The part of the checks that depends on the type of the event.
unfoldable pub check_by_type : Outside → Dict → Check (Unit {0})
unfolding get check_created check_accepted_transition check_recovery
check_by_type outside d =
    if is_the_text "TASK_CREATED" (get d "event_type")
    then check_created outside d (mapping_of (get d "details"))
    else if is_the_text "TRANSITION_ACCEPTED" (get d "event_type")
    then check_accepted_transition d
    else check_recovery outside d (mapping_of (get d "details"))

-- `dict(record, key=None)`
unfoldable pub with_null : String → Fields → Fields
with_null key end = end
with_null key (field k v fs) = field k (if k == key then null else v) (with_null key fs)

-- The hash of an event is the digest of its content without the hash.
unfoldable pub check_event_hash : Outside → Fields → Check (Unit {0})
unfolding refuse_if get with_null pairs
check_event_hash outside fields =
    refuse_if
      (not (
        is_the_text (outside.sha (dict (with_null "event_hash" fields)))
          (get (pairs fields) "event_hash")))
      audit_corrupt "event_hash" "event_hash does not match canonical audit event bytes"

abbrev pub event_mapping_checks : Outside → Catalog → Fields → List (Check (Unit {0}))
event_mapping_checks outside loaded fields =
    let d = pairs fields in
    with_code (validate_exact_mapping outside d audit_event_fields "audit event" "") audit_corrupt
    ∷ with_code (check_event_fields outside d) audit_corrupt
    ∷ check_chain_fields d
    ∷ check_event_bindings outside d
    ∷ check_by_type outside d
    ∷ validate_audit_event_field_matrix loaded fields
    ∷ validate_audit_event_generation_role loaded d
    ∷ validate_audit_event_context_bindings outside loaded d
    ∷ check_event_hash outside fields
    ∷ []

unfoldable pub validate_event_mapping : Outside → Catalog → Fields → Check (Unit {0})
unfolding with_code validate_exact_mapping check_event_fields check_chain_fields
    check_event_bindings check_by_type validate_audit_event_field_matrix
    validate_audit_event_generation_role validate_audit_event_context_bindings check_event_hash
    first_of pairs
validate_event_mapping outside loaded fields = first_of (event_mapping_checks outside loaded fields)

unfoldable pub validate_audit_event : Outside → Catalog → Value → Check (Unit {0})
unfolding validate_event_mapping invalid_outcome
validate_audit_event outside loaded (dict fields) = validate_event_mapping outside loaded fields
validate_audit_event outside loaded _ =
    invalid_outcome audit_corrupt "$" "audit event must be a mapping"
