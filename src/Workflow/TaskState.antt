-- ===== src/Workflow/TaskState.antt =====
-- `validate_task_state` of acgps/workflow_contracts.py: the record of a task that the store keeps.
pub mod Shape
pub mod Scalars
use acgps_public.Prelude.{
  String, Bool, true, false, not, ◌&&◌, List, [], ◌∷◌, ◌==◌, if◌then◌else◌, mem,
}
use acgps_public.Py.Result.{ok, ◌>>=◌, ◌>>◌}
use acgps_public.Py.Value.{Value, null, text, Dict, get, is_null, is_text}
use acgps_public.Policy.Vocabulary.{task_states}
use acgps_public.Workflow.Outcome.{
  Check, Outside, refuse_if, first_of, with_code, require_mapping, validate_exact_mapping,
  validate_schema_version, require_safe_id, require_sha, require_positive_int, require_member,
  validate_utc,
}
use acgps_public.Workflow.Vocabulary.{task_state_fields}
use acgps_public.Workflow.Binding.{is_the_text}

abbrev pub state_corrupt : String
state_corrupt = "WORKFLOW_STATE_CORRUPT"

-- `value is None or value in TASK_STATES`
abbrev pub is_optional_state : Value → Bool
is_optional_state null = true
is_optional_state (text s) = mem s task_states
is_optional_state _ = false

abbrev pub state_fields_checks : Outside → Dict → List (Check (Unit {0}))
state_fields_checks outside d =
    validate_schema_version (get d "schema_version") "schema_version"
    ∷ require_safe_id (get d "task_id") "task_id"
    ∷ require_safe_id (get d "project_id") "project_id"
    ∷ require_member (get d "current_state") task_states "current_state" "WORKFLOW_UNKNOWN_STATE"
    ∷ require_positive_int (get d "audit_generation") "audit_generation"
    ∷ require_safe_id (get d "audit_head_event_id") "audit_head_event_id"
    ∷ require_sha (get d "audit_head_hash") "audit_head_hash"
    ∷ validate_utc outside (get d "updated_at_utc") "updated_at_utc"
    ∷ []

unfoldable pub check_state_fields : Outside → Dict → Check (Unit {0})
unfolding first_of get validate_schema_version require_safe_id require_sha require_positive_int
    require_member validate_utc
check_state_fields outside d = first_of (state_fields_checks outside d)

-- `if record[field] is not None: _require_safe_id(record[field], field)`
unfoldable pub optional_safe_id : Dict → String → Check (Unit {0})
unfolding get require_safe_id
optional_safe_id d name = if is_null (get d name) then ok tt else require_safe_id (get d name) name

-- A pending decision belongs to WAITING_HUMAN alone.
abbrev pub pending_checks : Dict → List (Check (Unit {0}))
pending_checks d =
    refuse_if (not (is_optional_state (get d "previous_state"))) "WORKFLOW_UNKNOWN_STATE"
      "previous_state" "unknown previous_state"
    ∷ refuse_if
        (is_the_text "WAITING_HUMAN" (get d "current_state")
          && not (is_text (get d "pending_decision_id")))
        state_corrupt "pending_decision_id" "WAITING_HUMAN requires pending_decision_id"
    ∷ refuse_if
        (not (is_the_text "WAITING_HUMAN" (get d "current_state"))
          && not (is_null (get d "pending_decision_id")))
        state_corrupt "pending_decision_id" "pending_decision_id is only valid for WAITING_HUMAN"
    ∷ with_code (optional_safe_id d "last_transition_id") state_corrupt
    ∷ with_code (optional_safe_id d "policy_evaluation_id") state_corrupt
    ∷ with_code (optional_safe_id d "pending_decision_id") state_corrupt
    ∷ []

unfoldable pub check_pending : Dict → Check (Unit {0})
unfolding first_of refuse_if get mem
check_pending d = first_of (pending_checks d)

abbrev pub task_state_checks : Outside → Dict → List (Check (Unit {0}))
task_state_checks outside d =
    with_code (validate_exact_mapping outside d task_state_fields "task state" "") state_corrupt
    ∷ with_code (check_state_fields outside d) state_corrupt
    ∷ check_pending d
    ∷ []

unfoldable pub validate_task_state : Outside → Value → Check (Unit {0})
unfolding require_mapping with_code validate_exact_mapping check_state_fields check_pending first_of
validate_task_state outside v =
    require_mapping v state_corrupt "$" "task state must be a mapping" >>= λ d.
    first_of (task_state_checks outside d)
