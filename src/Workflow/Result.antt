-- ===== src/Workflow/Result.antt =====
-- The results of acgps/workflow_contracts.py: `validate_transition_result`,
-- `validate_task_initialization_result` and the envelope that they share.
use acgps_public.Prelude.{
  ℕ, ◌+◌, String, Bool, true, false, not, ◌&&◌, ◌||◌, List, [], ◌∷◌, ◌==◌, if◌then◌else◌,
}
use acgps_public.Py.Result.{ok, ◌>>=◌, ◌>>◌}
use acgps_public.Py.Text.{fmt, show}
use acgps_public.Py.Value.{Value, bool, text, seq, Dict, get, py_eq, items, is_null, is_text}
use acgps_public.Policy.Vocabulary.{task_states}
use acgps_public.Workflow.Outcome.{
  Check, Outside, refuse_if, first_of, invalid_outcome, require_mapping, validate_exact_mapping,
  validate_schema_version, require_safe_id, require_bool, require_positive_int, validate_utc,
  has_exactly, workflow_error_codes,
}
use acgps_public.Workflow.Vocabulary.{transition_result_fields, initialization_result_fields}
use acgps_public.Workflow.Binding.{is_the_text}
use acgps_public.Workflow.Generation.{is_among, is_one}

abbrev invalid_input : String
invalid_input = "WORKFLOW_INVALID_INPUT"

abbrev pub is_true : Value → Bool
is_true (bool b) = b
is_true _ = false

abbrev pub is_nonempty_text : Value → Bool
is_nonempty_text (text s) = not (s == "")
is_nonempty_text _ = false

abbrev at_index : String → ℕ → String
unfolding fmt show
at_index path index = fmt (path ∷ "[" ∷ show index ∷ "]" ∷ [])

-- One record of `issues`.
unfoldable pub check_issue : String → Value → Check (Unit {0})
unfolding require_mapping first_of refuse_if get has_exactly fmt
check_issue path v = require_mapping v invalid_input path "issue must be a mapping" >>= λ d.
    first_of (
      refuse_if (not (has_exactly d ("code" ∷ "path" ∷ "message" ∷ []))) invalid_input path
        "issue fields are invalid"
      ∷ refuse_if (not (is_among workflow_error_codes (get d "code"))) invalid_input
          (fmt (path ∷ ".code" ∷ [])) "issue code is not registered"
      ∷ refuse_if (not (is_text (get d "path")) || not (is_nonempty_text (get d "message")))
          invalid_input path "issue path/message invalid"
      ∷ [])

unfoldable pub validate_issue_records : String → ℕ → List Value → Check (Unit {0})
unfolding check_issue fmt show
validate_issue_records path index [] = ok tt
validate_issue_records path index (v ∷ vs) =
    check_issue (at_index path index) v >> validate_issue_records path (index + 1) vs

abbrev has_items : List Value → Bool
has_items [] = false
has_items (v ∷ vs) = true

-- The audit coordinates of an accepted result, where a result has them.
unfoldable pub check_coordinates : Bool → Dict → Check (Unit {0})
unfolding first_of get require_positive_int
check_coordinates false d = ok tt
check_coordinates true d = first_of (
    require_positive_int (get d "audit_generation") "audit_generation"
    ∷ require_positive_int (get d "audit_sequence") "audit_sequence"
    ∷ [])

unfoldable pub check_accepted : Bool → Bool → Dict → List Value → Check (Unit {0})
unfolding first_of get refuse_if check_coordinates
check_accepted allow_audit_coordinates require_audit_event d issues = first_of (
    refuse_if (is_true (get d "fail_closed")) invalid_input "fail_closed"
      "accepted result cannot be fail_closed"
    ∷ refuse_if (not (is_null (get d "error_code"))) invalid_input "error_code"
        "accepted result must not have error_code"
    ∷ refuse_if (has_items issues) invalid_input "issues" "accepted result must not have issues"
    ∷ refuse_if (not (is_among task_states (get d "resulting_state"))) "WORKFLOW_UNKNOWN_STATE"
        "resulting_state" "accepted result needs a declared resulting_state"
    ∷ refuse_if (require_audit_event && not (is_nonempty_text (get d "audit_event_id")))
        invalid_input "audit_event_id" "accepted result needs audit_event_id"
    ∷ check_coordinates allow_audit_coordinates d
    ∷ [])

unfoldable pub check_rejected : Bool → Dict → List Value → Check (Unit {0})
unfolding first_of get refuse_if validate_issue_records
check_rejected allow_audit_coordinates d issues = first_of (
    refuse_if (not (is_true (get d "fail_closed"))) invalid_input "fail_closed"
      "rejected result must be fail_closed"
    ∷ refuse_if (not (is_among workflow_error_codes (get d "error_code"))) invalid_input
        "error_code" "rejected result needs registered error_code"
    ∷ refuse_if (not (is_null (get d "audit_event_id"))) invalid_input "audit_event_id"
        "rejected result must not have audit_event_id"
    ∷ refuse_if (not (is_null (get d "resulting_state"))) invalid_input "resulting_state"
        "rejected result must not have resulting_state"
    ∷ refuse_if
        (allow_audit_coordinates
          && (not (is_null (get d "audit_generation")) || not (is_null (get d "audit_sequence"))))
        invalid_input "audit_generation" "rejected result must not have audit coordinates"
    ∷ refuse_if (not (has_items issues)) invalid_input "issues" "rejected result needs issues"
    ∷ validate_issue_records "issues" 0 issues
    ∷ [])

unfoldable pub issue_list : Value → Check (List Value)
unfolding invalid_outcome items
issue_list (seq vs) = ok (items vs)
issue_list _ = invalid_outcome invalid_input "issues" "issues must be a list"

unfoldable pub validate_result_envelope : Bool → Bool → Dict → String → Check (Unit {0})
unfolding get refuse_if issue_list check_accepted check_rejected
validate_result_envelope allow_audit_coordinates require_audit_event d id_path =
    issue_list (get d "issues") >>= λ issues.
    (if is_true (get d "accepted")
      then check_accepted allow_audit_coordinates require_audit_event d issues
      else check_rejected allow_audit_coordinates d issues)
    >> refuse_if (not (is_nonempty_text (get d id_path))) invalid_input id_path
        "result id must be a non-empty string"

unfoldable pub check_result_fields : Outside → Dict → Check (Unit {0})
unfolding first_of get validate_schema_version require_safe_id require_bool validate_utc
check_result_fields outside d = first_of (
    validate_schema_version (get d "schema_version") "schema_version"
    ∷ require_safe_id (get d "transition_id") "transition_id"
    ∷ require_safe_id (get d "task_id") "task_id"
    ∷ validate_utc outside (get d "created_at_utc") "created_at_utc"
    ∷ require_bool (get d "accepted") "accepted"
    ∷ require_bool (get d "fail_closed") "fail_closed"
    ∷ require_bool (get d "idempotent_replay") "idempotent_replay"
    ∷ [])

unfoldable pub validate_transition_result : Outside → Value → Check (Unit {0})
unfolding require_mapping validate_exact_mapping check_result_fields validate_result_envelope
validate_transition_result outside v =
    require_mapping v invalid_input "$" "transition result must be a mapping" >>= λ d.
    validate_exact_mapping outside d transition_result_fields "transition result" ""
    >> check_result_fields outside d
    >> validate_result_envelope false true d "transition_id"

unfoldable pub check_initialized_fields : Outside → Dict → Check (Unit {0})
unfolding first_of get validate_schema_version require_safe_id require_bool validate_utc
check_initialized_fields outside d = first_of (
    validate_schema_version (get d "schema_version") "schema_version"
    ∷ require_safe_id (get d "initialization_id") "initialization_id"
    ∷ require_safe_id (get d "task_id") "task_id"
    ∷ require_safe_id (get d "project_id") "project_id"
    ∷ validate_utc outside (get d "created_at_utc") "created_at_utc"
    ∷ require_bool (get d "accepted") "accepted"
    ∷ require_bool (get d "fail_closed") "fail_closed"
    ∷ require_bool (get d "idempotent_replay") "idempotent_replay"
    ∷ [])

-- An accepted initialization is the first event of the first generation.
unfoldable pub check_initialized : Dict → Check (Unit {0})
unfolding first_of get refuse_if py_eq
check_initialized d =
    if is_true (get d "accepted")
    then first_of (
        refuse_if (not (is_the_text "DRAFT" (get d "resulting_state")))
          "WORKFLOW_ILLEGAL_TRANSITION" "resulting_state"
          "accepted initialization must result in DRAFT"
        ∷ refuse_if (not (is_one (get d "audit_generation"))) invalid_input "audit_generation"
            "accepted initialization must use audit_generation 1"
        ∷ refuse_if (not (is_one (get d "audit_sequence"))) invalid_input "audit_sequence"
            "accepted initialization must use audit_sequence 1"
        ∷ [])
    else ok tt

unfoldable pub validate_task_initialization_result : Outside → Value → Check (Unit {0})
unfolding require_mapping validate_exact_mapping check_initialized_fields check_initialized
    validate_result_envelope
validate_task_initialization_result outside v =
    require_mapping v invalid_input "$" "initialization result must be a mapping" >>= λ d.
    validate_exact_mapping outside d initialization_result_fields "initialization result" ""
    >> check_initialized_fields outside d
    >> check_initialized d
    >> validate_result_envelope true true d "initialization_id"
