-- ===== src/Workflow/Transaction.antt =====
-- `validate_transition_transaction` of acgps/workflow_contracts.py: the plan of one operation, with
-- its request, result, audit event and task state.
use Prim.Native.String as S
use acgps_public.Prelude.{String, Bool, not, ◌&&◌, ◌||◌, List, [], ◌∷◌, ◌==◌, if◌then◌else◌}
use acgps_public.Py.Result.{ok}
use acgps_public.Py.Text.{fmt}
use acgps_public.Py.Value.{Value, text, dict, Fields, end, field, Dict, get, pairs, py_eq, is_null}
use acgps_public.Policy.Profile.{is_safe_relative_path}
use acgps_public.Workflow.Outcome.{
  Check, Outside, refuse_if, first_of, with_code, require_equal, text_is, validate_schema_version,
  require_safe_id, require_non_empty_string, require_member, require_sha, validate_utc,
}
use acgps_public.Workflow.Vocabulary.{transition_operation_kinds, transition_phases}
use acgps_public.Workflow.Binding.{is_the_text}
use acgps_public.Workflow.Request.{
  validate_transition_request, validate_task_initialization_request,
}
use acgps_public.Workflow.Result.{validate_transition_result, validate_task_initialization_result}
use acgps_public.Workflow.Graph.{incomplete}

-- `key.endswith(suffix)`
ends_with : String → String → Bool
ends_with suffix S.[] = suffix == S.[]
ends_with suffix (S.◌∷◌ c s) = suffix == S.◌∷◌ c s || ends_with suffix s

-- The fields whose names do not end in `_at_utc`.
without_times : Fields → Fields
unfolding ends_with
without_times end = end
without_times (field k v fs) =
    let rest = without_times fs in if ends_with "_at_utc" k then rest else field k v rest

-- `_operation_request_fingerprint`
unfoldable pub operation_request_fingerprint : Outside → Value → String
unfolding without_times
operation_request_fingerprint outside (dict fields) = outside.sha (dict (without_times fields))
operation_request_fingerprint outside _ = ""

-- `_transaction_artifact_path`, once both identities are texts.
abbrev artifact_path : Value → String → Value → String → String
unfolding fmt
artifact_path (text task) prefix (text operation) leaf =
    fmt ("state/transactions/" ∷ task ∷ "/" ∷ prefix ∷ "-" ∷ operation ∷ "/" ∷ leaf ∷ [])
artifact_path _ prefix _ leaf = ""

abbrev pub is_initialization : Dict → Bool
is_initialization d = is_the_text "INITIALIZATION" (get d "operation_kind")

-- `_require_equal` of two values, with the code that it has by default.
unfoldable pub equal_values : Value → Value → String → String → Check (Unit {0})
unfolding require_equal
equal_values actual expected path message = require_equal actual expected path message incomplete

unfoldable pub check_transaction_fields : Outside → Dict → Check (Unit {0})
unfolding first_of get validate_schema_version require_safe_id require_member require_sha
    require_non_empty_string validate_utc
check_transaction_fields outside d = first_of (
    validate_schema_version (get d "schema_version") "schema_version"
    ∷ require_safe_id (get d "transaction_id") "transaction_id"
    ∷ require_member (get d "operation_kind") transition_operation_kinds "operation_kind" incomplete
    ∷ require_safe_id (get d "operation_id") "operation_id"
    ∷ require_safe_id (get d "task_id") "task_id"
    ∷ require_non_empty_string (get d "idempotency_key") "idempotency_key"
    ∷ require_sha (get d "request_fingerprint") "request_fingerprint"
    ∷ require_member (get d "latest_phase") transition_phases "latest_phase" incomplete
    ∷ require_sha (get d "planned_audit_event_hash") "planned_audit_event_hash"
    ∷ require_sha (get d "planned_state_hash") "planned_state_hash"
    ∷ require_sha (get d "planned_result_hash") "planned_result_hash"
    ∷ validate_utc outside (get d "created_at_utc") "created_at_utc"
    ∷ validate_utc outside (get d "updated_at_utc") "updated_at_utc"
    ∷ [])

-- The request names the task and the key of the transaction.
unfoldable pub check_request_names : Dict → Value → Check (Unit {0})
unfolding first_of equal_values get pairs
check_request_names d (dict request) = first_of (
    equal_values (get d "task_id") (get (pairs request) "task_id") "task_id"
      "transaction task_id must match request task_id"
    ∷ equal_values (get d "idempotency_key") (get (pairs request) "idempotency_key")
        "idempotency_key" "transaction idempotency_key must match request"
    ∷ [])
check_request_names d _ = ok tt

-- One path of the phase journal.
unfoldable pub check_artifact_path : Dict → String → String → Check (Unit {0})
unfolding refuse_if get is_safe_relative_path fmt
check_artifact_path d name leaf =
    let expected =
      artifact_path (get d "task_id")
        (if is_initialization d then "initialization" else "transition") (get d "operation_id")
        leaf in
    refuse_if (not (text_is (λ s. is_safe_relative_path s && s == expected) (get d name)))
      incomplete name (fmt (name ∷ " must be " ∷ expected ∷ []))

unfoldable pub check_journal : Dict → Check (Unit {0})
unfolding first_of check_artifact_path refuse_if get py_eq
check_journal d = first_of (
    check_artifact_path d "phase_journal_path" "phases.0001.jsonl"
    ∷ check_artifact_path d "phase_journal_index_path" "phase_segments.jsonl"
    ∷ refuse_if (not (py_eq (get d "first_journal_segment_id") (text "0001"))) incomplete
        "first_journal_segment_id" "first_journal_segment_id must be 0001"
    ∷ [])

-- The identity, the request and the result of each kind of operation.
abbrev pub initialization_records : Outside → Dict → List (Check (Unit {0}))
initialization_records outside d =
    refuse_if
      (not (py_eq (get d "initialization_id") (get d "operation_id"))
        || not (is_null (get d "transition_id")))
      incomplete "initialization_id"
      "INITIALIZATION requires initialization_id=operation_id and transition_id=null"
    ∷ with_code (validate_task_initialization_request outside (get d "canonical_request"))
        incomplete
    ∷ with_code (validate_task_initialization_result outside (get d "canonical_result")) incomplete
    ∷ []

abbrev pub transition_records : Outside → Dict → List (Check (Unit {0}))
transition_records outside d =
    refuse_if
      (not (py_eq (get d "transition_id") (get d "operation_id"))
        || not (is_null (get d "initialization_id")))
      incomplete "transition_id"
      "TRANSITION requires transition_id=operation_id and initialization_id=null"
    ∷ with_code (validate_transition_request outside (get d "canonical_request")) incomplete
    ∷ with_code (validate_transition_result outside (get d "canonical_result")) incomplete
    ∷ []

unfoldable pub check_records : Outside → Dict → Check (Unit {0})
unfolding first_of refuse_if with_code validate_task_initialization_request
    validate_task_initialization_result validate_transition_request validate_transition_result py_eq
    get
check_records outside d =
    if is_initialization d
    then first_of (initialization_records outside d)
    else first_of (transition_records outside d)
