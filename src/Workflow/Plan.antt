-- ===== src/Workflow/Plan.antt =====
-- What `validate_transition_transaction` of acgps/workflow_contracts.py compares between the records
-- of one transaction, and its whole check.
use acgps_public.Prelude.{String, not, List, [], ◌∷◌, if◌then◌else◌}
use acgps_public.Py.Result.{◌>>=◌}
use acgps_public.Py.Value.{Value, null, text, Dict, get}
use acgps_public.Workflow.Outcome.{
  Check, Outside, refuse_if, first_of, with_code, require_mapping, validate_exact_mapping,
}
use acgps_public.Workflow.Vocabulary.{transition_transaction_fields}
use acgps_public.Workflow.Binding.{is_the_text}
use acgps_public.Workflow.Request.{mapping_of}
use acgps_public.Workflow.TaskState.{validate_task_state}
use acgps_public.Workflow.AuditEvent.{validate_audit_event}
use acgps_public.Workflow.Catalog.{Catalog}
use acgps_public.Workflow.Graph.{incomplete, validate_transition_operation_graph}
use acgps_public.Workflow.Transaction.{
  operation_request_fingerprint, is_initialization, equal_values, check_transaction_fields,
  check_request_names, check_journal, check_records,
}

-- The records of the transaction.
abbrev pub request_of : Dict → Dict
request_of d = mapping_of (get d "canonical_request")

abbrev pub result_of : Dict → Dict
result_of d = mapping_of (get d "canonical_result")

abbrev pub event_of : Dict → Dict
event_of d = mapping_of (get d "planned_audit_event")

abbrev pub state_of : Dict → Dict
state_of d = mapping_of (get d "planned_state")

unfoldable pub check_request_binding : Outside → Dict → Check (Unit {0})
unfolding first_of equal_values get operation_request_fingerprint
check_request_binding outside d = first_of (
    equal_values (get d "task_id") (get (request_of d) "task_id") "task_id"
      "transaction task_id must match request task_id"
    ∷ equal_values (get d "idempotency_key") (get (request_of d) "idempotency_key")
        "idempotency_key" "transaction idempotency_key must match request"
    ∷ equal_values (get d "request_fingerprint")
        (text (operation_request_fingerprint outside (get d "canonical_request")))
        "request_fingerprint" "request_fingerprint must match timestamp-free canonical_request"
    ∷ [])

unfoldable pub check_result_binding : Dict → Check (Unit {0})
unfolding first_of equal_values get
check_result_binding d =
    if is_initialization d
    then first_of (
        equal_values (get d "operation_id") (get (request_of d) "initialization_id") "operation_id"
          "operation_id must match initialization request"
        ∷ equal_values (get d "operation_id") (get (result_of d) "initialization_id")
            "canonical_result.initialization_id" "result initialization_id must match operation_id"
        ∷ equal_values (get d "task_id") (get (result_of d) "task_id") "canonical_result.task_id"
            "result task_id must match transaction task_id"
        ∷ equal_values (get (request_of d) "project_id") (get (result_of d) "project_id")
            "canonical_result.project_id" "result project_id must match request"
        ∷ [])
    else first_of (
        equal_values (get d "operation_id") (get (request_of d) "transition_id") "operation_id"
          "operation_id must match transition request"
        ∷ equal_values (get d "operation_id") (get (result_of d) "transition_id")
            "canonical_result.transition_id" "result transition_id must match operation_id"
        ∷ equal_values (get d "task_id") (get (result_of d) "task_id") "canonical_result.task_id"
            "result task_id must match transaction task_id"
        ∷ equal_values (get (request_of d) "to_state") (get (result_of d) "resulting_state")
            "canonical_result.resulting_state" "resulting_state must match requested target"
        ∷ [])

-- The planned records are of the task and of the project.
abbrev pub planned_names : Dict → List (Check (Unit {0}))
planned_names d =
    equal_values (get (event_of d) "task_id") (get d "task_id") "planned_audit_event.task_id"
      "planned audit task_id must match transaction"
    ∷ equal_values (get (event_of d) "project_id") (get (request_of d) "project_id")
        "planned_audit_event.project_id" "planned audit project_id must match request"
    ∷ equal_values (get (state_of d) "task_id") (get d "task_id") "planned_state.task_id"
        "planned state task_id must match transaction"
    ∷ equal_values (get (state_of d) "project_id") (get (request_of d) "project_id")
        "planned_state.project_id" "planned state project_id must match request"
    ∷ []

unfoldable pub check_planned_names : Dict → Check (Unit {0})
unfolding first_of equal_values get
check_planned_names d = first_of (planned_names d)

-- The plan of an initialization.
unfoldable pub check_planned_start : Dict → Check (Unit {0})
unfolding first_of equal_values get
check_planned_start d = first_of (
    equal_values (get (event_of d) "event_type") (text "TASK_CREATED")
      "planned_audit_event.event_type" "initialization must plan TASK_CREATED audit event"
    ∷ equal_values (get (state_of d) "current_state") (get (result_of d) "resulting_state")
        "planned_state.current_state" "planned state must match initialization result"
    ∷ equal_values (get (state_of d) "previous_state") null "planned_state.previous_state"
        "initialization state must not have previous_state"
    ∷ equal_values (get (state_of d) "last_transition_id") null "planned_state.last_transition_id"
        "initialization state must not have transition id"
    ∷ [])

-- The plan of a transition.
abbrev pub planned_move : Dict → List (Check (Unit {0}))
planned_move d =
    equal_values (get (event_of d) "event_type") (text "TRANSITION_ACCEPTED")
      "planned_audit_event.event_type" "transition must plan TRANSITION_ACCEPTED audit event"
    ∷ equal_values (get (event_of d) "transition_id") (get d "operation_id")
        "planned_audit_event.transition_id" "planned audit transition_id must match operation_id"
    ∷ equal_values (get (event_of d) "from_state") (get (request_of d) "from_state")
        "planned_audit_event.from_state" "planned audit from_state must match request"
    ∷ equal_values (get (event_of d) "to_state") (get (request_of d) "to_state")
        "planned_audit_event.to_state" "planned audit to_state must match request"
    ∷ equal_values (get (state_of d) "current_state") (get (request_of d) "to_state")
        "planned_state.current_state" "planned state current_state must match request target"
    ∷ equal_values (get (state_of d) "previous_state") (get (request_of d) "from_state")
        "planned_state.previous_state" "planned state previous_state must match request source"
    ∷ equal_values (get (state_of d) "last_transition_id") (get d "operation_id")
        "planned_state.last_transition_id"
        "planned state last_transition_id must match operation_id"
    ∷ equal_values (get (state_of d) "policy_evaluation_id")
        (get (mapping_of (get (request_of d) "policy_evaluation_binding")) "evaluation_id")
        "planned_state.policy_evaluation_id" "planned state must bind policy evaluation id"
    ∷ equal_values (get (result_of d) "audit_event_id") (get (event_of d) "event_id")
        "canonical_result.audit_event_id" "result audit_event_id must match planned audit event"
    ∷ equal_values (get (state_of d) "audit_head_event_id") (get (event_of d) "event_id")
        "planned_state.audit_head_event_id"
        "planned state audit head event must match planned audit event"
    ∷ equal_values (get (state_of d) "audit_head_hash") (get (event_of d) "event_hash")
        "planned_state.audit_head_hash"
        "planned state audit head hash must match planned audit event"
    ∷ equal_values (get (state_of d) "audit_generation") (get (event_of d) "generation")
        "planned_state.audit_generation"
        "planned state audit generation must match planned audit event"
    ∷ equal_values (get (event_of d) "policy_evaluation_binding")
        (get (request_of d) "policy_evaluation_binding")
        "planned_audit_event.policy_evaluation_binding"
        "planned audit policy binding must match request"
    ∷ equal_values (get (event_of d) "evidence_bindings") (get (request_of d) "evidence_bindings")
        "planned_audit_event.evidence_bindings" "planned audit evidence bindings must match request"
    ∷ []

unfoldable pub check_planned_move : Dict → Check (Unit {0})
unfolding first_of equal_values get
check_planned_move d = first_of (planned_move d)

-- A hash of the plan is the digest of its record.
unfoldable pub check_planned_hash : Outside → Dict → String → String → Check (Unit {0})
unfolding refuse_if get
check_planned_hash outside d name target =
    refuse_if (not (is_the_text (outside.sha (get d target)) (get d name))) incomplete name
      "planned hash mismatch"

abbrev pub transaction_checks : Outside → Catalog → Value → Dict → List (Check (Unit {0}))
transaction_checks outside loaded v d =
    with_code
      (validate_exact_mapping outside d transition_transaction_fields "transition transaction" "")
      incomplete
    ∷ with_code (check_transaction_fields outside d) incomplete
    ∷ check_request_names d (get d "canonical_request")
    ∷ check_journal d
    ∷ check_records outside d
    ∷ check_request_binding outside d
    ∷ check_result_binding d
    ∷ with_code (validate_audit_event outside loaded (get d "planned_audit_event")) incomplete
    ∷ with_code (validate_task_state outside (get d "planned_state")) incomplete
    ∷ check_planned_names d
    ∷ (if is_initialization d then check_planned_start d else check_planned_move d)
    ∷ validate_transition_operation_graph loaded v d
    ∷ check_planned_hash outside d "planned_audit_event_hash" "planned_audit_event"
    ∷ check_planned_hash outside d "planned_state_hash" "planned_state"
    ∷ check_planned_hash outside d "planned_result_hash" "canonical_result"
    ∷ []

unfoldable pub validate_transition_transaction : Outside → Catalog → Value → Check (Unit {0})
unfolding first_of with_code require_mapping validate_exact_mapping check_transaction_fields
    check_request_names check_journal check_records check_request_binding check_result_binding
    validate_audit_event validate_task_state check_planned_names check_planned_start
    check_planned_move validate_transition_operation_graph check_planned_hash get
validate_transition_transaction outside loaded v =
    require_mapping v incomplete "$" "transition transaction must be a mapping" >>= λ d.
    first_of (transaction_checks outside loaded v d)
