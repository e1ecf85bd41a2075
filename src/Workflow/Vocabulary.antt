-- ===== src/Workflow/Vocabulary.antt =====
-- The vocabularies and the field sets of acgps/workflow_contracts.py.
use acgps_public.Prelude.{String, List, [], ◌∷◌}

-- ACTORS
abbrev pub actors : List String
actors = "PLANNER" ∷ "CODER" ∷ "REVIEWER" ∷ "VERIFIER" ∷ "CONTROLLER" ∷ "HUMAN" ∷ []

-- SOURCES
abbrev pub sources : List String
sources = "path" ∷ "embedded" ∷ []

-- EVENT_TYPES
abbrev pub event_types : List String
event_types =
    "TASK_CREATED" ∷ "TRANSITION_ACCEPTED" ∷ "RECOVERY_RECORDED" ∷ "ROLLBACK_RECORDED" ∷ []

-- RECOVERY_ACTIONS
abbrev pub recovery_actions : List String
recovery_actions =
    "replay" ∷ "quarantine_and_start_generation" ∷ "rollback_to_valid_prefix"
    ∷ "classify_threat_model_limit" ∷ []

-- RECOVERY_EVENT_TYPES
abbrev pub recovery_event_types : List String
recovery_event_types = "RECOVERY_RECORDED" ∷ "ROLLBACK_RECORDED" ∷ []

-- THREAT_MODELS
abbrev pub threat_models : List String
threat_models = "CORRUPTION_AND_NON_COORDINATED_TAMPER_ONLY" ∷ []

-- HUMAN_GATE_AUTHORIZED_TRANSITIONS
abbrev pub human_gate_authorized_transitions : List String
human_gate_authorized_transitions = "WAITING_HUMAN" ∷ "ABANDONED" ∷ []

-- TRANSITION_REQUEST_FIELDS
abbrev pub transition_request_fields : List String
transition_request_fields =
    "schema_version" ∷ "transition_id" ∷ "task_id" ∷ "project_id" ∷ "from_state" ∷ "to_state"
    ∷ "actor" ∷ "idempotency_key" ∷ "policy_evaluation_binding" ∷ "evidence_bindings"
    ∷ "decision_resolution_binding" ∷ "created_at_utc" ∷ []

-- EVIDENCE_BINDING_FIELDS
abbrev pub evidence_binding_fields : List String
evidence_binding_fields =
    "schema_version" ∷ "binding_id" ∷ "evidence_kind" ∷ "source" ∷ "path" ∷ "embedded_record"
    ∷ "embedded_sha256" ∷ "content_sha256" ∷ "size_bytes" ∷ "created_at_utc" ∷ []

-- POLICY_BINDING_FIELDS
abbrev pub policy_binding_fields : List String
policy_binding_fields =
    "schema_version" ∷ "evaluation_id" ∷ "source" ∷ "path" ∷ "embedded_record" ∷ "result_sha256"
    ∷ "policy_bundle_digest" ∷ "authorized_transitions" ∷ "human_gate" ∷ "created_at_utc" ∷ []

-- DECISION_BINDING_FIELDS
abbrev pub decision_binding_fields : List String
decision_binding_fields =
    "schema_version" ∷ "decision_id" ∷ "project_id" ∷ "task_id" ∷ "status"
    ∷ "authorized_target_state" ∷ "source" ∷ "path" ∷ "embedded_record" ∷ "resolution_sha256"
    ∷ "resolved_at_utc" ∷ []

-- TRANSITION_RESULT_FIELDS
abbrev pub transition_result_fields : List String
transition_result_fields =
    "schema_version" ∷ "transition_id" ∷ "task_id" ∷ "accepted" ∷ "resulting_state"
    ∷ "audit_event_id" ∷ "fail_closed" ∷ "error_code" ∷ "issues" ∷ "idempotent_replay"
    ∷ "created_at_utc" ∷ []

-- INITIALIZATION_REQUEST_FIELDS
abbrev pub initialization_request_fields : List String
initialization_request_fields =
    "schema_version" ∷ "initialization_id" ∷ "task_id" ∷ "project_id" ∷ "initial_state" ∷ "actor"
    ∷ "idempotency_key" ∷ "task_intake_binding" ∷ "created_at_utc" ∷ []

-- INITIALIZATION_RESULT_FIELDS
abbrev pub initialization_result_fields : List String
initialization_result_fields =
    "schema_version" ∷ "initialization_id" ∷ "task_id" ∷ "project_id" ∷ "accepted"
    ∷ "resulting_state" ∷ "audit_event_id" ∷ "audit_generation" ∷ "audit_sequence" ∷ "fail_closed"
    ∷ "error_code" ∷ "issues" ∷ "idempotent_replay" ∷ "created_at_utc" ∷ []

-- TASK_STATE_FIELDS
abbrev pub task_state_fields : List String
task_state_fields =
    "schema_version" ∷ "task_id" ∷ "project_id" ∷ "current_state" ∷ "previous_state"
    ∷ "last_transition_id" ∷ "audit_generation" ∷ "audit_head_event_id" ∷ "audit_head_hash"
    ∷ "policy_evaluation_id" ∷ "pending_decision_id" ∷ "updated_at_utc" ∷ []

-- AUDIT_EVENT_FIELDS
abbrev pub audit_event_fields : List String
audit_event_fields =
    "schema_version" ∷ "event_id" ∷ "generation" ∷ "sequence" ∷ "project_id" ∷ "task_id"
    ∷ "event_type" ∷ "actor" ∷ "from_state" ∷ "to_state" ∷ "transition_id"
    ∷ "policy_evaluation_binding" ∷ "evidence_bindings" ∷ "decision_resolution_binding"
    ∷ "previous_event_hash" ∷ "event_hash" ∷ "created_at_utc" ∷ "details" ∷ []

-- AUDIT_GENERATION_FIELDS
abbrev pub audit_generation_fields : List String
audit_generation_fields =
    "schema_version" ∷ "task_id" ∷ "generation" ∷ "predecessor_generation"
    ∷ "predecessor_valid_head_hash" ∷ "quarantine_path" ∷ "started_by_event_id"
    ∷ "started_by_event_type" ∷ "threat_model" ∷ "created_at_utc" ∷ []

-- TRUSTED_PREFIX_FIELDS
abbrev pub trusted_prefix_fields : List String
trusted_prefix_fields = "generation" ∷ "sequence" ∷ "event_id" ∷ "event_hash" ∷ []

-- TRANSITION_OPERATION_KINDS
abbrev pub transition_operation_kinds : List String
transition_operation_kinds = "INITIALIZATION" ∷ "TRANSITION" ∷ []

-- TRANSITION_PHASES
abbrev pub transition_phases : List String
transition_phases =
    "PREPARED" ∷ "AUDIT_APPENDED" ∷ "STATE_REPLACED" ∷ "IDEMPOTENCY_RECORDED" ∷ "COMMITTED"
    ∷ "ABORTED" ∷ []

-- TRANSITION_TRANSACTION_FIELDS
abbrev pub transition_transaction_fields : List String
transition_transaction_fields =
    "schema_version" ∷ "transaction_id" ∷ "operation_kind" ∷ "operation_id" ∷ "initialization_id"
    ∷ "transition_id" ∷ "task_id" ∷ "idempotency_key" ∷ "request_fingerprint" ∷ "phase_journal_path"
    ∷ "phase_journal_index_path" ∷ "first_journal_segment_id" ∷ "latest_phase" ∷ "canonical_request"
    ∷ "planned_audit_event" ∷ "planned_state" ∷ "canonical_result" ∷ "planned_audit_event_hash"
    ∷ "planned_state_hash" ∷ "planned_result_hash" ∷ "created_at_utc" ∷ "updated_at_utc" ∷ []
