-- ===== src/Workflow/Planned.antt =====
-- A transaction that passes the checks, for the tests.
use acgps_public.Prelude.{true, false, [], ◌∷◌}
use acgps_public.Py.Result.{ok}
use acgps_public.Py.Value.{pos, Value, null, bool, int, text, dict, get, pairs, dict_of, seq_of}
use acgps_public.Workflow.Catalog.{Catalog}
use acgps_public.Workflow.Examples.{digest, rules, now, ready_request, ready_event, ready_state}

-- The result of a transition, and the transaction with its plan.
abbrev ready_result : Value
ready_result = dict_of (
    ("schema_version", int (pos 1))
    ∷ ("transition_id", text "x1")
    ∷ ("task_id", text "t1")
    ∷ ("accepted", bool true)
    ∷ ("resulting_state", text "READY_FOR_CLASSIFICATION")
    ∷ ("audit_event_id", text "e2")
    ∷ ("fail_closed", bool false)
    ∷ ("error_code", null)
    ∷ ("issues", seq_of [])
    ∷ ("idempotent_replay", bool false)
    ∷ ("created_at_utc", now)
    ∷ [])

abbrev pub graph_rules : Value
graph_rules = dict_of (
    ("event_type_matrix", matrix rules)
    ∷ (
      "operation_graphs",
      dict_of (
          (
            "transition",
            dict_of (
                ("operation_kind", text "TRANSITION")
                ∷ (
                  "binding_copies",
                  dict_of (("to_state", text "planned_audit_event.to_state") ∷ []),
                )
                ∷ (
                  "identity_bindings",
                  dict_of (("task", dict_of (("task_id", text "planned_state.task_id") ∷ [])) ∷ []),
                )
                ∷ []),
          )
          ∷ []),
    )
    ∷ [])
  where
    matrix : Value → Value
    matrix (dict d) = get (pairs d) "event_type_matrix"
    matrix v = v

abbrev pub ready_transaction : Value
ready_transaction = dict_of (
    ("schema_version", int (pos 1))
    ∷ ("transaction_id", text "n1")
    ∷ ("operation_kind", text "TRANSITION")
    ∷ ("operation_id", text "x1")
    ∷ ("initialization_id", null)
    ∷ ("transition_id", text "x1")
    ∷ ("task_id", text "t1")
    ∷ ("idempotency_key", text "k1")
    ∷ ("request_fingerprint", text digest)
    ∷ ("phase_journal_path", text "state/transactions/t1/transition-x1/phases.0001.jsonl")
    ∷ ("phase_journal_index_path", text "state/transactions/t1/transition-x1/phase_segments.jsonl")
    ∷ ("first_journal_segment_id", text "0001")
    ∷ ("latest_phase", text "PREPARED")
    ∷ ("canonical_request", ready_request)
    ∷ ("planned_audit_event", ready_event)
    ∷ ("planned_state", ready_state)
    ∷ ("canonical_result", ready_result)
    ∷ ("planned_audit_event_hash", text digest)
    ∷ ("planned_state_hash", text digest)
    ∷ ("planned_result_hash", text digest)
    ∷ ("created_at_utc", now)
    ∷ ("updated_at_utc", now)
    ∷ [])

abbrev pub loaded_graph : Catalog
loaded_graph = ok graph_rules
