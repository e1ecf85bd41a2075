-- ===== src/Workflow/Examples.antt =====
-- Records that pass the checks, for the tests: a task that is created and classified.
use acgps_public.Prelude.{String, false, none, some, List, [], ◌∷◌, leb, ◌&&◌}
use acgps_public.Py.Result.{ok}
use acgps_public.Py.Value.{
  pos, Value, null, bool, int, text, seq, Items, nil, cons, dict_of, seq_of,
}
use acgps_public.Workflow.Outcome.{Outside}
use acgps_public.Workflow.Catalog.{Catalog}

-- A digest.
abbrev pub digest : String
digest = "aaaaaaaaaaaaaaaaaaaaaaaaaaaaaaaaaaaaaaaaaaaaaaaaaaaaaaaaaaaaaaaa"

-- Every text has this digest, no contract is broken, and sets are iterated as they are written.
abbrev pub here : Outside
here = record {
  sha = λ v. digest;
  size = λ v. 2;
  is_digit = λ c. leb b'0' c && leb c b'9';
  reprinted = λ s. some s;
  contract = λ name v. none;
  iteration = λ names. names;
}

abbrev texts : List String → Value
texts [] = seq_of []
texts (s ∷ ss) = seq (cons (text s) (rest ss))
  where
    rest : List String → Items
    rest [] = nil
    rest (t ∷ ts) = cons (text t) (rest ts)

-- The rules of the catalog for the two event types.
abbrev pub rules : Value
rules = dict_of (
    (
      "event_type_matrix",
      dict_of (
          (
            "TASK_CREATED",
            dict_of (
                ("required", texts ("details.audit_generation" ∷ []))
                ∷ ("nullable", texts ("from_state" ∷ "to_state" ∷ "transition_id" ∷ []))
                ∷ ("empty", texts ("evidence_bindings" ∷ []))
                ∷ (
                  "generation_role",
                  dict_of (
                      ("sequence", int (pos 1))
                      ∷ ("generation", int (pos 1))
                      ∷ ("first_event_type", text "TASK_CREATED")
                      ∷ []),
                )
                ∷ ("context_bindings", dict_of [])
                ∷ []),
          )
          ∷ (
            "TRANSITION_ACCEPTED",
            dict_of (
                ("required", texts ("from_state" ∷ "to_state" ∷ "transition_id" ∷ []))
                ∷ ("nullable", texts ("decision_resolution_binding" ∷ []))
                ∷ ("non_empty", texts ("evidence_bindings" ∷ []))
                ∷ ("generation_role", dict_of (("sequence_must_not_be", int (pos 1)) ∷ []))
                ∷ (
                  "context_bindings",
                  dict_of (
                      ("policy_project_id", text "project_id")
                      ∷ ("policy_task_id", text "task_id")
                      ∷ ("policy_authorizes_to_state", text "to_state")
                      ∷ ("decision_only_from_state", text "WAITING_HUMAN")
                      ∷ []),
                )
                ∷ []),
          )
          ∷ []),
    )
    ∷ [])

abbrev pub loaded : Catalog
loaded = ok rules

abbrev pub now : Value
now = text "2026-01-01T00:00:00Z"

abbrev start_record : Value
start_record = dict_of (
    ("schema_version", int (pos 1))
    ∷ ("task_id", text "t1")
    ∷ ("generation", int (pos 1))
    ∷ ("predecessor_generation", null)
    ∷ ("predecessor_valid_head_hash", null)
    ∷ ("quarantine_path", null)
    ∷ ("started_by_event_id", text "e1")
    ∷ ("started_by_event_type", text "TASK_CREATED")
    ∷ ("threat_model", text "CORRUPTION_AND_NON_COORDINATED_TAMPER_ONLY")
    ∷ ("created_at_utc", now)
    ∷ [])

-- The event that creates the task, and the state that it leads to.
abbrev pub created_event : Value
created_event = dict_of (
    ("schema_version", int (pos 1))
    ∷ ("event_id", text "e1")
    ∷ ("generation", int (pos 1))
    ∷ ("sequence", int (pos 1))
    ∷ ("project_id", text "p1")
    ∷ ("task_id", text "t1")
    ∷ ("event_type", text "TASK_CREATED")
    ∷ ("actor", text "CONTROLLER")
    ∷ ("from_state", null)
    ∷ ("to_state", null)
    ∷ ("transition_id", null)
    ∷ ("policy_evaluation_binding", null)
    ∷ ("evidence_bindings", seq_of [])
    ∷ ("decision_resolution_binding", null)
    ∷ ("previous_event_hash", null)
    ∷ ("event_hash", text digest)
    ∷ ("created_at_utc", now)
    ∷ ("details", dict_of (("audit_generation", start_record) ∷ []))
    ∷ [])

abbrev pub draft_state : Value
draft_state = dict_of (
    ("schema_version", int (pos 1))
    ∷ ("task_id", text "t1")
    ∷ ("project_id", text "p1")
    ∷ ("current_state", text "DRAFT")
    ∷ ("previous_state", null)
    ∷ ("last_transition_id", null)
    ∷ ("audit_generation", int (pos 1))
    ∷ ("audit_head_event_id", text "e1")
    ∷ ("audit_head_hash", text digest)
    ∷ ("policy_evaluation_id", null)
    ∷ ("pending_decision_id", null)
    ∷ ("updated_at_utc", now)
    ∷ [])

-- A policy result of the task, and its binding.
abbrev policy_result : Value
policy_result = dict_of (
    ("evaluation_id", text "ev1")
    ∷ ("policy_bundle_digest", text digest)
    ∷ ("project_id", text "p1")
    ∷ ("task_id", text "t1")
    ∷ (
      "result",
      dict_of (
          ("authorized_transitions", texts ("READY_FOR_CLASSIFICATION" ∷ []))
          ∷ ("human_gate", bool false)
          ∷ []),
    )
    ∷ [])

abbrev pub policy_binding : Value
policy_binding = dict_of (
    ("schema_version", int (pos 1))
    ∷ ("evaluation_id", text "ev1")
    ∷ ("source", text "embedded")
    ∷ ("path", null)
    ∷ ("embedded_record", policy_result)
    ∷ ("result_sha256", text digest)
    ∷ ("policy_bundle_digest", text digest)
    ∷ ("authorized_transitions", texts ("READY_FOR_CLASSIFICATION" ∷ []))
    ∷ ("human_gate", bool false)
    ∷ ("created_at_utc", null)
    ∷ [])

abbrev pub evidence : Value
evidence = dict_of (
    ("schema_version", int (pos 1))
    ∷ ("binding_id", text "b1")
    ∷ ("evidence_kind", text "NOTE")
    ∷ ("source", text "embedded")
    ∷ ("path", null)
    ∷ ("embedded_record", dict_of [])
    ∷ ("embedded_sha256", text digest)
    ∷ ("content_sha256", text digest)
    ∷ ("size_bytes", int (pos 2))
    ∷ ("created_at_utc", null)
    ∷ [])

-- The event that moves the task on, and the state that it leads to.
abbrev pub ready_event : Value
ready_event = dict_of (
    ("schema_version", int (pos 1))
    ∷ ("event_id", text "e2")
    ∷ ("generation", int (pos 1))
    ∷ ("sequence", int (pos 2))
    ∷ ("project_id", text "p1")
    ∷ ("task_id", text "t1")
    ∷ ("event_type", text "TRANSITION_ACCEPTED")
    ∷ ("actor", text "CONTROLLER")
    ∷ ("from_state", text "DRAFT")
    ∷ ("to_state", text "READY_FOR_CLASSIFICATION")
    ∷ ("transition_id", text "x1")
    ∷ ("policy_evaluation_binding", policy_binding)
    ∷ ("evidence_bindings", seq_of (evidence ∷ []))
    ∷ ("decision_resolution_binding", null)
    ∷ ("previous_event_hash", text digest)
    ∷ ("event_hash", text digest)
    ∷ ("created_at_utc", now)
    ∷ ("details", dict_of [])
    ∷ [])

abbrev pub ready_state : Value
ready_state = dict_of (
    ("schema_version", int (pos 1))
    ∷ ("task_id", text "t1")
    ∷ ("project_id", text "p1")
    ∷ ("current_state", text "READY_FOR_CLASSIFICATION")
    ∷ ("previous_state", text "DRAFT")
    ∷ ("last_transition_id", text "x1")
    ∷ ("audit_generation", int (pos 1))
    ∷ ("audit_head_event_id", text "e2")
    ∷ ("audit_head_hash", text digest)
    ∷ ("policy_evaluation_id", text "ev1")
    ∷ ("pending_decision_id", null)
    ∷ ("updated_at_utc", now)
    ∷ [])

-- The request of that transition.
abbrev pub ready_request : Value
ready_request = dict_of (
    ("schema_version", int (pos 1))
    ∷ ("transition_id", text "x1")
    ∷ ("task_id", text "t1")
    ∷ ("project_id", text "p1")
    ∷ ("from_state", text "DRAFT")
    ∷ ("to_state", text "READY_FOR_CLASSIFICATION")
    ∷ ("actor", text "CONTROLLER")
    ∷ ("idempotency_key", text "k1")
    ∷ ("policy_evaluation_binding", policy_binding)
    ∷ ("evidence_bindings", seq_of (evidence ∷ []))
    ∷ ("decision_resolution_binding", null)
    ∷ ("created_at_utc", now)
    ∷ [])
