-- ===== src/Tasks/Read.antt =====
-- The reads of acgps/workflow_store.py: `read_task_state`, `read_task_states`,
-- `read_waiting_human_decisions` and `read_audit_events`.
use acgps_public.Prelude.{
  ℕ, ◌+◌, String, not, ◌||◌, Option, none, some, List, [], ◌∷◌, nat_eq, if◌then◌else◌,
}
use acgps_public.Py.Result.{ok, ◌>>=◌}
use acgps_public.Py.Value.{pos, Value, int, text, dict, Fields, Dict, pairs, get, lookup, py_eq}
use acgps_public.Slot.State.{is_safe_id}
use acgps_public.Workflow.Outcome.{Check, Outside}
use acgps_public.Workflow.Binding.{is_the_text}
use acgps_public.Workflow.Catalog.{Catalog}
use acgps_public.Workflow.AuditEvent.{validate_audit_event}
use acgps_public.Workflow.TaskState.{validate_task_state, state_corrupt}
use acgps_public.Workflow.Generation.{audit_corrupt}
use acgps_public.Tasks.Json.{Json, store_error, fail_if, loads_json_mapping}
use acgps_public.Tasks.Tables.{Row, Tables, of_task, of_generation, by_sequence}

-- `_require_safe_id`, of the store
unfoldable pub require_safe_id : Value → String → Check (Unit {0})
unfolding is_safe_id
require_safe_id (text s) path =
    fail_if (not (is_safe_id s)) "WORKFLOW_INVALID_INPUT" path "value must be a safe id"
require_safe_id v path = store_error "WORKFLOW_INVALID_INPUT" path "value must be a safe id"

module _ (json : Json) (outside : Outside) where
  -- A state row, parsed and checked.
  unfoldable pub state_in_row : String → json.Text → String → Check Fields
  unfolding loads_json_mapping validate_task_state py_eq get pairs
  state_in_row task_id state_json message =
      loads_json_mapping json state_json state_corrupt "task_state" >>= λ payload.
      validate_task_state outside (dict payload) >>= λ _.
      fail_if (not (py_eq (get (pairs payload) "task_id") (text task_id))) state_corrupt
        "task_state.task_id" message
      >>= λ _. ok payload

  -- A row of task_states, or the error that it is missing.
  unfoldable pub found_row : Option json.Text → Check json.Text
  found_row none = store_error state_corrupt "task_state" "authoritative task-state row is missing"
  found_row (some state_json) = ok state_json

  unfoldable pub read_task_state : String → Tables json.Text → Check Fields
  unfolding require_safe_id found_row lookup state_in_row
  read_task_state task_id tables = require_safe_id (text task_id) "task_id" >>= λ _.
      found_row (lookup task_id tables.task_states) >>= λ state_json.
      state_in_row task_id state_json "task-state payload must match requested task_id"

  -- `read_task_states`, over the rows in the order of their task_id
  unfoldable pub read_task_states : List (String × json.Text) → Check (List Fields)
  unfolding state_in_row
  read_task_states [] = ok []
  read_task_states ((task_id, state_json) ∷ rows) =
      let rest = read_task_states rows in
      state_in_row task_id state_json "task-state row identity mismatch" >>= λ payload.
      rest >>= λ payloads. ok (payload ∷ payloads)

  -- The pending decision of a state in WAITING_HUMAN.
  unfoldable pub waiting_decision : String → Dict → Check (List (String × String))
  unfolding get
  waiting_decision task_id state =
      if is_the_text "WAITING_HUMAN" (get state "current_state")
      then pending (get state "pending_decision_id")
      else ok []
    where
      pending : Value → Check (List (String × String))
      pending (text decision_id) = ok ((task_id, decision_id) ∷ [])
      pending v =
          store_error state_corrupt "task_state.pending_decision_id"
            "WAITING_HUMAN state requires a pending decision identity"

  abbrev joined : List (String × String) → List (String × String) → List (String × String)
  joined [] ys = ys
  joined (x ∷ xs) ys = x ∷ joined xs ys

  -- `read_waiting_human_decisions`, over the rows in the order of their task_id
  unfoldable pub read_waiting_human_decisions :
      List (String × json.Text) → Check (List (String × String))
  unfolding state_in_row waiting_decision pairs
  read_waiting_human_decisions [] = ok []
  read_waiting_human_decisions ((task_id, state_json) ∷ rows) =
      let rest = read_waiting_human_decisions rows in
      state_in_row task_id state_json "task-state row identity mismatch" >>= λ payload.
      waiting_decision task_id (pairs payload) >>= λ waiting.
      rest >>= λ others. ok (joined waiting others)

  module _ (catalog : Catalog) where
    -- An event row, parsed and checked.
    unfoldable pub event_in_row : json.Text → Check Fields
    unfolding loads_json_mapping validate_audit_event
    event_in_row event_json =
        loads_json_mapping json event_json audit_corrupt "audit_event" >>= λ event.
        validate_audit_event outside catalog (dict event) >>= λ _. ok event

    -- The loop of `read_audit_events`.
    unfoldable pub events_from : String → ℕ → ℕ → List (Row json.Text) → Check (List Fields)
    unfolding event_in_row get py_eq pairs
    events_from task_id generation expected [] = ok []
    events_from task_id generation expected (row ∷ rows) =
        let rest = events_from task_id generation (expected + 1) rows in
        fail_if (not (nat_eq row.sequence expected)) audit_corrupt "sequence"
          "authoritative audit sequence is not contiguous"
        >>= λ _. event_in_row row.event_json >>= λ event.
            fail_if
              (not (py_eq (get (pairs event) "task_id") (text task_id))
                || not (py_eq (get (pairs event) "generation") (int (pos generation)))
                || not (py_eq (get (pairs event) "sequence") (int (pos row.sequence))))
              audit_corrupt "audit_event" "audit row key does not match event payload"
            >>= λ _. rest >>= λ events. ok (event ∷ events)

    -- `read_audit_events`, for a generation that is a natural number
    unfoldable pub read_audit_events : String → ℕ → Tables json.Text → Check (List Fields)
    unfolding require_safe_id events_from of_task of_generation by_sequence
    read_audit_events task_id generation tables = require_safe_id (text task_id) "task_id" >>= λ _.
        fail_if (nat_eq generation 0) "WORKFLOW_INVALID_INPUT" "generation"
          "generation must be a positive integer"
        >>= λ _.
            events_from task_id generation 1
              (by_sequence (of_generation generation (of_task task_id tables.audit_events)))
