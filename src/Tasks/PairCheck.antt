-- ===== src/Tasks/PairCheck.antt =====
-- An audit event and the state that it commits, compared as acgps/workflow_store.py compares them.
use acgps_public.Prelude.{ℕ, String, not, ◌||◌, List, [], ◌∷◌, if◌then◌else◌}
use acgps_public.Py.Result.{ok, ◌>>=◌}
use acgps_public.Py.Value.{pos, Value, null, int, text, Dict, get, py_eq}
use acgps_public.Workflow.Outcome.{Check, first_of, item}
use acgps_public.Workflow.Binding.{is_the_text}
use acgps_public.Workflow.TaskState.{state_corrupt}
use acgps_public.Workflow.Generation.{audit_corrupt}
use acgps_public.Tasks.Json.{store_error, fail_if}

-- The columns that a record gives, once it is valid.
abbrev pub column_text : Value → String
column_text (text s) = s
column_text _ = ""

abbrev pub column_int : Value → ℕ
column_int (int (pos n)) = n
column_int _ = 0

unfoldable pub task_of : Dict → String
unfolding get
task_of d = column_text (get d "task_id")

unfoldable pub generation_of : Dict → ℕ
unfolding get
generation_of d = column_int (get d "generation")

unfoldable pub sequence_of : Dict → ℕ
unfolding get
sequence_of d = column_int (get d "sequence")

-- `if state[name] != expected: _raise("WORKFLOW_STATE_CORRUPT", name, ...)`
unfoldable pub state_is : Dict → String → Value → Check (Unit {0})
unfolding get py_eq
state_is state name expected =
    fail_if (not (py_eq (get state name) expected)) state_corrupt name
      "state does not match its audit event"

-- What the state of a task is after an event: current_state, previous_state, last_transition_id
-- and policy_evaluation_id.
pub record Expectation : Type 0 where
  pub current : Value
  pub previous : Value
  pub transition : Value
  pub evaluation : Value

unfoldable pub expectation : Dict → Check Expectation
unfolding get item
expectation event =
    if is_the_text "TASK_CREATED" (get event "event_type")
    then ok
        (record { current = text "DRAFT"; previous = null; transition = null; evaluation = null })
    else if is_the_text "TRANSITION_ACCEPTED" (get event "event_type")
    then (item (get event "policy_evaluation_binding") "evaluation_id" >>= λ evaluation_id.
        ok (record {
          current = get event "to_state";
          previous = get event "from_state";
          transition = get event "transition_id";
          evaluation = evaluation_id;
        }))
    else store_error audit_corrupt "event_type"
        "atomic state commit accepts task and transition events only"

-- The state names the event as the head of its audit trail.
abbrev pub head_checks : Dict → Dict → List (Check (Unit {0}))
head_checks event state =
    fail_if (not (py_eq (get event "task_id") (get state "task_id"))) state_corrupt "task_id"
      "state and audit event task_id must match"
    ∷ fail_if (not (py_eq (get event "project_id") (get state "project_id"))) state_corrupt
        "project_id" "state and audit event project_id must match"
    ∷ fail_if (not (py_eq (get state "audit_generation") (get event "generation"))) state_corrupt
        "audit_generation" "state must bind the audit event generation"
    ∷ fail_if
        (not (py_eq (get state "audit_head_event_id") (get event "event_id"))
          || not (py_eq (get state "audit_head_hash") (get event "event_hash")))
        state_corrupt "audit_head_hash" "state must bind the committed audit event head"
    ∷ []

unfoldable pub check_head : Dict → Dict → Check (Unit {0})
unfolding first_of get py_eq
check_head event state = first_of (head_checks event state)

abbrev pub expectation_checks : Dict → Expectation → List (Check (Unit {0}))
expectation_checks state expected =
    state_is state "current_state" expected.current
    ∷ state_is state "previous_state" expected.previous
    ∷ state_is state "last_transition_id" expected.transition
    ∷ state_is state "policy_evaluation_id" expected.evaluation
    ∷ []

unfoldable pub check_expectation : Dict → Expectation → Check (Unit {0})
unfolding first_of state_is
check_expectation state expected = first_of (expectation_checks state expected)

unfoldable pub validate_state_event_pair : Dict → Dict → Check (Unit {0})
unfolding check_head expectation check_expectation
validate_state_event_pair event state = check_head event state >>= λ _.
    expectation event >>= λ expected. check_expectation state expected
