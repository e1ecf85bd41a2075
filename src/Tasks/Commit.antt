-- ===== src/Tasks/Commit.antt =====
-- The atomic commit of an audit event and its state: `write_task_state`, `append_audit_event` and
-- `commit_task_state_and_audit` of acgps/workflow_store.py.
use acgps_public.Prelude.{ℕ, ◌+◌, Bool, true, false, not, ◌||◌, Option, none, some, List, [], ◌∷◌}
use acgps_public.Py.Result.{ok, ◌>>=◌}
use acgps_public.Py.Text.{is_some}
use acgps_public.Py.Value.{pos, Value, int, dict, Dict, pairs, get, lookup, py_eq}
use acgps_public.Workflow.Outcome.{Check, Outside, first_of}
use acgps_public.Workflow.Binding.{is_the_text}
use acgps_public.Workflow.Request.{mapping_of}
use acgps_public.Workflow.Catalog.{Catalog}
use acgps_public.Workflow.AuditEvent.{validate_audit_event}
use acgps_public.Workflow.TaskState.{validate_task_state, state_corrupt}
use acgps_public.Workflow.Generation.{audit_corrupt, is_one}
use acgps_public.Tasks.Json.{Json, store_error, fail_if, sqlite_json_text, loads_json_mapping}
use acgps_public.Tasks.Tables.{Row, Tables, of_task, of_generation, event_at, latest, upsert}
use acgps_public.Tasks.PairCheck.{
  column_int, task_of, generation_of, sequence_of, validate_state_event_pair,
}

-- `a or b or ...`
unfoldable pub some_of : List Bool → Bool
some_of [] = false
some_of (b ∷ bs) = b || some_of bs

-- In what an event can fail to follow the head of the task's trail.
abbrev pub differences : Dict → Dict → Dict → Dict → ℕ → List Bool
differences event state current previous head_sequence =
    not (is_the_text "TRANSITION_ACCEPTED" (get event "event_type"))
    ∷ not (py_eq (get event "generation") (get current "audit_generation"))
    ∷ not (py_eq (get event "sequence") (int (pos (head_sequence + 1))))
    ∷ not (py_eq (get event "previous_event_hash") (get current "audit_head_hash"))
    ∷ not (py_eq (get previous "event_id") (get current "audit_head_event_id"))
    ∷ not (py_eq (get previous "event_hash") (get current "audit_head_hash"))
    ∷ not (py_eq (get event "from_state") (get current "current_state"))
    ∷ not (py_eq (get state "previous_state") (get current "current_state"))
    ∷ []

unfoldable pub not_successor : Dict → Dict → Dict → Dict → ℕ → Bool
unfolding some_of get py_eq
not_successor event state current previous head_sequence =
    some_of (differences event state current previous head_sequence)

module _ (json : Json) (outside : Outside) (catalog : Catalog) where
  -- A row was found.
  abbrev pub has_rows : List (Row json.Text) → Bool
  has_rows [] = false
  has_rows (r ∷ rs) = true

  -- In what an event can fail to be the first one of a new task.
  abbrev pub first_differences : Dict → Tables json.Text → List Bool
  first_differences event tables =
      has_rows (of_task (task_of event) tables.audit_events)
      ∷ not (is_the_text "TASK_CREATED" (get event "event_type"))
      ∷ not (is_one (get event "generation"))
      ∷ not (is_one (get event "sequence"))
      ∷ []

  -- A new task: no row of the task, and the first event creates it.
  unfoldable pub check_first : Dict → Tables json.Text → Check (Unit {0})
  unfolding of_task get py_eq task_of some_of
  check_first event tables =
      fail_if (some_of (first_differences event tables)) audit_corrupt "audit_event"
        "new task must start with generation 1 sequence 1"

  -- The comparison with the head of the trail.
  unfoldable pub check_against_head : Dict → Dict → Dict → Option (Row json.Text) → Check (Unit {0})
  unfolding loads_json_mapping validate_audit_event not_successor pairs
  check_against_head event state current none =
      store_error audit_corrupt "audit_event" "current state has no authoritative audit head"
  check_against_head event state current (some row) =
      loads_json_mapping json row.event_json audit_corrupt "audit_event" >>= λ previous.
      validate_audit_event outside catalog (dict previous) >>= λ _.
      fail_if (not_successor event state current (pairs previous) row.sequence) audit_corrupt
        "previous_event_hash" "audit successor does not match the authoritative head"

  -- The head of the trail that the current state names by its generation.
  unfoldable pub check_successor : Dict → Dict → Dict → Tables json.Text → Check (Unit {0})
  unfolding of_task of_generation latest get check_against_head task_of
  check_successor event state current tables = check_against_head event state current (
      latest (
        of_generation (column_int (get current "audit_generation"))
          (of_task (task_of event) tables.audit_events)))

  unfoldable pub validate_authoritative_predecessor :
      Dict → Dict → Option json.Text → Tables json.Text → Check (Unit {0})
  unfolding check_first loads_json_mapping validate_task_state check_successor pairs
  validate_authoritative_predecessor event state none tables = check_first event tables
  validate_authoritative_predecessor event state (some stored) tables =
      loads_json_mapping json stored state_corrupt "task_state" >>= λ current.
      validate_task_state outside (dict current) >>= λ _.
      check_successor event state (pairs current) tables

  -- The rows that a commit inserts.
  unfoldable pub inserted :
      Dict → Dict → json.Text → json.Text → Tables json.Text → Tables json.Text
  unfolding task_of generation_of sequence_of upsert
  inserted event state event_json state_json tables = record {
    task_states = upsert (task_of state) state_json tables.task_states;
    audit_events =
        record {
          task_id = task_of event;
          generation = generation_of event;
          sequence = sequence_of event;
          event_json = event_json;
        }
        ∷ tables.audit_events;
  }

  -- `stored == text`, where a missing row is not
  abbrev pub is_stored : Option json.Text → json.Text → Bool
  is_stored none t = false
  is_stored (some stored) t = json.same stored t

  -- A coordinate that is taken: the same event and state, or a conflict.
  unfoldable pub replay :
      json.Text
      → Option json.Text
      → json.Text
      → json.Text
      → Tables json.Text
      → Check (Bool × Tables json.Text)
  replay existing_event existing_state event_json state_json tables =
      fail_if
        (not (json.same existing_event event_json) || not (is_stored existing_state state_json))
        audit_corrupt "audit_event" "audit coordinate already has a conflicting event or state"
      >>= λ _. ok (false, tables)

  -- The transaction; a call that raises is rolled back and leaves the tables as they were.
  unfoldable pub write_pair :
      Dict → Dict → json.Text → json.Text → Tables json.Text → Check (Bool × Tables json.Text)
  unfolding event_at task_of generation_of sequence_of lookup replay
      validate_authoritative_predecessor inserted
  write_pair event state event_json state_json tables =
      elim (event_at (task_of event) (generation_of event) (sequence_of event)
        tables.audit_events) [
          | some existing ↦
              replay existing (lookup (task_of state) tables.task_states) event_json state_json
                tables
          | none ↦
              validate_authoritative_predecessor event state
                (lookup (task_of state) tables.task_states) tables
              >>= λ _. ok (true, inserted event state event_json state_json tables)
        ]

  -- The checks of a commit.
  abbrev pub pair_checks : Value → Value → List (Check (Unit {0}))
  pair_checks event state =
      validate_audit_event outside catalog event
      ∷ validate_task_state outside state
      ∷ validate_state_event_pair (mapping_of event) (mapping_of state)
      ∷ []

  -- `commit_task_state_and_audit`, on the tables
  unfoldable pub commit_task_state_and_audit :
      Value → Value → Tables json.Text → Check (Bool × Tables json.Text)
  unfolding validate_audit_event validate_task_state validate_state_event_pair sqlite_json_text
      write_pair first_of
  commit_task_state_and_audit event state tables = first_of (pair_checks event state) >>= λ _.
      sqlite_json_text json event audit_corrupt "audit_event" >>= λ event_json.
      sqlite_json_text json state state_corrupt "task_state" >>= λ state_json.
      write_pair (mapping_of event) (mapping_of state) event_json state_json tables

  -- `write_task_state`, on the table
  unfoldable pub write_task_state : Value → Tables json.Text → Check (Tables json.Text)
  unfolding validate_task_state sqlite_json_text upsert task_of
  write_task_state state tables = validate_task_state outside state >>= λ _.
      sqlite_json_text json state "WORKFLOW_INVALID_INPUT" "task_state" >>= λ payload.
      ok (record tables {
        task_states = upsert (task_of (mapping_of state)) payload tables.task_states;
      })

  -- `append_audit_event`, on the table
  unfoldable pub append_audit_event : Value → Tables json.Text → Check (Tables json.Text)
  unfolding validate_audit_event sqlite_json_text event_at task_of generation_of sequence_of
  append_audit_event event tables = validate_audit_event outside catalog event >>= λ _.
      sqlite_json_text json event audit_corrupt "audit_event" >>= λ event_json.
      fail_if (is_some (event_at (task_of d) (generation_of d) (sequence_of d) tables.audit_events))
        audit_corrupt "audit_event" "audit event sequence already exists"
      >>= λ _. ok (record tables {
        audit_events =
            record {
              task_id = task_of d;
              generation = generation_of d;
              sequence = sequence_of d;
              event_json = event_json;
            }
            ∷ tables.audit_events;
      })
    where
      d : Dict
      d = mapping_of event
