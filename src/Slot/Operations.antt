-- ===== src/Slot/Operations.antt =====
-- The operations of `WorkflowStore` on the coding execution gate, acgps/workflow_store.py. Each
-- takes what the gate's file holds, none where there is no file, and returns what it leaves there;
-- one that raises leaves the file as it was. Each runs under the lock of its gate, so it is one step.
pub mod Inversion
use acgps_public.Prelude.{
  ℕ, ◌-◌, String, Bool, true, false, not, ◌&&◌, ◌||◌, Option, none, some, List, [], ◌∷◌, ◌++◌,
  nat_eq, if◌then◌else◌, ◌==◌, mem,
}
use acgps_public.Py.Result.{ok, raise, ◌>>=◌, ◌>>◌}
use acgps_public.Py.Text.{fmt, texts_eq, optional_eq, is_some}
use acgps_public.Py.Value.{Value, py_eq}
use acgps_public.Slot.State.{
  SlotState, empty, frozen_review_v1, frozen_review_v2, empty_for_remediation, is_hold, is_ready,
  StoreCode, StoreError, Store, fail_if, Reservation, Attempt, ExecutionRecord, Slot, Checks,
  state_eq,
}
use acgps_public.Slot.Validate.{require_safe_id, validate_state}

abbrev invalid_if : Bool → String → String → Store (Unit {0})
invalid_if test path message = fail_if test StoreCode.invalid_input path message

-- The mapping of the gate's file.
unfoldable pub load_slot : Option Slot → Store Slot
load_slot none = raise (record {
  code = StoreCode.state_corrupt;
  path = "coding_execution";
  message = "coding execution gate is not initialized";
})
load_slot (some s) = ok s

-- `_read_coding_execution_state`, with the test of `coding_execution_slot_path`.
unfoldable pub read_state : Checks → String → Option Slot → Store Slot
read_state checks gate_id file = do
  require_safe_id gate_id "gate_id"
  s ← load_slot file
  validate_state checks gate_id s
  ok s

unfoldable pub new_slot : String → String → Slot
new_slot gate_id task_id = record {
  gate_id = gate_id;
  task_id = task_id;
  gate_binding = none;
  state = empty;
  remaining_attempts = 2;
  active_candidate_id = none;
  historical_candidate_ids = [];
  remediation_authorization_id = none;
  reserved_attempt = none;
  records = [];
}

-- `initialize_coding_execution_slot`, after its arguments are checked.
unfoldable pub open_slot : Checks → String → String → Option Slot → Store Slot
open_slot checks gate_id task_id none =
    validate_state checks gate_id (new_slot gate_id task_id) >>= λ _. ok (new_slot gate_id task_id)
open_slot checks gate_id task_id (some s) = do
  state ← read_state checks gate_id (some s)
  fail_if (not (state.task_id == task_id)) StoreCode.state_corrupt "coding_execution.task_id"
      "gate already belongs to another task"
  ok state

unfoldable pub initialize_slot : Checks → String → String → Option Slot → Store Slot
initialize_slot checks gate_id task_id file = do
  require_safe_id gate_id "gate_id"
  require_safe_id task_id "task_id"
  open_slot checks gate_id task_id file

unfoldable pub find_record : String → List ExecutionRecord → Option ExecutionRecord
find_record execution_id [] = none
find_record execution_id (r ∷ rs) =
    if r.execution_id == execution_id then some r else find_record execution_id rs

abbrev found : Option ExecutionRecord → Store ExecutionRecord
found none = raise (record {
  code = StoreCode.state_corrupt;
  path = "coding_execution.record";
  message = "execution record is missing";
})
found (some r) = ok r

-- `read_coding_execution_record`
unfoldable pub read_record : Checks → String → String → Option Slot → Store ExecutionRecord
read_record checks gate_id execution_id file = do
  require_safe_id execution_id "execution_id"
  s ← read_state checks gate_id file
  found (find_record execution_id s.records)

-- `parent_candidate_id not in state["historical_candidate_ids"]`, negated
abbrev pub is_parent : Option String → List String → Bool
is_parent none historical = false
is_parent (some parent) historical = mem parent historical

-- The state that an attempt of each kind needs.
unfoldable pub check_kind : Slot → String → Option String → Store (Unit {0})
check_kind s kind parent =
    if kind == "ORDINARY"
    then invalid_if (not (state_eq s.state empty) || is_some parent) "coding_execution.attempt"
        "ORDINARY requires EMPTY and no parent"
    else if kind == "REMEDIATION"
    then invalid_if
        (not (state_eq s.state empty_for_remediation)
          || not (nat_eq s.remaining_attempts 1)
          || not (is_parent parent s.historical_candidate_ids)
          || not (is_some s.remediation_authorization_id))
        "coding_execution.attempt"
        "REMEDIATION requires EMPTY_FOR_REMEDIATION, Attempt 2, and the historical v1 parent"
    else invalid_if true "coding_execution.attempt.kind" "unknown attempt kind"

-- The reservation of the next attempt.
unfoldable pub next_reservation : ℕ → String → Option String → String → Reservation
next_reservation remaining kind parent reserved_at_utc = record {
  number = 3 - remaining;
  reserved_at_utc = reserved_at_utc;
  parent_candidate_id = parent;
  kind = kind;
  remaining_before = remaining;
  remaining_after = remaining - 1;
}

unfoldable pub with_reservation : Slot → Reservation → Slot
with_reservation s r = record {
  gate_id = s.gate_id;
  task_id = s.task_id;
  gate_binding = s.gate_binding;
  state = s.state;
  remaining_attempts = s.remaining_attempts - 1;
  active_candidate_id = s.active_candidate_id;
  historical_candidate_ids = s.historical_candidate_ids;
  remediation_authorization_id = s.remediation_authorization_id;
  reserved_attempt = some r;
  records = s.records;
}

-- The guards of a reservation.
unfoldable pub check_reserve : Checks → Slot → String → Option String → String → Store (Unit {0})
check_reserve checks s kind parent reserved_at_utc = do
  fail_if (is_some s.reserved_attempt) StoreCode.concurrent_write
      "coding_execution.reserved_attempt" "an attempt is already reserved"
  fail_if (nat_eq s.remaining_attempts 0) StoreCode.budget_exhausted
      "coding_execution.remaining_attempts" "the two-attempt budget is exhausted"
  check_kind s kind parent
  invalid_if (not (checks.is_timestamp reserved_at_utc)) "coding_execution.attempt.reserved_at_utc"
      "timestamp must use millisecond UTC"

-- `reserve_coding_execution_attempt`; the call returns the reservation that the new state holds.
unfoldable pub reserve_attempt :
    Checks → String → String → Option String → String → Option Slot → Store Slot
reserve_attempt checks gate_id kind parent reserved_at_utc file = do
  s ← read_state checks gate_id file
  check_reserve checks s kind parent reserved_at_utc
  let next = with_reservation s (next_reservation s.remaining_attempts kind parent reserved_at_utc)
  validate_state checks gate_id next
  ok next

-- The slot after its only candidate is retired.
unfoldable pub retired : Slot → String → String → Slot
retired s candidate_id authorization_id = record {
  gate_id = s.gate_id;
  task_id = s.task_id;
  gate_binding = s.gate_binding;
  state = empty_for_remediation;
  remaining_attempts = s.remaining_attempts;
  active_candidate_id = none;
  historical_candidate_ids = candidate_id ∷ [];
  remediation_authorization_id = some authorization_id;
  reserved_attempt = s.reserved_attempt;
  records = s.records;
}

-- Not the sole frozen candidate of the first attempt.
unfoldable pub not_retirable : Slot → String → Bool
not_retirable s candidate_id =
    not (state_eq s.state frozen_review_v1)
    || not (optional_eq s.active_candidate_id (some candidate_id))
    || not (nat_eq s.remaining_attempts 1)
    || is_some s.reserved_attempt
    || not (texts_eq s.historical_candidate_ids [])

-- `retire_coding_execution_candidate_for_remediation`
unfoldable pub retire_candidate : Checks → String → String → String → Option Slot → Store Slot
retire_candidate checks gate_id candidate_id authorization_id file = do
  require_safe_id candidate_id "candidate_id"
  require_safe_id authorization_id "authorization_id"
  s ← read_state checks gate_id file
  invalid_if (not_retirable s candidate_id) "coding_execution.remediation"
      "only the sole frozen Candidate v1 can be retired for Attempt-2 remediation"
  validate_state checks gate_id (retired s candidate_id authorization_id)
  ok (retired s candidate_id authorization_id)
