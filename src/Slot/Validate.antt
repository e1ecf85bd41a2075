-- ===== src/Slot/Validate.antt =====
-- `_validate_coding_execution_state` of acgps/workflow_store.py.
use acgps_public.Prelude.{
  ℕ, ◌+◌, String, Bool, true, false, not, ◌&&◌, ◌||◌, Option, none, some, List, [], ◌∷◌, nat_eq,
  ltb, if◌then◌else◌, any, ◌==◌, mem,
}
use acgps_public.Py.Result.{ok, ◌>>◌, for_each, for_enumerate}
use acgps_public.Py.Text.{fmt, show, sorted, to_set, texts_eq, optional_eq, is_some}
use acgps_public.Py.Value.{Value, py_eq}
use acgps_public.Slot.State.{
  SlotState, empty, frozen_review_v1, frozen_review_v2, empty_for_remediation, is_hold, is_ready,
  StoreCode, Store, fail_if, Reservation, ExecutionRecord, Slot, Checks, is_safe_id, state_eq,
}

-- `_raise("WORKFLOW_STATE_CORRUPT", ...)` under a test
abbrev pub corrupt_if : Bool → String → String → Store (Unit {0})
corrupt_if test path message = fail_if test StoreCode.state_corrupt path message

-- `_require_safe_id`
abbrev pub require_safe_id : String → String → Store (Unit {0})
require_safe_id value path =
    fail_if (not (is_safe_id value)) StoreCode.invalid_input path "value must be a safe id"

abbrev optional_safe_id : Option String → String → Store (Unit {0})
optional_safe_id none path = ok tt
optional_safe_id (some s) path = require_safe_id s path

abbrev is_empty_state : SlotState → Bool
is_empty_state empty = true
is_empty_state empty_for_remediation = true
is_empty_state _ = false

abbrev is_frozen_state : SlotState → Bool
is_frozen_state frozen_review_v1 = true
is_frozen_state frozen_review_v2 = true
is_frozen_state _ = false

abbrev is_historical : Option String → List String → Bool
is_historical none historical = false
is_historical (some s) historical = mem s historical

-- The state, its candidate and its history.
unfoldable pub check_candidates : Slot → Store (Unit {0})
check_candidates s = do
  optional_safe_id s.active_candidate_id "coding_execution.active_candidate_id"
  corrupt_if (is_empty_state s.state && is_some s.active_candidate_id)
      "coding_execution.active_candidate_id" "empty states cannot have an active candidate"
  corrupt_if (is_frozen_state s.state && not (is_some s.active_candidate_id))
      "coding_execution.active_candidate_id" "frozen review states require a candidate"
  corrupt_if
      (not (texts_eq s.historical_candidate_ids (sorted (to_set s.historical_candidate_ids))))
      "coding_execution.historical_candidate_ids" "historical IDs must be sorted and unique"
  for_each s.historical_candidate_ids
      (λ item. require_safe_id item "coding_execution.historical_candidate_ids")
  corrupt_if (is_historical s.active_candidate_id s.historical_candidate_ids)
      "coding_execution.active_candidate_id" "active candidate cannot be historical"
  optional_safe_id s.remediation_authorization_id "coding_execution.remediation_authorization_id"
  corrupt_if
      (state_eq s.state empty_for_remediation && not (is_some s.remediation_authorization_id))
      "coding_execution.remediation_authorization_id"
      "remediation state requires an authorization identity"

-- The reserved attempt against the remaining budget.
unfoldable pub check_reservation : ℕ → Option Reservation → Store (Unit {0})
check_reservation remaining none = ok tt
check_reservation remaining (some r) = do
  corrupt_if
      ((not (nat_eq r.number 1) && not (nat_eq r.number 2))
        || not (nat_eq r.remaining_after remaining))
      "coding_execution.reserved_attempt" "reservation budget does not match state"
  corrupt_if (not (nat_eq r.remaining_before (remaining + 1))) "coding_execution.reserved_attempt"
      "reservation did not decrement exactly once"
  corrupt_if (not (r.kind == "ORDINARY") && not (r.kind == "REMEDIATION"))
      "coding_execution.reserved_attempt.kind" "unknown attempt kind"

abbrev record_path : ℕ → String
record_path i = fmt ("coding_execution.records[" ∷ show i ∷ "]" ∷ [])

-- `gate_binding is None or binding != gate_binding`
abbrev pub unbound : Option Value → Value → Bool
unbound none binding = true
unbound (some b) binding = not (py_eq binding b)

abbrev contract_fails : Option String → String → Store (Unit {0})
contract_fails none path = ok tt
contract_fails (some message) path = corrupt_if true path message

-- One record of the slot, at position `i`.
unfoldable pub check_record : Checks → Slot → ℕ → ExecutionRecord → Store (Unit {0})
check_record checks s i r = do
  contract_fails (checks.contract_error r) (record_path i)
  corrupt_if (not (r.gate_id == s.gate_id) || not (r.task_id == s.task_id)) (record_path i)
      "record gate/task identity mismatch"
  corrupt_if (not (is_hold r.outcome) && unbound s.gate_binding r.binding) (record_path i)
      "reserved attempts must use the immutable Gate packet/baseline/executor binding"

-- `sum(record["attempt"]["number"] is not None for record in records)`
unfoldable pub completed_attempts : List ExecutionRecord → ℕ
completed_attempts [] = 0
completed_attempts (r ∷ rs) = (if is_some r.attempt.number then 1 else 0) + completed_attempts rs

abbrev pub reserved_count : Option Reservation → ℕ
reserved_count none = 0
reserved_count (some r) = 1

-- The execution identities, and the candidates of the records that are ready.
unfoldable pub execution_ids : List ExecutionRecord → List String
execution_ids [] = []
execution_ids (r ∷ rs) = r.execution_id ∷ execution_ids rs

unfoldable pub candidate_ids : List ExecutionRecord → List (Option String)
candidate_ids [] = []
candidate_ids (r ∷ rs) =
    let rest = candidate_ids rs in if is_ready r.outcome then r.candidate_id ∷ rest else rest

unfoldable pub mem_optional : Option String → List (Option String) → Bool
mem_optional x [] = false
mem_optional x (y ∷ ys) = optional_eq x y || mem_optional x ys

-- `len(xs) != len(set(xs))`: some item stands twice.
unfoldable pub repeats : List String → Bool
repeats [] = false
repeats (x ∷ xs) = mem x xs || repeats xs

unfoldable pub repeats_optional : List (Option String) → Bool
repeats_optional [] = false
repeats_optional (x ∷ xs) = mem_optional x xs || repeats_optional xs

-- The records against the budget and the candidates.
unfoldable pub check_records : Slot → Store (Unit {0})
check_records s = do
  corrupt_if (ltb 2 (completed_attempts s.records)) "coding_execution.records"
      "at most two reserved attempts are permitted"
  corrupt_if (repeats (execution_ids s.records)) "coding_execution.records"
      "execution identities must be unique"
  corrupt_if
      (not (
        nat_eq
          (s.remaining_attempts
            + (completed_attempts s.records + reserved_count s.reserved_attempt))
          2))
      "coding_execution.remaining_attempts"
      "remaining budget must equal two minus reserved and completed attempts"
  corrupt_if (repeats_optional (candidate_ids s.records)) "coding_execution.records"
      "candidate identities must be unique"
  corrupt_if
      (is_some s.active_candidate_id
        && not (mem_optional s.active_candidate_id (candidate_ids s.records)))
      "coding_execution.active_candidate_id"
      "active candidate must be bound to a completed execution record"
  corrupt_if
      (any (λ c. not (mem_optional (some c) (candidate_ids s.records))) s.historical_candidate_ids)
      "coding_execution.historical_candidate_ids"
      "historical candidates must remain bound to immutable execution records"

unfoldable pub validate_state : Checks → String → Slot → Store (Unit {0})
validate_state checks gate_id s = do
  require_safe_id s.gate_id "coding_execution.gate_id"
  require_safe_id s.task_id "coding_execution.task_id"
  corrupt_if (not (s.gate_id == gate_id)) "coding_execution.gate_id" "gate identity mismatch"
  corrupt_if (ltb 2 s.remaining_attempts) "coding_execution.remaining_attempts"
      "remaining attempts must be zero, one, or two"
  check_candidates s
  check_reservation s.remaining_attempts s.reserved_attempt
  for_enumerate 0 s.records (check_record checks s)
  check_records s
