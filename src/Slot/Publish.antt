-- ===== src/Slot/Publish.antt =====
-- `publish_coding_execution_record` of acgps/workflow_store.py: a record goes to the end of the
-- gate's records, and the slot changes as the outcome of the record says.
pub mod Effects
pub mod Again
use acgps_public.Prelude.{
  ℕ, String, Bool, true, false, not, ◌&&◌, ◌||◌, Option, none, some, List, [], ◌∷◌, ◌++◌, nat_eq,
  if◌then◌else◌, ◌==◌,
}
use acgps_public.Py.Result.{ok, raise, ◌>>=◌, ◌>>◌}
use acgps_public.Py.Text.{texts_eq, optional_eq, is_some}
use acgps_public.Py.Value.{Value, py_eq}
use acgps_public.Slot.State.{
  SlotState, frozen_review_v1, frozen_review_v2, Outcome, prelaunch_hold, candidate_ready, is_hold,
  StoreCode, Store, fail_if, Reservation, Attempt, ExecutionRecord, Slot, Checks, state_eq,
}
use acgps_public.Slot.Validate.{validate_state}
use acgps_public.Slot.Operations.{read_state, find_record}

abbrev invalid_if : Bool → String → String → Store (Unit {0})
invalid_if test path message = fail_if test StoreCode.invalid_input path message

-- The contract check of the record, with the message of its first issue.
abbrev pub check_contract : Option String → Store (Unit {0})
check_contract none = ok tt
check_contract (some message) = invalid_if true "coding_execution.record" message

-- The first attempt fixes the gate's binding, and the others must have it.
unfoldable pub bind_attempt : Option Value → Value → Store (Option Value)
bind_attempt none binding = ok (some binding)
bind_attempt (some b) binding = do
  invalid_if (not (py_eq b binding)) "coding_execution.record"
      "record packet/baseline/executor identity differs from the immutable Gate binding"
  ok (some b)

-- The gate's binding after a record.
unfoldable pub bind_gate : Option Value → ExecutionRecord → Store (Option Value)
bind_gate binding r = if is_hold r.outcome then ok binding else bind_attempt binding r.binding

abbrev number_is : Option ℕ → ℕ → Bool
number_is none n = false
number_is (some m) n = nat_eq m n

abbrev mismatch : String
mismatch = "record does not match the reserved attempt"

-- The fields of the attempt against those of the reservation, in the order of the loop.
unfoldable pub check_attempt : Attempt → Reservation → Store (Unit {0})
check_attempt a r = do
  invalid_if (not (number_is a.number r.number)) "coding_execution.record.attempt.number" mismatch
  invalid_if (not (optional_eq a.reserved_at_utc (some r.reserved_at_utc)))
      "coding_execution.record.attempt.reserved_at_utc" mismatch
  invalid_if (not (optional_eq a.parent_candidate_id r.parent_candidate_id))
      "coding_execution.record.attempt.parent_candidate_id" mismatch
  invalid_if (not (a.kind == r.kind)) "coding_execution.record.attempt.kind" mismatch
  invalid_if (not (nat_eq a.remaining_before r.remaining_before))
      "coding_execution.record.attempt.remaining_before" mismatch
  invalid_if (not (nat_eq a.remaining_after r.remaining_after))
      "coding_execution.record.attempt.remaining_after" mismatch

-- A hold before the launch leaves the slot as it is.
unfoldable pub check_hold : Slot → ExecutionRecord → Store (Unit {0})
check_hold s r = do
  invalid_if (is_some s.reserved_attempt) "coding_execution.reserved_attempt"
      "prelaunch HOLD cannot be published after attempt reservation"
  invalid_if
      (not (nat_eq r.attempt.remaining_before s.remaining_attempts)
        || not (nat_eq r.attempt.remaining_after s.remaining_attempts)
        || not (state_eq r.slot.state_before s.state)
        || not (state_eq r.slot.state_after s.state)
        || not (optional_eq r.slot.active_candidate_before s.active_candidate_id)
        || not (optional_eq r.slot.active_candidate_after s.active_candidate_id)
        || not (texts_eq r.slot.historical_candidate_ids s.historical_candidate_ids))
      "coding_execution.record" "prelaunch HOLD must preserve the current slot and attempt budget"

-- `record["slot"]` against the current slot.
unfoldable pub check_before : Slot → ExecutionRecord → Store (Unit {0})
check_before s r =
    invalid_if
      (not (state_eq r.slot.state_before s.state)
        || not (optional_eq r.slot.active_candidate_before s.active_candidate_id)
        || not (texts_eq r.slot.historical_candidate_ids s.historical_candidate_ids))
      "coding_execution.record.slot" "record does not match current slot state"

-- The state that is spelled `FROZEN_REVIEW_V{version}`, where there is one.
unfoldable pub frozen_state : Option ℕ → Option SlotState
frozen_state none = none
frozen_state (some version) =
    if nat_eq version 1
    then some frozen_review_v1
    else if nat_eq version 2
    then some frozen_review_v2
    else none

abbrev install_refused : Store (SlotState × Option String)
install_refused =
    invalid_if true "coding_execution.record.slot" "candidate install transition is invalid"
    >>= λ _. ok (frozen_review_v1, none)

-- The state and the active candidate after a candidate is installed.
unfoldable pub install : ExecutionRecord → Store (SlotState × Option String)
install r = elim (frozen_state r.version) [
  | none ↦ install_refused
  | some expected ↦
      if not (state_eq r.slot.state_after expected)
        || not (optional_eq r.slot.active_candidate_after r.candidate_id)
      then install_refused
      else ok (expected, r.candidate_id)
]

-- The state and the active candidate that an attempt leaves.
unfoldable pub settle : Slot → ExecutionRecord → Outcome → Store (SlotState × Option String)
settle s r candidate_ready = install r
settle s r _ = do
  invalid_if
      (not (state_eq r.slot.state_after s.state)
        || not (optional_eq r.slot.active_candidate_after s.active_candidate_id))
      "coding_execution.record.slot" "noncandidate outcome cannot change the slot"
  ok (s.state, s.active_candidate_id)

abbrev reserved : Option Reservation → Store Reservation
reserved none = raise (record {
  code = StoreCode.invalid_input;
  path = "coding_execution.reserved_attempt";
  message = "no attempt is reserved";
})
reserved (some r) = ok r

-- The state and the active candidate after a record of an attempt.
unfoldable pub finish_attempt : Slot → ExecutionRecord → Store (SlotState × Option String)
finish_attempt s r = do
  reservation ← reserved s.reserved_attempt
  check_attempt r.attempt reservation
  check_before s r
  settle s r r.outcome

-- The state and the active candidate after a record that is not there yet.
unfoldable pub change_slot : Slot → ExecutionRecord → Store (SlotState × Option String)
change_slot s r =
    if is_hold r.outcome
    then (check_hold s r >>= λ _. ok (s.state, s.active_candidate_id))
    else finish_attempt s r

-- The slot with the record at the end; the reservation is used up.
unfoldable pub with_record :
    Slot → ExecutionRecord → Option Value → SlotState × Option String → Slot
with_record s r binding change = record {
  gate_id = s.gate_id;
  task_id = s.task_id;
  gate_binding = binding;
  state = change.0;
  remaining_attempts = s.remaining_attempts;
  active_candidate_id = change.1;
  historical_candidate_ids = s.historical_candidate_ids;
  remediation_authorization_id = s.remediation_authorization_id;
  reserved_attempt = none;
  records = s.records ++ r ∷ [];
}

unfoldable pub publish_new : Checks → Slot → ExecutionRecord → Store Slot
publish_new checks s r = do
  binding ← bind_gate s.gate_binding r
  change ← change_slot s r
  validate_state checks r.gate_id (with_record s r binding change)
  ok (with_record s r binding change)

-- A record whose identity is there already: the same record changes nothing.
unfoldable pub publish_again : Slot → ExecutionRecord → ExecutionRecord → Store Slot
publish_again s r existing = do
  fail_if (not (py_eq existing.mapping r.mapping)) StoreCode.idempotency_conflict
      "coding_execution.execution_id" "execution identity already exists"
  ok s

unfoldable pub publish_to : Checks → Slot → ExecutionRecord → Option ExecutionRecord → Store Slot
publish_to checks s r none = publish_new checks s r
publish_to checks s r (some existing) = publish_again s r existing

-- `publish_coding_execution_record`
unfoldable pub publish_record : Checks → ExecutionRecord → Option Slot → Store Slot
publish_record checks r file = do
  check_contract (checks.contract_error r)
  s ← read_state checks r.gate_id file
  invalid_if (not (s.task_id == r.task_id)) "coding_execution.record.task_id"
      "record task does not own the gate"
  publish_to checks s r (find_record r.execution_id s.records)
