-- ===== src/Slot/State.antt =====
-- The state file of a gate and the execution records in it, as `_validate_coding_execution_state`
-- of acgps/workflow_store.py reads them: the tests on types and field sets are the types here.
use Prim.Native.Char.{code}
use Prim.Native.String as S
use acgps_public.Prelude.{
  ℕ, zero, suc, String, Bool, true, false, ◌&&◌, ◌||◌, Option, List, nat_eq, leb,
}
use acgps_public.Py.Result.{Py, ok, raise}
use acgps_public.Py.Value.{Value}

-- CODING_EXECUTION_SLOT_STATES
pub data SlotState : Type 0 where
  empty frozen_review_v1 rejected_hold_v1 empty_for_remediation frozen_review_v2 : SlotState

pub data Outcome : Type 0 where
  prelaunch_hold attempt_failed attempt_hold candidate_ready : Outcome

-- The codes of `WorkflowIssue` that this part raises.
pub data StoreCode : Type 0 where
  state_corrupt invalid_input concurrent_write budget_exhausted idempotency_conflict : StoreCode

pub record StoreError : Type 0 where
  pub code : StoreCode
  pub path : String
  pub message : String

abbrev pub Store : Type 0 → Type 0
Store A = Py StoreError A

-- `_raise` under a test
abbrev pub fail_if : Bool → StoreCode → String → String → Store (Unit {0})
fail_if true code path message = raise (record { code = code; path = path; message = message })
fail_if false code path message = ok tt

-- CODING_EXECUTION_RESERVATION_FIELDS
pub record Reservation : Type 0 where
  pub number : ℕ
  pub reserved_at_utc : String
  pub parent_candidate_id : Option String
  pub kind : String
  pub remaining_before : ℕ
  pub remaining_after : ℕ

-- The `attempt` of a record; a hold before the launch has no number.
pub record Attempt : Type 0 where
  pub number : Option ℕ
  pub reserved_at_utc : Option String
  pub parent_candidate_id : Option String
  pub kind : String
  pub remaining_before : ℕ
  pub remaining_after : ℕ

-- The `slot` of a record: what the attempt saw and what it leaves.
pub record SlotChange : Type 0 where
  pub state_before : SlotState
  pub state_after : SlotState
  pub active_candidate_before : Option String
  pub active_candidate_after : Option String
  pub historical_candidate_ids : List String

-- An execution record: its mapping, and the fields of it that the store reads. `binding` is what
-- `_coding_execution_record_binding` makes of the mapping.
pub record ExecutionRecord : Type 0 where
  pub mapping : Value
  pub gate_id : String
  pub task_id : String
  pub execution_id : String
  pub outcome : Outcome
  pub binding : Value
  pub attempt : Attempt
  pub slot : SlotChange
  pub candidate_id : Option String
  pub version : Option ℕ

-- CODING_EXECUTION_STATE_FIELDS, without the schema version.
pub record Slot : Type 0 where
  pub gate_id : String
  pub task_id : String
  pub gate_binding : Option Value
  pub state : SlotState
  pub remaining_attempts : ℕ
  pub active_candidate_id : Option String
  pub historical_candidate_ids : List String
  pub remediation_authorization_id : Option String
  pub reserved_attempt : Option Reservation
  pub records : List ExecutionRecord

-- What the store takes from elsewhere: the first failure of the contract check of a record, and the
-- test by `re.fullmatch` of a UTC timestamp with milliseconds.
pub record Checks : Type 0 where
  pub contract_error : ExecutionRecord → Option String
  pub is_timestamp : String → Bool

abbrev pub state_eq : SlotState → SlotState → Bool
state_eq empty empty = true
state_eq frozen_review_v1 frozen_review_v1 = true
state_eq rejected_hold_v1 rejected_hold_v1 = true
state_eq empty_for_remediation empty_for_remediation = true
state_eq frozen_review_v2 frozen_review_v2 = true
state_eq _ _ = false

abbrev pub is_hold : Outcome → Bool
is_hold prelaunch_hold = true
is_hold _ = false

abbrev pub is_ready : Outcome → Bool
is_ready candidate_ready = true
is_ready _ = false

abbrev is_alnum : ℕ → Bool
is_alnum c = (leb b'A' c && leb c b'Z') || (leb b'a' c && leb c b'z') || (leb b'0' c && leb c b'9')

-- `[A-Za-z0-9_.-]{0,n}`, to the end
safe_tail : ℕ → String → Bool
safe_tail n S.[] = true
safe_tail zero (S.◌∷◌ c s) = false
safe_tail (suc n) (S.◌∷◌ c s) =
    (is_alnum (code c) || nat_eq (code c) b'_' || nat_eq (code c) b'.' || nat_eq (code c) b'-')
    && safe_tail n s

-- `SAFE_ID_RE.fullmatch(value)`
unfoldable pub is_safe_id : String → Bool
unfolding safe_tail
is_safe_id S.[] = false
is_safe_id (S.◌∷◌ c s) = is_alnum (code c) && safe_tail 127 s
