-- ===== src/Slot/Tests.antt =====
-- The theorems on the coding execution gate at a gate with two attempts.
use acgps_public.Prelude.{◌+◌, ◌≤◌, ◌≡◌, refl, String, true, Option, none, some, [], ◌∷◌, mem}
use acgps_public.Py.Result.{ok, for_each, for_enumerate}
use acgps_public.Py.Text.{sorted, insert_sorted, to_set, keep, texts_eq}
use acgps_public.Py.Value.{Value, text, py_eq}
use acgps_public.Slot.State.{
  empty, frozen_review_v1, empty_for_remediation, candidate_ready, Reservation, ExecutionRecord,
  Slot, Checks, is_safe_id, state_eq,
}
use acgps_public.Slot.Validate.{
  check_candidates, check_reservation, check_record, completed_attempts, execution_ids,
  candidate_ids, mem_optional, repeats, repeats_optional, check_records, validate_state,
}
use acgps_public.Slot.Operations.{
  read_state, load_slot, new_slot, open_slot, initialize_slot, find_record, check_kind,
  next_reservation, with_reservation, check_reserve, reserve_attempt, retired, not_retirable,
  retire_candidate, is_parent,
}
use acgps_public.Slot.Publish.{
  bind_attempt, bind_gate, check_attempt, check_before, frozen_state, install, settle,
  finish_attempt, change_slot, with_record, publish_new, publish_to, publish_record,
}
use acgps_public.Slot.Publish.Again.{publish_record-idempotent}
use acgps_public.Slot.Valid.{IsValid, validate_state-IsValid}
use acgps_public.Slot.Budget.{IsReservation, reserve_attempt-IsReservation, remediation_is_last}
use acgps_public.Slot.Budget.Runs.{Run, two_attempts}
use acgps_public.Slot.Budget.Runs.Step.{initialize, reserve, retire, publish}
use acgps_public.Slot.Budget.Runs.Run.{start, next}
use acgps_public.Slot.Budget.Records.{records_stay}
use acgps_public.Slot.Promotion.{
  Sections, launch_ready, clone_ready, process_ready, result_ready, promotion_ready, all_pass,
  patch_paths, patched, expected_outcome,
}
use acgps_public.Slot.Promotion.Outcome.{promotion_ready-candidate}
use acgps_public.Prelude.{false}
use acgps_public.Py.Value.{pos, bool, int, get, is_null, seq_of, dict_of, items, pairs}

abbrev checks : Checks
checks = record { contract_error = λ r. none; is_timestamp = λ s. true }

abbrev at_time : String
at_time = "2026-01-01T00:00:00.000Z"

abbrev delivery : ExecutionRecord
delivery = record {
  mapping = text "delivery";
  gate_id = "G1";
  task_id = "T1";
  execution_id = "E1";
  outcome = candidate_ready;
  binding = text "packet";
  attempt = record {
    number = some 1;
    reserved_at_utc = some at_time;
    parent_candidate_id = none;
    kind = "ORDINARY";
    remaining_before = 2;
    remaining_after = 1;
  };
  slot = record {
    state_before = empty;
    state_after = frozen_review_v1;
    active_candidate_before = none;
    active_candidate_after = some "C1";
    historical_candidate_ids = [];
  };
  candidate_id = some "C1";
  version = some 1;
}

abbrev fresh : Slot
fresh = record {
  gate_id = "G1";
  task_id = "T1";
  gate_binding = none;
  state = empty;
  remaining_attempts = 2;
  active_candidate_id = none;
  historical_candidate_ids = [];
  remediation_authorization_id = none;
  reserved_attempt = none;
  records = [];
}

abbrev first_reservation : Reservation
first_reservation = record {
  number = 1;
  reserved_at_utc = at_time;
  parent_candidate_id = none;
  kind = "ORDINARY";
  remaining_before = 2;
  remaining_after = 1;
}

abbrev reserved_slot : Slot
reserved_slot = record {
  gate_id = "G1";
  task_id = "T1";
  gate_binding = none;
  state = empty;
  remaining_attempts = 1;
  active_candidate_id = none;
  historical_candidate_ids = [];
  remediation_authorization_id = none;
  reserved_attempt = some first_reservation;
  records = [];
}

abbrev delivered : Slot
delivered = record {
  gate_id = "G1";
  task_id = "T1";
  gate_binding = some (text "packet");
  state = frozen_review_v1;
  remaining_attempts = 1;
  active_candidate_id = some "C1";
  historical_candidate_ids = [];
  remediation_authorization_id = none;
  reserved_attempt = none;
  records = delivery ∷ [];
}

abbrev waiting : Slot
waiting = record {
  gate_id = "G1";
  task_id = "T1";
  gate_binding = some (text "packet");
  state = empty_for_remediation;
  remaining_attempts = 1;
  active_candidate_id = none;
  historical_candidate_ids = "C1" ∷ [];
  remediation_authorization_id = some "A1";
  reserved_attempt = none;
  records = delivery ∷ [];
}

abbrev second_reservation : Reservation
second_reservation = record {
  number = 2;
  reserved_at_utc = at_time;
  parent_candidate_id = some "C1";
  kind = "REMEDIATION";
  remaining_before = 1;
  remaining_after = 0;
}

abbrev remediating : Slot
remediating = record {
  gate_id = "G1";
  task_id = "T1";
  gate_binding = some (text "packet");
  state = empty_for_remediation;
  remaining_attempts = 0;
  active_candidate_id = none;
  historical_candidate_ids = "C1" ∷ [];
  remediation_authorization_id = some "A1";
  reserved_attempt = some second_reservation;
  records = delivery ∷ [];
}

initialize_run : initialize_slot checks "G1" "T1" none ≡ ok fresh
unfolding initialize_slot is_safe_id open_slot new_slot validate_state check_candidates
    check_reservation check_record check_records completed_attempts execution_ids candidate_ids
    mem_optional repeats repeats_optional for_each for_enumerate sorted insert_sorted to_set
    texts_eq keep mem
initialize_run = refl

reserve_run : reserve_attempt checks "G1" "ORDINARY" none at_time (some fresh) ≡ ok reserved_slot
unfolding reserve_attempt read_state load_slot check_reserve check_kind next_reservation
    with_reservation is_safe_id validate_state check_candidates check_reservation check_record
    check_records completed_attempts execution_ids candidate_ids mem_optional repeats
    repeats_optional for_each for_enumerate sorted insert_sorted to_set texts_eq keep mem
reserve_run = refl

publish_run : publish_record checks delivery (some reserved_slot) ≡ ok delivered
unfolding publish_record publish_to publish_new find_record bind_gate bind_attempt change_slot
    finish_attempt check_attempt check_before settle install frozen_state with_record py_eq
    read_state load_slot is_safe_id validate_state check_candidates check_reservation check_record
    check_records completed_attempts execution_ids candidate_ids mem_optional repeats
    repeats_optional for_each for_enumerate sorted insert_sorted to_set texts_eq keep mem
publish_run = refl

retire_run : retire_candidate checks "G1" "C1" "A1" (some delivered) ≡ ok waiting
unfolding retire_candidate not_retirable retired py_eq read_state load_slot is_safe_id
    validate_state check_candidates check_reservation check_record check_records completed_attempts
    execution_ids candidate_ids mem_optional repeats repeats_optional for_each for_enumerate sorted
    insert_sorted to_set texts_eq keep mem
retire_run = refl

remediate_run :
    reserve_attempt checks "G1" "REMEDIATION" (some "C1") at_time (some waiting) ≡ ok remediating
unfolding reserve_attempt py_eq read_state load_slot check_reserve check_kind next_reservation
    with_reservation is_safe_id validate_state check_candidates check_reservation check_record
    check_records completed_attempts execution_ids candidate_ids mem_optional repeats
    repeats_optional for_each for_enumerate sorted insert_sorted to_set texts_eq keep mem
remediate_run = refl

waiting_valid : validate_state checks "G1" waiting ≡ ok tt
unfolding py_eq is_safe_id validate_state check_candidates check_reservation check_record
    check_records completed_attempts execution_ids candidate_ids mem_optional repeats
    repeats_optional for_each for_enumerate sorted insert_sorted to_set texts_eq keep mem
waiting_valid = refl

validate_state-IsValid_example : IsValid waiting
validate_state-IsValid_example = validate_state-IsValid checks "G1" waiting waiting_valid

reserve_attempt-IsReservation_example :
    (before : Slot) × (r : Reservation) × (◌≡◌ {A = Option Slot} (some fresh) (some before))
    × IsReservation before reserved_slot r
reserve_attempt-IsReservation_example =
    reserve_attempt-IsReservation checks "G1" "ORDINARY" none at_time (some fresh) reserve_run

abbrev to_remediation : Run checks "G1" (some delivered) 1 (some remediating)
to_remediation =
    next (next start (retire "C1" "A1" retire_run))
      (reserve "REMEDIATION" (some "C1") at_time remediate_run)

abbrev whole_run : Run checks "G1" none 2 (some remediating)
whole_run =
    next
      (next
        (next
          (next (next start (initialize "T1" initialize_run))
            (reserve "ORDINARY" none at_time reserve_run))
          (publish delivery refl publish_run))
        (retire "C1" "A1" retire_run))
      (reserve "REMEDIATION" (some "C1") at_time remediate_run)

two_attempts_example : (2 ≤ 2) × (remediating.remaining_attempts + 2 ≡ 2)
two_attempts_example = two_attempts checks "G1" whole_run

remediation_is_last_example :
    (r : Reservation) × (remediating.reserved_attempt ≡ some r)
    × (r.number ≡ 2)
    × (remediating.remaining_attempts ≡ 0)
    × (state_eq remediating.state empty_for_remediation ≡ true)
    × (is_parent (some "C1") remediating.historical_candidate_ids ≡ true)
remediation_is_last_example =
    remediation_is_last checks "G1" (some "C1") at_time (some waiting) remediate_run

records_stay_example :
    ((id : String) (r : ExecutionRecord)
      → find_record id (delivery ∷ []) ≡ some r
      → find_record id (delivery ∷ []) ≡ some r)
    × ((b : Value) → delivered.gate_binding ≡ some b → remediating.gate_binding ≡ some b)
records_stay_example = records_stay checks "G1" to_remediation

delivery_is_itself : py_eq delivery.mapping delivery.mapping ≡ true
unfolding py_eq
delivery_is_itself = refl

publish_record-idempotent_example : publish_record checks delivery (some delivered) ≡ ok delivered
publish_record-idempotent_example =
    publish_record-idempotent checks delivery (some reserved_slot) delivery_is_itself publish_run

abbrev ready_sections : Sections
ready_sections = record {
  packet = ("validation_status", text "PASS") ∷ [];
  baseline = ("unchanged", bool true) ∷ [];
  slot = ("active_candidate_after", text "C1") ∷ [];
  attempt = ("number", int (pos 1)) ∷ ("process_start_request_count", int (pos 1)) ∷ [];
  executor = ("identity_complete", bool true) ∷ [];
  capabilities =
      ("observations_complete", bool true)
      ∷ (
        "operation_rows",
        seq_of (
            dict_of (
              ("status", text "PASS")
              ∷ ("sequence", int (pos 0))
              ∷ ("class", text "APPROVED_FILE_PATCH")
              ∷ ("path_set", seq_of (text "b.py" ∷ text "a.py" ∷ []))
              ∷ [])
            ∷ []),
      )
      ∷ [];
  clone_before = ("commit", text "c") ∷ ("tree", text "t") ∷ ("git_control_sha256", text "g") ∷ [];
  prelaunch = ("state", text "PASS") ∷ [];
  process =
      ("start_requested", bool true)
      ∷ ("pid", int (pos 7))
      ∷ ("exit_code", int (pos 0))
      ∷ ("timed_out", bool false)
      ∷ ("cancelled", bool false)
      ∷ ("all_descendants_terminated", bool true)
      ∷ [];
  events =
      ("unknown_count", int (pos 0))
      ∷ ("prohibited_count", int (pos 0))
      ∷ ("output_schema_valid", bool true)
      ∷ [];
  agent_result =
      ("contract_valid", bool true)
      ∷ ("claims_match", bool true)
      ∷ ("claimed_status", text "DONE")
      ∷ [];
  clone_after =
      ("commit", text "c")
      ∷ ("tree", text "t")
      ∷ ("git_control_sha256", text "g")
      ∷ ("diff_sha256", text "d")
      ∷ ("changed_paths", seq_of (text "a.py" ∷ text "b.py" ∷ []))
      ∷ [];
  candidate =
      ("status", text "FROZEN_REVIEW")
      ∷ ("candidate_id", text "C1")
      ∷ ("diff_sha256", text "d")
      ∷ [];
}

sections_ready : promotion_ready ready_sections ≡ true
unfolding promotion_ready launch_ready clone_ready process_ready result_ready all_pass patch_paths
    patched py_eq get items pairs sorted insert_sorted to_set keep
sections_ready = refl

has_pid : is_null (get ready_sections.process "pid") ≡ false
unfolding get
has_pid = refl

promotion_ready-candidate_example :
    expected_outcome ready_sections.prelaunch ready_sections.attempt ready_sections.process
      ready_sections.agent_result
      (promotion_ready ready_sections)
    ≡ some "CANDIDATE_READY"
promotion_ready-candidate_example = promotion_ready-candidate ready_sections sections_ready has_pid

ready_outcome :
    expected_outcome ready_sections.prelaunch ready_sections.attempt ready_sections.process
      ready_sections.agent_result
      (promotion_ready ready_sections)
    ≡ some "CANDIDATE_READY"
ready_outcome = promotion_ready-candidate ready_sections sections_ready has_pid
