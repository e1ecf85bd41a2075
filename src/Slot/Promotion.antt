-- ===== src/Slot/Promotion.antt =====
-- `_coding_promotion_ready` and `_coding_expected_outcome` of acgps/contracts.py: when the sections
-- of an execution record show a candidate that may be promoted, and the outcome that they imply.
pub mod Outcome
use acgps_public.Prelude.{
  ℕ, ◌+◌, String, Bool, true, false, not, ◌&&◌, ◌||◌, Option, none, some, List, [], ◌∷◌, ◌++◌, map,
  if◌then◌else◌,
}
use acgps_public.Py.Text.{sorted, to_set}
use acgps_public.Py.Value.{
  pos, Value, bool, int, text, Dict, get, py_eq, as_dict, as_list, is_null, number, int_eq, seq_of,
  ℤ,
}

-- `value is True` and `value is False`
abbrev pub is_true : Value → Bool
is_true (bool true) = true
is_true _ = false

abbrev pub is_false : Value → Bool
is_false (bool false) = true
is_false _ = false

-- The sections of a record, each a mapping.
pub record Sections : Type 0 where
  pub packet : Dict
  pub baseline : Dict
  pub slot : Dict
  pub attempt : Dict
  pub executor : Dict
  pub capabilities : Dict
  pub clone_before : Dict
  pub prelaunch : Dict
  pub process : Dict
  pub events : Dict
  pub agent_result : Dict
  pub clone_after : Dict
  pub candidate : Dict

-- `row.get("status") == "PASS" and row.get("sequence") == index`
abbrev row_passes : Option Dict → ℕ → Bool
row_passes none index = false
row_passes (some row) index =
    py_eq (get row "status") (text "PASS") && py_eq (get row "sequence") (int (pos index))

unfoldable pub all_pass : ℕ → List Value → Bool
all_pass index [] = true
all_pass index (row ∷ rows) = row_passes (as_dict row) index && all_pass (index + 1) rows

abbrev pub rows_pass : Option (List Value) → Bool
rows_pass none = false
rows_pass (some rows) = all_pass 0 rows

texts_in : List Value → List String
texts_in [] = []
texts_in (text s ∷ vs) = s ∷ texts_in vs
texts_in (_ ∷ vs) = texts_in vs

abbrev paths_in : Option (List Value) → List String
paths_in none = []
paths_in (some vs) = texts_in vs

abbrev row_paths : Option Dict → List String
row_paths none = []
row_paths (some row) =
    if py_eq (get row "class") (text "APPROVED_FILE_PATCH")
    then paths_in (as_list (get row "path_set"))
    else []

unfoldable pub patched : List Value → List String
unfolding texts_in
patched [] = []
patched (row ∷ rows) = row_paths (as_dict row) ++ patched rows

-- The paths of the approved patches, sorted and without duplicates.
unfoldable pub patch_paths : Option (List Value) → List String
patch_paths none = []
patch_paths (some rows) = sorted (to_set (patched rows))

-- `value in (1, 2)`
abbrev pub is_attempt : Value → Bool
is_attempt v = py_eq v (int (pos 1)) || py_eq v (int (pos 2))

-- The predicates on what was allowed to run.
unfoldable pub launch_ready : Sections → Bool
launch_ready s =
    py_eq (get s.packet "validation_status") (text "PASS")
    && is_true (get s.baseline "unchanged")
    && py_eq (get s.prelaunch "state") (text "PASS")
    && is_attempt (get s.attempt "number")
    && py_eq (get s.attempt "process_start_request_count") (int (pos 1))
    && is_true (get s.executor "identity_complete")
    && is_true (get s.capabilities "observations_complete")

-- The predicates on what it changed.
unfoldable pub clone_ready : Sections → Bool
clone_ready s =
    let rows = as_list (get s.capabilities "operation_rows") in
    rows_pass rows
    && py_eq (get s.clone_after "changed_paths") (seq_of (map (λ p. text p) (patch_paths rows)))
    && py_eq (get s.clone_before "commit") (get s.clone_after "commit")
    && py_eq (get s.clone_before "tree") (get s.clone_after "tree")
    && py_eq (get s.clone_before "git_control_sha256") (get s.clone_after "git_control_sha256")

-- The predicates on how the process went.
unfoldable pub process_ready : Dict → Bool
process_ready process =
    is_true (get process "start_requested")
    && py_eq (get process "exit_code") (int (pos 0))
    && is_null (get process "error")
    && is_false (get process "timed_out")
    && is_false (get process "cancelled")
    && is_true (get process "all_descendants_terminated")

-- The predicates on what the agent reported and what was frozen.
unfoldable pub result_ready : Sections → Bool
result_ready s =
    py_eq (get s.events "unknown_count") (int (pos 0))
    && py_eq (get s.events "prohibited_count") (int (pos 0))
    && is_true (get s.events "output_schema_valid")
    && is_true (get s.agent_result "contract_valid")
    && is_true (get s.agent_result "claims_match")
    && py_eq (get s.agent_result "claimed_status") (text "DONE")
    && py_eq (get s.candidate "status") (text "FROZEN_REVIEW")
    && py_eq (get s.candidate "candidate_id") (get s.slot "active_candidate_after")
    && py_eq (get s.candidate "diff_sha256") (get s.clone_after "diff_sha256")

-- `_coding_promotion_ready`, of sections that are mappings.
unfoldable pub promotion_ready : Sections → Bool
promotion_ready s = launch_ready s && clone_ready s && process_ready s.process && result_ready s

-- `isinstance(exit_code, int) and exit_code != 0`
abbrev pub exit_fails : Option ℤ → Bool
exit_fails none = false
exit_fails (some code) = not (int_eq code (pos 0))

unfoldable pub process_failed : Dict → Bool
process_failed process =
    not (is_true (get process "start_requested"))
    || is_null (get process "pid")
    || not (is_null (get process "error"))
    || is_true (get process "timed_out")
    || is_true (get process "cancelled")
    || not (is_true (get process "all_descendants_terminated"))
    || exit_fails (number (get process "exit_code"))

-- `_coding_expected_outcome`, of sections that are mappings.
unfoldable pub expected_outcome : Dict → Dict → Dict → Dict → Bool → Option String
expected_outcome prelaunch attempt process agent_result ready =
    if py_eq (get prelaunch "state") (text "HOLD")
    then some "PRELAUNCH_HOLD"
    else if not (is_attempt (get attempt "number"))
    then none
    else if process_failed process || py_eq (get agent_result "claimed_status") (text "FAILED")
    then some "ATTEMPT_FAILED"
    else if ready
    then some "CANDIDATE_READY"
    else some "ATTEMPT_HOLD"
