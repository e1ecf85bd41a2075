-- ===== src/Workflow/Binding/Decision.antt =====
-- `validate_human_decision_resolution_binding` of acgps/workflow_contracts.py: the human decision
-- that lets a task leave WAITING_HUMAN.
use acgps_public.Prelude.{String, Bool, false, not, none, some, List, [], ◌∷◌}
use acgps_public.Py.Result.{ok, ◌>>=◌}
use acgps_public.Py.Text.{fmt}
use acgps_public.Py.Value.{Value, null, Dict, get, py_eq}
use acgps_public.Policy.Vocabulary.{task_states}
use acgps_public.Workflow.Outcome.{
  Check, Outside, item, refuse_if, first_of, invalid_outcome, with_code, require_mapping,
  validate_exact_mapping, validate_schema_version, require_safe_id, require_sha, require_member,
  validate_utc,
}
use acgps_public.Workflow.Vocabulary.{decision_binding_fields}
use acgps_public.Workflow.Binding.{validate_tagged_source}

abbrev binding_invalid : String
binding_invalid = "WORKFLOW_DECISION_BINDING_INVALID"

abbrev pub decision_fields_checks : Outside → Dict → List (Check (Unit {0}))
decision_fields_checks outside d =
    validate_schema_version (get d "schema_version") "schema_version"
    ∷ require_safe_id (get d "decision_id") "decision_id"
    ∷ require_safe_id (get d "project_id") "project_id"
    ∷ require_safe_id (get d "task_id") "task_id"
    ∷ require_member (get d "status") ("RESOLVED" ∷ []) "status" binding_invalid
    ∷ require_member (get d "authorized_target_state") task_states "authorized_target_state"
        binding_invalid
    ∷ require_sha (get d "resolution_sha256") "resolution_sha256"
    ∷ validate_utc outside (get d "resolved_at_utc") "resolved_at_utc"
    ∷ []

unfoldable pub check_decision_fields : Outside → Dict → Check (Unit {0})
unfolding first_of get validate_schema_version require_safe_id require_member require_sha
    validate_utc
check_decision_fields outside d = first_of (decision_fields_checks outside d)

-- What the caller expects of the decision; a request gives the values of its fields.
pub record Expected : Type 0 where
  pub target_state : Value
  pub project_id : Value
  pub task_id : Value

-- `expected is not None and actual != expected`
abbrev pub differs : Value → Value → Bool
differs null actual = false
differs expected actual = not (py_eq actual expected)

abbrev pub expected_checks : Dict → Expected → List (Check (Unit {0}))
expected_checks d expected =
    refuse_if (differs expected.target_state (get d "authorized_target_state")) binding_invalid
      "authorized_target_state" "authorized target does not match requested transition target"
    ∷ refuse_if (differs expected.project_id (get d "project_id")) binding_invalid "project_id"
        "decision project_id mismatch"
    ∷ refuse_if (differs expected.task_id (get d "task_id")) binding_invalid "task_id"
        "decision task_id mismatch"
    ∷ []

unfoldable pub check_expected : Dict → Expected → Check (Unit {0})
unfolding first_of refuse_if get py_eq
check_expected d expected = first_of (expected_checks d expected)

-- `if embedded[theirs] != record[ours]: return invalid_outcome(...)`
unfoldable pub agree : Value → Dict → String → String → Check (Unit {0})
unfolding item refuse_if get py_eq fmt
agree embedded d theirs ours = item embedded theirs >>= λ v.
    refuse_if (not (py_eq v (get d ours))) binding_invalid (fmt ("embedded_record." ∷ theirs ∷ []))
      (fmt (theirs ∷ " mismatch" ∷ []))

unfoldable pub check_resolution : Outside → Dict → Value → Check (Unit {0})
unfolding first_of invalid_outcome agree
check_resolution outside d null = ok tt
check_resolution outside d embedded = elim (outside.contract "human_decision_resolution" embedded) [
  | some error ↦ invalid_outcome binding_invalid "embedded_record" error.str
  | none ↦ first_of (
      agree embedded d "decision_id" "decision_id"
      ∷ agree embedded d "project_id" "project_id"
      ∷ agree embedded d "task_id" "task_id"
      ∷ agree embedded d "status" "status"
      ∷ agree embedded d "resume_state" "authorized_target_state"
      ∷ agree embedded d "resolved_at_utc" "resolved_at_utc"
      ∷ [])
]

abbrev pub decision_binding_checks : Outside → Dict → Expected → List (Check (Unit {0}))
decision_binding_checks outside d expected =
    with_code (validate_exact_mapping outside d decision_binding_fields "decision binding" "")
      binding_invalid
    ∷ with_code (check_decision_fields outside d) binding_invalid
    ∷ check_expected d expected
    ∷ with_code (validate_tagged_source outside d (some "resolution_sha256") "") binding_invalid
    ∷ check_resolution outside d (get d "embedded_record")
    ∷ []

unfoldable pub validate_human_decision_resolution_binding :
    Outside → Value → Expected → Check (Unit {0})
unfolding require_mapping with_code validate_exact_mapping check_decision_fields check_expected
    validate_tagged_source check_resolution get first_of
validate_human_decision_resolution_binding outside v expected =
    require_mapping v binding_invalid "decision_resolution_binding"
      "decision binding must be a mapping"
    >>= λ d. first_of (decision_binding_checks outside d expected)
