-- ===== src/Workflow/Generation.antt =====
-- `validate_audit_generation` and `_validate_trusted_prefix` of acgps/workflow_contracts.py: how a
-- generation of the audit trail starts.
use acgps_public.Prelude.{String, Bool, false, not, ◌||◌, List, [], ◌∷◌, ◌++◌, if◌then◌else◌, mem}
use acgps_public.Py.Result.{ok, ◌>>=◌, ◌>>◌}
use acgps_public.Py.Value.{pos, Value, int, text, Dict, get, py_eq, is_null}
use acgps_public.Workflow.Outcome.{
  Check, Outside, refuse_if, first_of, with_code, require_mapping, validate_exact_mapping,
  validate_schema_version, require_safe_id, require_sha, require_positive_int, require_member,
  validate_utc, join, is_safe_path_value,
}
use acgps_public.Workflow.Vocabulary.{
  audit_generation_fields, trusted_prefix_fields, event_types, recovery_event_types, threat_models,
}
use acgps_public.Workflow.Binding.{is_the_text}

abbrev pub audit_corrupt : String
audit_corrupt = "WORKFLOW_AUDIT_CORRUPT"

abbrev incomplete : String
incomplete = "WORKFLOW_TRANSACTION_INCOMPLETE"

unfoldable pub check_generation_fields : Outside → Dict → Check (Unit {0})
unfolding first_of get validate_schema_version require_safe_id require_positive_int require_member
    validate_utc
check_generation_fields outside d = first_of (
    validate_schema_version (get d "schema_version") "schema_version"
    ∷ require_safe_id (get d "task_id") "task_id"
    ∷ require_positive_int (get d "generation") "generation"
    ∷ require_safe_id (get d "started_by_event_id") "started_by_event_id"
    ∷ require_member (get d "started_by_event_type") (event_types ++ recovery_event_types)
        "started_by_event_type" audit_corrupt
    ∷ require_member (get d "threat_model") threat_models "threat_model" audit_corrupt
    ∷ validate_utc outside (get d "created_at_utc") "created_at_utc"
    ∷ [])

-- `if record[field] is not None: check(record[field], field)`
unfoldable pub unless_null : Dict → String → (Value → String → Check (Unit {0})) → Check (Unit {0})
unfolding get
unless_null d name check = if is_null (get d name) then ok tt else check (get d name) name

abbrev pub is_one : Value → Bool
unfolding py_eq
is_one v = py_eq v (int (pos 1))

-- `value in names`, where `value` is a text
abbrev pub is_among : List String → Value → Bool
is_among names (text s) = mem s names
is_among names _ = false

-- The first generation has no predecessor, and every other one has.
unfoldable pub check_predecessor : Dict → Check (Unit {0})
unfolding get refuse_if first_of mem py_eq
check_predecessor d =
    if is_one (get d "generation")
    then first_of (
        refuse_if (not (is_the_text "TASK_CREATED" (get d "started_by_event_type"))) audit_corrupt
          "started_by_event_type" "generation 1 must start with TASK_CREATED"
        ∷ refuse_if
            (not (is_null (get d "predecessor_generation"))
              || not (is_null (get d "predecessor_valid_head_hash"))
              || not (is_null (get d "quarantine_path")))
            audit_corrupt "predecessor_generation"
            "generation 1 must not have predecessor or quarantine"
        ∷ [])
    else first_of (
        refuse_if
          (is_null (get d "predecessor_generation")
            || is_null (get d "predecessor_valid_head_hash"))
          audit_corrupt "predecessor_generation" "generation greater than 1 requires predecessor"
        ∷ refuse_if (not (is_among recovery_event_types (get d "started_by_event_type")))
            audit_corrupt "started_by_event_type"
            "generation greater than 1 must start with recovery or rollback"
        ∷ [])

unfoldable pub check_quarantine : Dict → Check (Unit {0})
unfolding get refuse_if is_safe_path_value
check_quarantine d =
    if is_null (get d "quarantine_path")
    then ok tt
    else is_safe_path_value (get d "quarantine_path") >>= λ safe.
        refuse_if (not safe) audit_corrupt "quarantine_path" "path must be safe relative POSIX path"

unfoldable pub validate_audit_generation : Outside → Value → Check (Unit {0})
unfolding require_mapping with_code validate_exact_mapping check_generation_fields check_predecessor
    check_quarantine require_positive_int require_sha unless_null
validate_audit_generation outside v =
    require_mapping v audit_corrupt "$" "audit generation must be a mapping" >>= λ d.
    with_code (validate_exact_mapping outside d audit_generation_fields "audit generation" "")
      audit_corrupt
    >> with_code (check_generation_fields outside d) audit_corrupt
    >> with_code (unless_null d "predecessor_generation" require_positive_int) audit_corrupt
    >> with_code (unless_null d "predecessor_valid_head_hash" require_sha) audit_corrupt
    >> check_predecessor d
    >> check_quarantine d

unfoldable pub check_prefix_fields : Dict → String → Check (Unit {0})
unfolding first_of get join require_positive_int require_safe_id require_sha
check_prefix_fields d prefix = first_of (
    require_positive_int (get d "generation") (join prefix "generation")
    ∷ require_positive_int (get d "sequence") (join prefix "sequence")
    ∷ require_safe_id (get d "event_id") (join prefix "event_id")
    ∷ require_sha (get d "event_hash") (join prefix "event_hash")
    ∷ [])

unfoldable pub validate_trusted_prefix : Outside → Value → String → Check (Unit {0})
unfolding require_mapping with_code validate_exact_mapping check_prefix_fields
validate_trusted_prefix outside v prefix =
    require_mapping v incomplete prefix "trusted prefix must be a mapping" >>= λ d.
    with_code (validate_exact_mapping outside d trusted_prefix_fields "trusted prefix" prefix)
      incomplete
    >> with_code (check_prefix_fields d prefix) incomplete
