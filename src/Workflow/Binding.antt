-- ===== src/Workflow/Binding.antt =====
-- The bindings of acgps/workflow_contracts.py: evidence, policy evaluations and human decisions that
-- a request or an event carries, embedded with their digest or by a path.
pub mod PolicyResult
pub mod Decision
use acgps_public.Prelude.{
  ℕ, ◌+◌, String, Bool, true, false, not, ◌&&◌, ◌||◌, Option, none, some, List, [], ◌∷◌, ◌==◌,
  nat_eq, if◌then◌else◌, mem, all, any, length,
}
use acgps_public.Py.Result.{ok, raise, ◌>>=◌, ◌>>◌}
use acgps_public.Py.Text.{fmt, show, to_set}
use acgps_public.Py.Value.{
  pos, Value, null, bool, int, text, seq, dict, Dict, lookup, get, py_eq, pairs, items, is_null,
  is_hashable, is_bool, as_text,
}
use acgps_public.Policy.Vocabulary.{task_states}
use acgps_public.Workflow.Outcome.{
  Check, Stop, type_error, attribute_error, key_error, Outside, ContractError, item, refuse_if,
  first_of, invalid_outcome, with_code, join, require_mapping, validate_exact_mapping,
  validate_schema_version, require_safe_id, require_non_empty_string, require_sha,
  require_non_negative_int, require_member, require_equal, validate_utc, validate_optional_utc,
  is_safe_path_value,
}
use acgps_public.Workflow.Vocabulary.{
  sources, evidence_binding_fields, policy_binding_fields, decision_binding_fields,
  human_gate_authorized_transitions,
}

-- `value == text`
abbrev pub is_the_text : String → Value → Bool
is_the_text s (text t) = t == s
is_the_text s _ = false

-- `value in allowed`, for a set of texts: an unhashable value raises.
unfoldable pub in_set : Value → List String → Check Bool
unfolding mem
in_set (text s) allowed = ok (mem s allowed)
in_set (seq vs) allowed = raise type_error
in_set (dict d) allowed = raise type_error
in_set _ allowed = ok false

-- The hash field of a binding that has one.
abbrev hash_of : Dict → Option String → Value
hash_of d none = null
hash_of d (some name) = get d name

abbrev field_name : Option String → String
field_name none = ""
field_name (some name) = name

-- A path that is no text is refused.
abbrev is_safe_path : Value → Check Bool
is_safe_path (text s) = is_safe_path_value (text s)
is_safe_path _ = ok false

-- The branch of `_validate_tagged_source` for the source "path".
unfoldable pub check_path_source : Dict → Option String → String → Check (Unit {0})
unfolding first_of refuse_if get join is_safe_path_value fmt
check_path_source d hash_field prefix = is_safe_path (get d "path") >>= λ safe. first_of (
    refuse_if (not safe) "WORKFLOW_INVALID_INPUT" (join prefix "path")
      "path must be safe relative POSIX path"
    ∷ refuse_if (not (is_null (get d "embedded_record"))) "WORKFLOW_INVALID_INPUT"
        (join prefix "embedded_record") "embedded_record must be null for path source"
    ∷ refuse_if (not (is_null (hash_of d hash_field))) "WORKFLOW_INVALID_INPUT"
        (join prefix (field_name hash_field))
        (fmt (field_name hash_field ∷ " must be null for path source" ∷ []))
    ∷ [])

-- The digest of an embedded record.
unfoldable pub check_hash : Outside → Dict → Option String → String → Check (Unit {0})
unfolding first_of refuse_if get join require_sha fmt
check_hash outside d none prefix = ok tt
check_hash outside d (some name) prefix = first_of (
    require_sha (get d name) (join prefix name)
    ∷ refuse_if (not (is_the_text (outside.sha (get d "embedded_record")) (get d name)))
        "WORKFLOW_EVIDENCE_HASH_MISMATCH" (join prefix name)
        (fmt (name ∷ " does not match embedded_record" ∷ []))
    ∷ [])

-- The branch of `_validate_tagged_source` for the source "embedded".
unfoldable pub check_embedded_source : Outside → Dict → Option String → String → Check (Unit {0})
unfolding first_of refuse_if get join check_hash
check_embedded_source outside d hash_field prefix = first_of (
    refuse_if (not (is_null (get d "path"))) "WORKFLOW_INVALID_INPUT" (join prefix "path")
      "path must be null for embedded source"
    ∷ refuse_if (is_null (get d "embedded_record")) "WORKFLOW_INVALID_INPUT"
        (join prefix "embedded_record") "embedded_record is required for embedded source"
    ∷ check_hash outside d hash_field prefix
    ∷ [])

unfoldable pub validate_tagged_source : Outside → Dict → Option String → String → Check (Unit {0})
unfolding get in_set refuse_if join check_path_source check_embedded_source
validate_tagged_source outside d hash_field prefix = in_set (get d "source") sources >>= λ known.
    refuse_if (not known) "WORKFLOW_INVALID_INPUT" (join prefix "source")
      "source must be path or embedded"
    >> (if is_the_text "path" (get d "source")
        then check_path_source d hash_field prefix
        else check_embedded_source outside d hash_field prefix)

-- `prefix or "$"`
abbrev or_root : String → String
or_root prefix = if prefix == "" then "$" else prefix

-- The bytes of embedded evidence.
unfoldable pub check_evidence_bytes : Outside → Dict → String → Check (Unit {0})
unfolding first_of refuse_if get join py_eq
check_evidence_bytes outside d prefix =
    if is_the_text "embedded" (get d "source")
    then first_of (
        refuse_if
          (not (is_the_text (outside.sha (get d "embedded_record")) (get d "content_sha256")))
          "WORKFLOW_EVIDENCE_HASH_MISMATCH" (join prefix "content_sha256")
          "content_sha256 does not match embedded evidence bytes"
        ∷ refuse_if
            (not (py_eq (int (pos (outside.size (get d "embedded_record")))) (get d "size_bytes")))
            "WORKFLOW_EVIDENCE_HASH_MISMATCH" (join prefix "size_bytes")
            "size_bytes does not match embedded evidence bytes"
        ∷ [])
    else ok tt

-- The checks of the fields, in their order.
unfoldable pub check_evidence_fields : Outside → Dict → String → Check (Unit {0})
unfolding first_of get join validate_schema_version require_safe_id require_non_empty_string
    require_sha require_non_negative_int validate_optional_utc
check_evidence_fields outside d prefix = first_of (
    validate_schema_version (get d "schema_version") (join prefix "schema_version")
    ∷ require_safe_id (get d "binding_id") (join prefix "binding_id")
    ∷ require_non_empty_string (get d "evidence_kind") (join prefix "evidence_kind")
    ∷ require_sha (get d "content_sha256") (join prefix "content_sha256")
    ∷ require_non_negative_int (get d "size_bytes") (join prefix "size_bytes")
    ∷ validate_optional_utc outside (get d "created_at_utc") (join prefix "created_at_utc")
    ∷ [])

unfoldable pub validate_evidence_binding : Outside → Value → String → Check (Unit {0})
unfolding require_mapping validate_exact_mapping check_evidence_fields validate_tagged_source
    check_evidence_bytes
validate_evidence_binding outside v prefix =
    require_mapping v "WORKFLOW_INVALID_INPUT" (or_root prefix) "evidence binding must be a mapping"
    >>= λ d.
        validate_exact_mapping outside d evidence_binding_fields "evidence binding" prefix
        >> check_evidence_fields outside d prefix
        >> validate_tagged_source outside d (some "embedded_sha256") prefix
        >> check_evidence_bytes outside d prefix
