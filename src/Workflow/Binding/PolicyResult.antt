-- ===== src/Workflow/Binding/PolicyResult.antt =====
-- `validate_policy_evaluation_binding` of acgps/workflow_contracts.py: the policy result that
-- authorizes the transitions of a task.
use acgps_public.Prelude.{
  String, Bool, true, false, not, ◌&&◌, none, some, List, [], ◌∷◌, if◌then◌else◌, mem, all, any,
}
use acgps_public.Py.Result.{ok, raise, ◌>>=◌, ◌>>◌}
use acgps_public.Py.Text.{fmt}
use acgps_public.Py.Value.{
  Value, null, bool, text, seq, Dict, get, py_eq, items, is_hashable, is_bool,
}
use acgps_public.Policy.Vocabulary.{task_states}
use acgps_public.Workflow.Outcome.{
  Check, type_error, Outside, ContractError, item, refuse_if, first_of, invalid_outcome, with_code,
  require_mapping, validate_exact_mapping, validate_schema_version, require_safe_id, require_sha,
  validate_optional_utc,
}
use acgps_public.Workflow.Vocabulary.{policy_binding_fields, human_gate_authorized_transitions}
use acgps_public.Workflow.Binding.{is_the_text, validate_tagged_source}

-- No two items are equal: `len(value) == len(set(value))`.
unfoldable pub distinct : List Value → Bool
unfolding py_eq
distinct [] = true
distinct (v ∷ vs) = not (any (py_eq v) vs) && distinct vs

abbrev is_state : Value → Bool
is_state (text s) = mem s task_states
is_state _ = false

unfoldable pub is_unique_state_list : Value → Check Bool
unfolding items distinct mem
is_unique_state_list (seq vs) =
    if all is_hashable (items vs)
    then ok (distinct (items vs) && all is_state (items vs))
    else raise type_error
is_unique_state_list _ = ok false

abbrev pub elements : Value → List Value
elements (seq vs) = items vs
elements _ = []

-- `state not in HUMAN_GATE_AUTHORIZED_TRANSITIONS`
abbrev pub beyond_gate : Value → Bool
beyond_gate (text s) = not (mem s human_gate_authorized_transitions)
beyond_gate _ = true

abbrev pub is_true : Value → Bool
is_true (bool b) = b
is_true _ = false

abbrev policy_invalid : String
policy_invalid = "WORKFLOW_POLICY_RESULT_INVALID"

abbrev pub in_policy : String → String
in_policy path = fmt ("policy_evaluation_binding." ∷ path ∷ [])

abbrev pub policy_fields_checks : Outside → Dict → List (Check (Unit {0}))
policy_fields_checks outside d =
    validate_schema_version (get d "schema_version") (in_policy "schema_version")
    ∷ require_safe_id (get d "evaluation_id") (in_policy "evaluation_id")
    ∷ require_sha (get d "result_sha256") (in_policy "result_sha256")
    ∷ require_sha (get d "policy_bundle_digest") (in_policy "policy_bundle_digest")
    ∷ validate_optional_utc outside (get d "created_at_utc") (in_policy "created_at_utc")
    ∷ []

unfoldable pub check_policy_fields : Outside → Dict → Check (Unit {0})
unfolding first_of get validate_schema_version require_safe_id require_sha validate_optional_utc fmt
check_policy_fields outside d = first_of (policy_fields_checks outside d)

abbrev pub authorization_checks : Dict → Bool → List (Check (Unit {0}))
authorization_checks d unique =
    refuse_if (not unique) policy_invalid (in_policy "authorized_transitions")
      "authorized_transitions must be unique declared states"
    ∷ refuse_if
        (is_true (get d "human_gate")
          && any beyond_gate (elements (get d "authorized_transitions")))
        policy_invalid (in_policy "authorized_transitions")
        "human-gated policy bindings may authorize only WAITING_HUMAN or ABANDONED"
    ∷ []

-- The human gate and the transitions that a policy binding authorizes.
unfoldable pub check_authorization : Dict → Check (Unit {0})
unfolding get refuse_if is_unique_state_list items mem fmt first_of
check_authorization d =
    refuse_if (not (is_bool (get d "human_gate"))) policy_invalid (in_policy "human_gate")
      "human_gate must be a boolean"
    >>= λ _. is_unique_state_list (get d "authorized_transitions") >>= λ unique.
        first_of (authorization_checks d unique)

-- The first issue of a contract error, or its text at the root.
abbrev first_issue : ContractError → String × String
first_issue error = elim error.issues [ [] ↦ ("$", error.str) | issue ∷ _ ↦ issue ]

unfoldable pub check_policy_contract : Outside → Value → Check (Unit {0})
unfolding invalid_outcome fmt
check_policy_contract outside embedded =
    elim (outside.contract "policy_evaluation_result" embedded) [
      | none ↦ ok tt
      | some error ↦
          invalid_outcome policy_invalid
            (fmt ("policy_evaluation_binding.embedded_record." ∷ (first_issue error).0 ∷ []))
            (first_issue error).1
    ]

-- The body of the embedded result authorizes what the binding does.
unfoldable pub check_policy_body : Dict → Value → Check (Unit {0})
unfolding refuse_if get item py_eq fmt
check_policy_body d body = item body "authorized_transitions" >>= λ transitions.
    refuse_if (not (py_eq (get d "authorized_transitions") transitions)) policy_invalid
      (in_policy "authorized_transitions") "authorized transitions do not match embedded result"
    >> item body "human_gate"
    >>= λ gate.
        refuse_if (not (py_eq (get d "human_gate") gate)) policy_invalid (in_policy "human_gate")
          "human_gate does not match embedded result"

-- The fields of the binding agree with the embedded result.
unfoldable pub check_policy_result : Outside → Dict → Value → Check (Unit {0})
unfolding refuse_if get item py_eq fmt check_policy_body
check_policy_result outside d embedded =
    refuse_if (not (is_the_text (outside.sha embedded) (get d "result_sha256"))) policy_invalid
      (in_policy "result_sha256") "policy result hash mismatch"
    >> item embedded "evaluation_id"
    >>= λ evaluation_id.
        refuse_if (not (py_eq (get d "evaluation_id") evaluation_id)) policy_invalid
          (in_policy "embedded_record.evaluation_id") "embedded evaluation_id must match binding"
        >> item embedded "policy_bundle_digest"
        >>= λ digest.
            refuse_if (not (py_eq (get d "policy_bundle_digest") digest)) policy_invalid
              (in_policy "policy_bundle_digest")
              "policy_bundle_digest must equal embedded PolicyEvaluationResult.v1"
            >> item embedded "result"
            >>= check_policy_body d

unfoldable pub check_embedded_policy : Outside → Dict → Value → Check (Unit {0})
unfolding check_policy_contract check_policy_result
check_embedded_policy outside d null = ok tt
check_embedded_policy outside d embedded =
    check_policy_contract outside embedded >> check_policy_result outside d embedded

abbrev pub policy_binding_checks : Outside → Dict → List (Check (Unit {0}))
policy_binding_checks outside d =
    with_code
      (validate_exact_mapping outside d policy_binding_fields "policy binding"
        "policy_evaluation_binding")
      policy_invalid
    ∷ with_code (check_policy_fields outside d) policy_invalid
    ∷ check_authorization d
    ∷ with_code (validate_tagged_source outside d none "policy_evaluation_binding") policy_invalid
    ∷ check_embedded_policy outside d (get d "embedded_record")
    ∷ []

unfoldable pub validate_policy_evaluation_binding : Outside → Value → Check (Unit {0})
unfolding require_mapping with_code validate_exact_mapping check_policy_fields check_authorization
    validate_tagged_source check_embedded_policy get first_of
validate_policy_evaluation_binding outside v =
    require_mapping v policy_invalid "policy_evaluation_binding" "policy binding must be a mapping"
    >>= λ d. first_of (policy_binding_checks outside d)
