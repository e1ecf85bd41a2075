-- ===== src/Workflow/Catalog.antt =====
-- The rules of the catalog config/wp3_task1_invariants.yaml for an audit event, as
-- acgps/workflow_contracts.py applies them: `_validate_audit_event_field_matrix`,
-- `_validate_audit_event_generation_role` and `_validate_audit_event_context_bindings`.
use Prim.Native.String as S
use acgps_public.Prelude.{
  String, Bool, true, false, not, ◌&&◌, none, some, List, [], ◌∷◌, if◌then◌else◌, mem, any, map,
  ltb,
}
use acgps_public.Py.Result.{ok, raise, ◌>>=◌, ◌>>◌, for_each}
use acgps_public.Py.Text.{fmt, split_on}
use acgps_public.Py.Value.{
  ℤ, pos, negsuc, Value, null, text, seq, nil, dict, Fields, Dict, get, lookup, keys, pairs, items,
  number, py_eq, is_null, is_dict,
}
use acgps_public.Workflow.Outcome.{
  Check, type_error, attribute_error, key_error, Outside, refuse_if, first_of, with_code, item,
  require_equal, invalid_outcome,
}
use acgps_public.Workflow.Binding.{is_the_text}
use acgps_public.Workflow.Binding.Decision.{validate_human_decision_resolution_binding}
use acgps_public.Workflow.Binding.PolicyResult.{elements}
use acgps_public.Workflow.Request.{mapping_of}
use acgps_public.Workflow.Generation.{audit_corrupt, is_among, is_one}

-- `_get_path`: the value at the keys, or null.
unfoldable pub get_path : Value → List String → Value
unfolding lookup pairs
get_path v [] = v
get_path (dict d) (key ∷ path) = elim (lookup key (pairs d)) [
  | none ↦ null
  | some v ↦ get_path v path
]
get_path v (key ∷ path) = null

-- `_is_present`: the keys lead to a value that is not null.
unfoldable pub is_present : Value → List String → Bool
unfolding lookup pairs
is_present v [] = not (is_null v)
is_present (dict d) (key ∷ path) = elim (lookup key (pairs d)) [
  | none ↦ false
  | some v ↦ is_present v path
]
is_present v (key ∷ path) = false

-- The characters of a text, as texts.
characters : String → List Value
characters S.[] = []
characters (S.◌∷◌ c s) = text (S.◌∷◌ c S.[]) ∷ characters s

-- `for item in value`
unfoldable pub iterate : Value → Check (List Value)
unfolding items keys pairs characters
iterate (seq vs) = ok (items vs)
iterate (dict d) = ok (map text (keys (pairs d)))
iterate (text s) = ok (characters s)
iterate _ = raise type_error

-- `value.get(key, [])`, iterated
unfoldable pub paths_of : Value → String → Check (List Value)
unfolding lookup pairs iterate
paths_of (dict d) key = elim (lookup key (pairs d)) [ none ↦ ok [] | some v ↦ iterate v ]
paths_of v key = raise attribute_error

-- One dotted path of a rule: a value that is no text has no `split`.
unfoldable pub at_path : (List String → Bool) → String → Value → Check (Unit {0})
unfolding refuse_if split_on
at_path test message (text s) = refuse_if (not (test (split_on b'.' s))) audit_corrupt s message
at_path test message v = raise attribute_error

abbrev is_empty_list : Value → Bool
is_empty_list (seq nil) = true
is_empty_list _ = false

abbrev is_nonempty_list : Value → Bool
is_nonempty_list (seq nil) = false
is_nonempty_list (seq vs) = true
is_nonempty_list _ = false

-- `catalog["event_type_matrix"][record["event_type"]]`
unfoldable pub event_rules : Value → Dict → Check Value
unfolding item get
event_rules catalog d =
    item catalog "event_type_matrix" >>= λ matrix. at (get d "event_type") matrix
  where
    at : Value → Value → Check Value
    at (text s) matrix = item matrix s
    at _ matrix = raise key_error

-- The catalog as `_load_task1_invariants` returns it.
abbrev pub Catalog : Type 0
Catalog = Check Value

-- The paths that an event type needs to be null.
unfoldable pub check_nullable : Dict → Value → Value → Check (Unit {0})
unfolding paths_of at_path get_path get for_each mem
check_nullable d record_value rules =
    if is_among ("TASK_CREATED" ∷ "RECOVERY_RECORDED" ∷ "ROLLBACK_RECORDED" ∷ [])
      (get d "event_type")
    then (paths_of rules "nullable" >>= λ nullable. for_each nullable (
        at_path (λ path. is_null (get_path record_value path))
          "audit event type requires this field to be null"))
    else ok tt

unfoldable pub validate_audit_event_field_matrix : Catalog → Fields → Check (Unit {0})
unfolding with_code event_rules paths_of at_path for_each is_present check_nullable get_path pairs
validate_audit_event_field_matrix loaded fields = with_code loaded audit_corrupt >>= λ catalog.
    event_rules catalog (pairs fields) >>= λ rules. paths_of rules "required" >>= λ needed.
    for_each needed (at_path (is_present (dict fields)) "audit event type requires this field")
    >> check_nullable (pairs fields) (dict fields) rules
    >> paths_of rules "empty"
    >>= λ empty.
        for_each empty (
          at_path (λ path. is_empty_list (get_path (dict fields) path))
            "audit event type requires this field to be empty")
        >> paths_of rules "non_empty"
        >>= λ non_empty. for_each non_empty (
            at_path (λ path. is_nonempty_list (get_path (dict fields) path))
              "audit event type requires a non-empty list")

abbrev int_ltb : ℤ → ℤ → Bool
int_ltb (pos m) (pos n) = ltb m n
int_ltb (pos m) (negsuc n) = false
int_ltb (negsuc m) (pos n) = true
int_ltb (negsuc m) (negsuc n) = ltb n m

-- `value < least`, for an integer and any value
abbrev pub below : Value → Value → Check Bool
below v least = elim (number v) [
  | none ↦ raise type_error
  | some m ↦ elim (number least) [ none ↦ raise type_error | some n ↦ ok (int_ltb m n) ]
]

-- `if key in role and test(record[field], role[key]): return invalid_outcome(...)`
unfoldable pub role_rule : Dict → String → (Value → Check Bool) → String → String → Check (Unit {0})
unfolding lookup refuse_if
role_rule role key test path message = elim (lookup key role) [
  | none ↦ ok tt
  | some v ↦ test v >>= λ b. refuse_if b audit_corrupt path message
]

unfoldable pub check_generation_role : Dict → Dict → Check (Unit {0})
unfolding first_of role_rule get py_eq refuse_if lookup
check_generation_role d role = first_of (
    role_rule role "sequence_must_not_be" (λ v. ok (py_eq (get d "sequence") v)) "event_type"
      "event type is not valid as a generation starter"
    ∷ role_rule role "sequence" (λ v. ok (not (py_eq (get d "sequence") v))) "sequence"
        "event generation role sequence mismatch"
    ∷ role_rule role "generation" (λ v. ok (not (py_eq (get d "generation") v))) "generation"
        "event generation role mismatch"
    ∷ role_rule role "minimum_generation" (λ v. below (get d "generation") v) "generation"
        "event generation is below role minimum"
    ∷ refuse_if
        (is_one (get d "sequence")
          && not (py_eq (get d "event_type") (get role "first_event_type")))
        audit_corrupt "event_type" "first event type does not match generation role"
    ∷ [])

-- `if not isinstance(value, dict): return invalid_outcome(...)`
abbrev rule_mapping : Value → String → String → Check Dict
unfolding invalid_outcome pairs
rule_mapping (dict d) path message = ok (pairs d)
rule_mapping _ path message = invalid_outcome audit_corrupt path message

unfoldable pub validate_audit_event_generation_role : Catalog → Dict → Check (Unit {0})
unfolding with_code event_rules item check_generation_role invalid_outcome pairs
validate_audit_event_generation_role loaded d = with_code loaded audit_corrupt >>= λ catalog.
    event_rules catalog d >>= λ rules. item rules "generation_role" >>= λ role.
    rule_mapping role "task1_invariants.event_type_matrix.generation_role"
      "generation role must be a mapping"
    >>= check_generation_role d

-- The embedded policy result names the project and the task of the event.
unfoldable pub context_equal : Dict → Dict → Value → String → Check (Unit {0})
unfolding lookup require_equal invalid_outcome get fmt
context_equal d embedded (text name) path = elim (lookup name d) [
  | none ↦ raise key_error
  | some v ↦
      require_equal (get embedded path) v
        (fmt ("policy_evaluation_binding.embedded_record." ∷ path ∷ []))
        "policy binding context must match audit event" audit_corrupt
]
context_equal d embedded _ path =
    invalid_outcome audit_corrupt "task1_invariants.event_type_matrix.context_bindings"
      "policy context binding is invalid"

unfoldable pub check_policy_context : Dict → Dict → Value → Check (Unit {0})
unfolding context_equal get pairs first_of
check_policy_context d context null = ok tt
check_policy_context d context (dict embedded) = first_of (
    context_equal d (pairs embedded) (get context "policy_project_id") "project_id"
    ∷ context_equal d (pairs embedded) (get context "policy_task_id") "task_id"
    ∷ [])
check_policy_context d context _ = raise attribute_error

-- The policy authorizes the field that the context names.
unfoldable pub check_target : Dict → Dict → Value → Check (Unit {0})
unfolding lookup refuse_if get py_eq items
check_target d policy (text name) = elim (lookup name d) [
  | none ↦ raise key_error
  | some v ↦
      refuse_if (not (any (py_eq v) (elements (get policy "authorized_transitions")))) audit_corrupt
        "policy_evaluation_binding.authorized_transitions"
        "policy binding does not authorize audit event target"
]
check_target d policy _ = ok tt

-- A decision comes from the state that the context names, and from no other.
unfoldable pub check_event_decision : Outside → Dict → Dict → Check (Unit {0})
unfolding refuse_if get py_eq with_code validate_human_decision_resolution_binding
check_event_decision outside d context =
    if is_null (get d "decision_resolution_binding")
    then refuse_if (py_eq (get d "from_state") (get context "decision_only_from_state"))
        audit_corrupt "decision_resolution_binding"
        "catalog-declared human-resume transition requires decision binding"
    else refuse_if (not (py_eq (get d "from_state") (get context "decision_only_from_state")))
        audit_corrupt "decision_resolution_binding"
        "decision binding is only valid from the catalog-declared source state"
      >> with_code
          (validate_human_decision_resolution_binding outside (get d "decision_resolution_binding")
            (record {
              target_state = get d "to_state";
              project_id = get d "project_id";
              task_id = get d "task_id";
            }))
          audit_corrupt

-- The context of an accepted transition.
unfoldable pub check_context : Outside → Dict → Dict → Check (Unit {0})
unfolding get refuse_if check_policy_context check_target check_event_decision first_of pairs
check_context outside d context =
    if not (is_the_text "TRANSITION_ACCEPTED" (get d "event_type"))
    then ok tt
    else first_of (
        refuse_if (not (is_dict (get d "policy_evaluation_binding"))) audit_corrupt
          "policy_evaluation_binding" "transition audit requires policy binding"
        ∷ check_policy_context d context
            (get (mapping_of (get d "policy_evaluation_binding")) "embedded_record")
        ∷ check_target d (mapping_of (get d "policy_evaluation_binding"))
            (get context "policy_authorizes_to_state")
        ∷ check_event_decision outside d context
        ∷ [])

unfoldable pub validate_audit_event_context_bindings : Outside → Catalog → Dict → Check (Unit {0})
unfolding with_code event_rules item check_context invalid_outcome pairs
validate_audit_event_context_bindings outside loaded d =
    with_code loaded audit_corrupt >>= λ catalog. event_rules catalog d >>= λ rules.
    item rules "context_bindings" >>= λ context.
    rule_mapping context "task1_invariants.event_type_matrix.context_bindings"
      "context bindings must be a mapping"
    >>= check_context outside d
