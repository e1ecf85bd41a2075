-- ===== src/Policy/Input.antt =====
-- What the evaluator of acgps/policy.py reads: the bundle, and the input that `_normalize_input`
-- and `_prevalidate_input` accept.
use acgps_public.Prelude.{
  ℕ, ◌+◌, String, Bool, not, ◌||◌, Option, none, some, List, [], ◌∷◌, ◌==◌, if◌then◌else◌, mem,
}
use acgps_public.Py.Result.{ok, ◌>>=◌, ◌>>◌, require, for_each, for_enumerate}
use acgps_public.Py.Text.{fmt}
use acgps_public.Py.Value.{
  pos, Value, null, int, text, Dict, lookup, has, get, keys, py_eq, as_dict, as_list, as_text,
  is_int, get_or, dict_of, seq_of,
}
use acgps_public.Policy.Error.{
  Code, Policy, policy_error, python_type_error, attribute_error, key_error, fail, fail_if,
}
use acgps_public.Policy.Fields.{at_index, iterate, py_in, duplicate_item, mem_value}
use acgps_public.Prelude.{starts_with}
use acgps_public.Policy.Profile.{Issue, Registry}
use acgps_public.Policy.Schema.{Policies}

-- `PolicyBundle`, without the root that only the loader uses.
pub record Bundle : Type 0 where
  pub policies : Policies
  pub open policies use *
  pub project_profiles : Registry
  pub policy_bundle_digest : String

-- What the evaluator takes from elsewhere: what `validate_contract` finds in a record of the named
-- contract, and the order in which Python walks the set INPUT_FIELDS.
pub record Environment : Type 0 where
  pub contract_issues : String → Value → List Issue
  pub input_field_order : List String

-- The input after `_prevalidate_input`, whose checks establish these types.
pub record Input : Type 0 where
  pub current_state : String
  pub risk_triggers : List String
  pub human_triggers : List String
  pub task_attributes : List (String × String)
  pub project_profile_id : Option String

-- INPUT_FIELDS
abbrev pub input_fields : List String
input_fields =
    "current_state" ∷ "risk_triggers" ∷ "human_triggers" ∷ "task_attributes" ∷ "project_profile_id"
    ∷ []

-- `any(field in record for field in PUBLIC_INPUT_WRAPPER_FIELDS - WRAPPER_FIELDS)`
unfoldable pub looks_like_public_input : Dict → Bool
looks_like_public_input doc =
    has "evaluation_id" doc || has "project_id" doc || has "task_id" doc || has "created_at_utc" doc

abbrev public_issue : List Issue → Policy (Unit {0})
public_issue [] = ok tt
public_issue (issue ∷ issues) =
    if issue.message == "unexpected field"
    then fail Code.unknown_field issue.path
        (fmt ("unknown PolicyEvaluationInput field " ∷ issue.path ∷ []))
    else if starts_with issue.message "expected"
    then fail Code.type_error issue.path issue.message
    else fail Code.malformed issue.path issue.message

-- `dict(record["input"])` of an accepted public record.
public_input : Environment → Dict → Policy Dict
public_input env doc = do
  public_issue (env.contract_issues "policy_evaluation_input" (dict_of doc))
  input ← require (lookup "input" doc) key_error
  require (as_dict input) python_type_error

-- The input of a record with a `schema_version` or an `input` field.
wrapped_input : Dict → Policy Dict
wrapped_input doc = do
  for_each (keys doc) λ name.
      fail_if (not (mem name ("schema_version" ∷ "input" ∷ []))) Code.unknown_field name
        (fmt ("unknown PolicyEvaluationInput wrapper field " ∷ name ∷ []))
  fail_if (not (is_int (get doc "schema_version"))) Code.type_error "schema_version"
      "schema_version must be an integer"
  fail_if (not (py_eq (get doc "schema_version") (int (pos 1)))) Code.unsupported_version
      "schema_version" "unsupported PolicyEvaluationInput schema version"
  require (as_dict (get doc "input"))
      (policy_error Code.type_error "input" "input must be a mapping")

unfoldable pub normalize_input : Environment → Value → Policy Dict
unfolding looks_like_public_input public_input wrapped_input
normalize_input env value = do
  doc ←
      require (as_dict value)
        (policy_error Code.type_error "input" "PolicyEvaluationInput must be a mapping")
  if looks_like_public_input doc
      then public_input env doc
      else if has "schema_version" doc || has "input" doc
      then wrapped_input doc
      else ok doc

-- The texts of a list, from position `i`; texts may be empty here.
check_texts : String → String → ℕ → List Value → Policy (List String)
check_texts name singular i [] = ok []
check_texts name singular i (value ∷ values) = do
  s ← require (as_text value) (
      policy_error Code.type_error (at_index (fmt ("input." ∷ name ∷ [])) i)
        (fmt (singular ∷ " must be a string" ∷ [])))
  rest ← check_texts name singular (i + 1) values
  ok (s ∷ rest)

abbrev text_of : Value → String
text_of (text s) = s
text_of _ = ""

abbrev no_duplicate_trigger : String → String → Option (ℕ × Value) → Policy (Unit {0})
no_duplicate_trigger name singular none = ok tt
no_duplicate_trigger name singular (some (i, value)) =
    fail Code.duplicate_set_member (at_index (fmt ("input." ∷ name ∷ [])) i)
      (fmt ("duplicate " ∷ singular ∷ " " ∷ text_of value ∷ []))

-- One of the two trigger lists; `singular` is the name without its last letter.
unfoldable pub check_trigger_list : Dict → String → String → Policy (List String)
unfolding check_texts
check_trigger_list input name singular = do
  values ← require (as_list (get input name)) (
      policy_error Code.type_error (fmt ("input." ∷ name ∷ []))
        (fmt (name ∷ " must be a list" ∷ [])))
  triggers ← check_texts name singular 0 values
  duplicate ← duplicate_item values
  no_duplicate_trigger name singular duplicate
  ok triggers

-- One entry of `task_attributes`, against the vocabulary of the routing policy.
unfoldable pub check_task_attribute : Value → String × Value → Policy (String × String)
check_task_attribute vocabulary (key, value) = do
  s ← require (as_text value) (
      policy_error Code.type_error (fmt ("input.task_attributes." ∷ key ∷ []))
        "task attribute keys and values must be strings")
  declared ← py_in (text key) vocabulary
  fail_if (not declared) Code.unknown_attribute (fmt ("input.task_attributes." ∷ key ∷ []))
      (fmt ("unknown task attribute " ∷ key ∷ []))
  attributes ← require (as_dict vocabulary) python_type_error
  attribute ← require (as_dict (get attributes key)) attribute_error
  allowed ← py_in value (get_or attribute "allowed_values" (seq_of []))
  fail_if (not allowed) Code.unknown_attribute_value (fmt ("input.task_attributes." ∷ key ∷ []))
      (fmt ("unknown value " ∷ s ∷ " for task attribute " ∷ key ∷ []))
  ok (key, s)

check_task_attributes_from : Value → Dict → Policy (List (String × String))
unfolding check_task_attribute
check_task_attributes_from vocabulary [] = ok []
check_task_attributes_from vocabulary (entry ∷ entries) = do
  attribute ← check_task_attribute vocabulary entry
  rest ← check_task_attributes_from vocabulary entries
  ok (attribute ∷ rest)

unfoldable pub validate_task_attributes : Value → Dict → Policy (List (String × String))
unfolding check_task_attributes_from
validate_task_attributes attributes routing_features = do
  entries ←
      require (as_dict attributes)
        (policy_error Code.type_error "input.task_attributes" "task_attributes must be a mapping")
  check_task_attributes_from (get_or routing_features "task_attributes" (dict_of [])) entries

-- `project_profile_id`: null, or the id of a registered profile.
unfoldable pub check_profile_id : Value → Registry → Policy (Option String)
check_profile_id null registry = ok none
check_profile_id (text profile_id) registry = do
  fail_if (not (has profile_id registry)) Code.unknown_id "input.project_profile_id"
      (fmt ("unknown project_profile_id " ∷ profile_id ∷ []))
  ok (some profile_id)
check_profile_id _ registry =
    fail Code.type_error "input.project_profile_id" "project_profile_id must be a string or null"

unfoldable pub prevalidate_input : Environment → Value → Bundle → Policy Input
unfolding normalize_input check_trigger_list validate_task_attributes check_profile_id
prevalidate_input env value bundle = do
  input ← normalize_input env value
  for_each (keys input) λ name.
      fail_if (not (mem name input_fields)) Code.unknown_field (fmt ("input." ∷ name ∷ []))
        (fmt ("unknown PolicyEvaluationInput field " ∷ name ∷ []))
  for_each env.input_field_order λ name.
      fail_if (not (has name input)) Code.type_error (fmt ("input." ∷ name ∷ []))
        (fmt (name ∷ " is required" ∷ []))
  current_state ←
      require (as_text (get input "current_state"))
        (policy_error Code.type_error "input.current_state" "current_state must be a string")
  states ← iterate (get_or bundle.workflow "task_states" (seq_of []))
  fail_if (not (mem_value (text current_state) states)) Code.unknown_id "input.current_state"
      (fmt ("unknown current_state " ∷ current_state ∷ []))
  risk_triggers ← check_trigger_list input "risk_triggers" "risk_trigger"
  human_triggers ← check_trigger_list input "human_triggers" "human_trigger"
  task_attributes ← validate_task_attributes (get input "task_attributes") bundle.routing_features
  for_enumerate 0 human_triggers λ i trigger. do
    declared ← py_in (text trigger) (get_or bundle.human "triggers" (dict_of []))
    fail_if (not declared) Code.unknown_id (at_index "input.human_triggers" i)
        (fmt ("unknown human trigger " ∷ trigger ∷ []))
  project_profile_id ← check_profile_id (get input "project_profile_id") bundle.project_profiles
  ok (record {
    current_state = current_state;
    risk_triggers = risk_triggers;
    human_triggers = human_triggers;
    task_attributes = task_attributes;
    project_profile_id = project_profile_id;
  })
