-- ===== src/Policy/Schema.antt =====
-- `_validate_policy_schemas` and `_validate_cross_file_references` of acgps/policy.py, over one
-- module for each policy file.
pub mod Workflow
pub mod Risk
pub mod Human
pub mod Skills
pub mod Models
pub mod Routing
use acgps_public.Prelude.{
  ℕ, ◌+◌, String, Bool, true, false, not, ◌&&◌, ◌||◌, Option, none, some, List, [], ◌∷◌, ◌++◌, ◌==◌,
  nat_eq, ltb, if◌then◌else◌, mem, any,
}
use acgps_public.Py.Result.{Py, ok, raise, ◌>>=◌, ◌>>◌, require, for_each, for_enumerate}
use acgps_public.Py.Text.{fmt, show, least, keep, sorted, split_on, has_char}
use acgps_public.Py.Value.{
  ℤ, pos, negsuc, int_eq, Value, null, bool, int, text, seq, dict, Dict, lookup, has, get, keys,
  py_eq, is_hashable, as_dict, as_list, as_text, as_nonempty_text, items, pairs, is_bool, is_null,
  is_dict, is_int, is_text, is_list, get_or, dict_of, seq_of,
}
use acgps_public.Policy.Error.{
  Code, Exn, Policy, policy_error, python_type_error, attribute_error, key_error, fail, fail_if,
}
use acgps_public.Policy.Vocabulary.{
  workflow_path, risk_path, human_path, skills_path, models_path, routing_path, task_states,
  risk_levels, gate_ids, human_decision_triggers, skill_ids, model_role_ids, model_actors,
  risk_order, rank,
}
use acgps_public.Policy.Fields.{
  at_index, require_string_list, require_mapping, fail_at_least, require_exact_fields,
  require_policy_id, require_known_feature_list, iterate, py_in, duplicate_item, mem_value,
  optional_field, optional_features,
}
use Workflow.{validate_workflow_policy}
use Risk.{validate_risk_policy}
use Human.{validate_human_policy}
use Skills.{validate_skill_policy, validate_primary_routes}
use Models.{validate_model_policy}
use Routing.{validate_routing_features_policy}

-- The parsed policy files, by their keys in POLICY_FILES.
pub record Policies : Type 0 where
  pub workflow : Dict
  pub risk : Dict
  pub human : Dict
  pub skills : Dict
  pub models : Dict
  pub routing_features : Dict

check_version : String → Dict → Policy (Unit {0})
check_version path doc =
    fail_if (not (py_eq (get doc "schema_version") (int (pos 1)))) Code.unsupported_version
      (fmt (path ∷ ":schema_version" ∷ [])) "unsupported policy schema version"

unfoldable pub check_versions : Policies → Policy (Unit {0})
unfolding check_version
check_versions p = do
  check_version workflow_path p.workflow
  check_version risk_path p.risk
  check_version human_path p.human
  check_version skills_path p.skills
  check_version models_path p.models
  check_version routing_path p.routing_features

-- The calls at the end of `_validate_policy_schemas`.
unfoldable pub validate_each_policy : Policies → Policy (Unit {0})
validate_each_policy p = do
  validate_workflow_policy p.workflow
  validate_risk_policy p.risk
  validate_human_policy p.human
  validate_skill_policy p.skills
  validate_model_policy p.models
  validate_routing_features_policy p.routing_features

unfoldable pub validate_policy_schemas : Policies → Policy (Unit {0})
validate_policy_schemas p = do
  check_versions p
  declared ← py_in (get p.risk "default_level") (get_or p.risk "levels" (dict_of []))
  fail_if (not declared) Code.unknown_id (fmt (risk_path ∷ ":default_level" ∷ []))
      "default risk level is undeclared"
  fail_if (not (py_eq (get p.risk "unknown_trigger_behavior") (text "fail_closed"))) Code.conflict
      (fmt (risk_path ∷ ":unknown_trigger_behavior" ∷ []))
      "unknown trigger behavior must be fail_closed"
  validate_each_policy p

-- `str(value)` of a value that has a hash; the code asks for no other.
abbrev display : Value → String
display null = "None"
display (bool true) = "True"
display (bool false) = "False"
display (int (pos n)) = show n
display (int (negsuc n)) = fmt ("-" ∷ show (n + 1) ∷ [])
display (text s) = s
display _ = ""

-- `role_id not in models`, for the role of each selector.
unfoldable pub check_role_declared : Value → String → String × Value → Policy (Unit {0})
check_role_declared models actor (selector, role_id) = do
  declared ← py_in role_id models
  fail_if (not declared) Code.unknown_id (fmt (routing_path ∷ ":model_role_rules." ∷ actor ∷ []))
      (fmt ("unknown model role " ∷ display role_id ∷ []))

unfoldable pub check_actor_roles : Value → String × Value → Policy (Unit {0})
unfolding check_role_declared
check_actor_roles models (actor, rule_value) = do
  rule ← require (as_dict rule_value) (
      policy_error Code.type_error (fmt (routing_path ∷ ":model_role_rules." ∷ actor ∷ []))
        "model role rule must be a mapping")
  for_each rule (check_role_declared models actor)

unfoldable pub validate_cross_file_references : Policies → Policy (Unit {0})
unfolding check_actor_roles
validate_cross_file_references p = do
  let skills = get_or p.skills "skills" (dict_of [])
  let models = get_or p.models "roles" (dict_of [])
  fail_if (not (is_dict skills) || not (is_dict models)) Code.type_error skills_path
      "skill and model policies must be mappings"
  validate_primary_routes p.skills skills_path
  rule_ids ← iterate (get_or p.routing_features "skill_rule_features" (dict_of []))
  for_each rule_ids λ skill_id. do
    declared ← py_in skill_id skills
    fail_if (not declared) Code.unknown_id
        (fmt (routing_path ∷ ":skill_rule_features." ∷ display skill_id ∷ []))
        (fmt ("unknown skill rule " ∷ display skill_id ∷ []))
  actor_rules ←
      require (as_dict (get_or p.routing_features "model_role_rules" (dict_of []))) attribute_error
  for_each actor_rules (check_actor_roles models)
