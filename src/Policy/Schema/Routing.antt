-- ===== src/Policy/Schema/Routing.antt =====
-- `_validate_routing_features_policy`: config/policy_routing_features.yaml.
use acgps_public.Prelude.{String, Bool, false, not, ◌&&◌, List, [], ◌∷◌, ◌==◌, mem}
use acgps_public.Py.Result.{ok, ◌>>=◌, ◌>>◌, require, for_each}
use acgps_public.Py.Text.{fmt}
use acgps_public.Py.Value.{Value, text, Dict, lookup, get, py_eq, as_dict, is_bool, get_or, dict_of}
use acgps_public.Policy.Error.{Code, Policy, policy_error, fail_if}
use acgps_public.Policy.Vocabulary.{
  routing_path, risk_levels, skill_ids, model_role_ids, model_actors,
}
use acgps_public.Policy.Fields.{
  require_string_list, require_mapping, require_exact_fields, require_policy_id,
  require_known_feature_list, optional_field, optional_features,
}

abbrev under : List String → String
under rest = fmt (routing_path ∷ ":" ∷ rest)

abbrev attribute_path : String → List String → String
attribute_path attribute rest = under ("task_attributes." ∷ attribute ∷ rest)

-- One value of `maps_to_features` with its features.
unfoldable pub check_value_features : String → List String → String × Value → Policy (Unit {0})
check_value_features attribute allowed_values (value, features) = do
  fail_if (not (mem value allowed_values)) Code.unknown_attribute_value
      (attribute_path attribute (".maps_to_features." ∷ value ∷ [])) "unknown task attribute value"
  require_known_feature_list features (attribute_path attribute (".maps_to_features." ∷ value ∷ []))
  ok tt

-- One entry of `task_attributes`.
unfoldable pub check_attribute : String × Value → Policy (Unit {0})
unfolding check_value_features
check_attribute (attribute, config_value) = do
  config ← require (as_dict config_value) (
      policy_error Code.type_error (attribute_path attribute [])
        "task attribute config must be a mapping")
  require_exact_fields config ("allowed_values" ∷ "maps_to_features" ∷ [])
      (attribute_path attribute []) []
  allowed_values ←
      require_string_list (get config "allowed_values")
        (attribute_path attribute (".allowed_values" ∷ []))
  maps_to_features ← require (as_dict (get_or config "maps_to_features" (dict_of []))) (
      policy_error Code.type_error (attribute_path attribute (".maps_to_features" ∷ []))
        "maps_to_features must be a mapping")
  for_each maps_to_features (check_value_features attribute allowed_values)

-- One entry of `risk_conditions`.
unfoldable pub check_risk_condition : String × Value → Policy (Unit {0})
check_risk_condition (level, features) = do
  fail_if (not (mem level risk_levels)) Code.unknown_id (under ("risk_conditions." ∷ level ∷ []))
      "unknown risk level"
  require_known_feature_list features (under ("risk_conditions." ∷ level ∷ []))
  ok tt

-- One entry of `skill_rule_features`.
unfoldable pub check_feature_rule : String × Value → Policy (Unit {0})
check_feature_rule (skill_id, rule_value) = do
  fail_if (not (mem skill_id skill_ids)) Code.unknown_id
      (under ("skill_rule_features." ∷ skill_id ∷ [])) "unknown policy skill id"
  rule ← require (as_dict rule_value) (
      policy_error Code.type_error (under ("skill_rule_features." ∷ skill_id ∷ []))
        "skill rule must be a mapping")
  require_exact_fields rule ("always" ∷ "when_any" ∷ [])
      (under ("skill_rule_features." ∷ skill_id ∷ [])) ("always" ∷ "when_any" ∷ [])
  optional_field (lookup "always" rule) (λ v.
      fail_if (not (is_bool v)) Code.type_error
        (under ("skill_rule_features." ∷ skill_id ∷ ".always" ∷ [])) "always must be a boolean")
  optional_features rule "when_any" (under ("skill_rule_features." ∷ skill_id ∷ []))

-- `role_id not in POLICY_MODEL_ROLE_IDS`; the vocabulary is a tuple, so nothing is hashed.
abbrev known_role : Value → Bool
known_role (text role_id) = mem role_id model_role_ids
known_role _ = false

-- One selector of an actor's rule with its model role.
unfoldable pub check_selector : String → String × Value → Policy (Unit {0})
check_selector actor (selector, role_id) = do
  fail_if (not (selector == "always") && not (mem selector risk_levels)) Code.unknown_id
      (under ("model_role_rules." ∷ actor ∷ "." ∷ selector ∷ [])) "unknown model role selector"
  fail_if (not (known_role role_id)) Code.unknown_id
      (under ("model_role_rules." ∷ actor ∷ "." ∷ selector ∷ [])) "unknown model role"

-- One entry of `model_role_rules`.
unfoldable pub check_actor_rule : String × Value → Policy (Unit {0})
unfolding check_selector
check_actor_rule (actor, rule_value) = do
  fail_if (not (mem actor model_actors)) Code.unknown_id (under ("model_role_rules." ∷ actor ∷ []))
      "unknown model actor"
  rule ← require (as_dict rule_value) (
      policy_error Code.type_error (under ("model_role_rules." ∷ actor ∷ []))
        "model role rule must be a mapping")
  for_each rule (check_selector actor)

unfoldable pub validate_routing_features_policy : Dict → Policy (Unit {0})
unfolding check_attribute check_risk_condition check_feature_rule check_actor_rule
validate_routing_features_policy routing = do
  require_exact_fields routing
      ("schema_version" ∷ "policy_id" ∷ "task_attributes" ∷ "risk_conditions"
        ∷ "skill_rule_features" ∷ "model_role_rules" ∷ "canonical_order" ∷ [])
      routing_path []
  require_policy_id routing routing_path
  attributes ← require (as_dict (get routing "task_attributes")) (
      policy_error Code.type_error (under ("task_attributes" ∷ []))
        "task attributes must be a mapping")
  for_each attributes check_attribute
  conditions ← require_mapping (get routing "risk_conditions") (under ("risk_conditions" ∷ []))
  for_each conditions check_risk_condition
  rules ← require_mapping (get routing "skill_rule_features") (under ("skill_rule_features" ∷ []))
  for_each rules check_feature_rule
  roles ← require_mapping (get routing "model_role_rules") (under ("model_role_rules" ∷ []))
  for_each roles check_actor_rule
  canonical ← require_mapping (get routing "canonical_order") (under ("canonical_order" ∷ []))
  require_exact_fields canonical ("set_like_inputs" ∷ "order_source" ∷ [])
      (under ("canonical_order" ∷ [])) []
  inputs ←
      require_string_list (get canonical "set_like_inputs")
        (under ("canonical_order.set_like_inputs" ∷ []))
  for_each inputs λ name.
      fail_if (not (mem name ("risk_triggers" ∷ "human_triggers" ∷ []))) Code.unknown_id
        (under ("canonical_order.set_like_inputs" ∷ [])) "unknown canonical input field"
  fail_if (not (py_eq (get canonical "order_source") (text "policy_declaration_order")))
      Code.unknown_id (under ("canonical_order.order_source" ∷ [])) "unknown canonical order source"
