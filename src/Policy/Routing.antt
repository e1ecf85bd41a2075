-- ===== src/Policy/Routing.antt =====
-- The routing of acgps/policy.py: features, skills, model roles, and the two canonical orders. The
-- bundle is one that `load_policy_bundle` returns, so its entries have the shapes that
-- `_validate_policy_schemas` has checked; on another shape the model raises `AttributeError`.
pub mod Provenance
use acgps_public.Prelude.{
  String, Bool, true, false, ◌||◌, Option, none, some, List, [], ◌∷◌, ◌++◌, if◌then◌else◌, mem, any,
}
use acgps_public.Py.Result.{ok, ◌>>=◌, require}
use acgps_public.Py.Text.{keep}
use acgps_public.Py.Value.{
  Value, bool, Dict, lookup, get, as_dict, as_list, as_text, get_or, dict_of, seq_of,
}
use acgps_public.Policy.Error.{Policy, python_type_error, attribute_error}

-- `d.get(key, {})`
abbrev pub mapping_at : Dict → String → Policy Dict
mapping_at doc key = require (as_dict (get_or doc key (dict_of []))) attribute_error

unfoldable pub all_texts : List Value → Policy (List String)
all_texts [] = ok []
all_texts (v ∷ vs) = do s ← require (as_text v) attribute_error; rest ← all_texts vs; ok (s ∷ rest)

-- `list(d.get(key, []))`, of texts.
unfoldable pub texts_at : Dict → String → Policy (List String)
unfolding all_texts
texts_at doc key = do
  vs ← require (as_list (get_or doc key (seq_of []))) attribute_error
  all_texts vs

-- The features that one task attribute maps to.
unfoldable pub attribute_features : Dict → String × String → Policy (List String)
unfolding texts_at
attribute_features vocabulary (key, value) = do
  attribute ← mapping_at vocabulary key
  by_value ← mapping_at attribute "maps_to_features"
  texts_at by_value value

features_from : Dict → List (String × String) → Policy (List String)
unfolding attribute_features
features_from vocabulary [] = ok []
features_from vocabulary (entry ∷ entries) = do
  features ← attribute_features vocabulary entry
  rest ← features_from vocabulary entries
  ok (features ++ rest)

-- The set of features as a list: it is only asked for its members.
unfoldable pub derive_routing_features :
    List (String × String) → Value → Dict → Policy (List String)
unfolding features_from
derive_routing_features attributes risk_level routing_features = do
  level ← require (as_text risk_level) python_type_error
  conditions ← mapping_at routing_features "risk_conditions"
  by_level ← texts_at conditions level
  vocabulary ← mapping_at routing_features "task_attributes"
  by_attribute ← features_from vocabulary attributes
  ok (by_level ++ by_attribute)

-- `rule.get("always") is True`
abbrev pub is_true : Value → Bool
is_true (bool true) = true
is_true _ = false

-- Does this rule require its skill?
unfoldable pub rule_applies : List String → Value → Policy Bool
unfolding texts_at
rule_applies features rule_value = do
  rule ← require (as_dict rule_value) attribute_error
  when_any ← elim (is_true (get rule "always")) [ true ↦ ok [] | false ↦ texts_at rule "when_any" ]
  ok (is_true (get rule "always") || any (λ feature. mem feature features) when_any)

-- The loop of `_derive_required_skills` over the rules.
unfoldable pub skills_from : List String → Dict → Policy (List String)
unfolding rule_applies
skills_from features [] = ok []
skills_from features ((skill_id, rule) ∷ rules) = do
  applies ← rule_applies features rule
  rest ← skills_from features rules
  ok (if applies then skill_id ∷ rest else rest)

unfoldable pub derive_required_skills : List String → Dict → Policy (List String)
unfolding skills_from
derive_required_skills features routing_features = do
  rules ← mapping_at routing_features "skill_rule_features"
  skills_from features rules

-- The role that a rule selects at a risk level, if it selects one.
unfoldable pub selected_role : String → Dict → Option Value
unfolding lookup
selected_role level rule = elim (lookup "always" rule) [
  | some role ↦ some role
  | none ↦ lookup level rule
]

abbrev add_role : String → Option String → List (String × String) → List (String × String)
add_role actor none roles = roles
add_role actor (some role) roles = (actor, role) ∷ roles

abbrev role_text : Option Value → Policy (Option String)
role_text none = ok none
role_text (some v) = require (as_text v) attribute_error >>= λ s. ok (some s)

unfoldable pub roles_from : String → Dict → Policy (List (String × String))
unfolding selected_role
roles_from level [] = ok []
roles_from level ((actor, rule_value) ∷ rules) = do
  rule ← require (as_dict rule_value) attribute_error
  role ← role_text (selected_role level rule)
  rest ← roles_from level rules
  ok (add_role actor role rest)

unfoldable pub derive_model_roles : Value → Dict → Policy (List (String × String))
unfolding roles_from
derive_model_roles risk_level routing_features = do
  level ← require (as_text risk_level) python_type_error
  rules ← mapping_at routing_features "model_role_rules"
  roles_from level rules

-- `[item for item in declaration_order if item in present]`
unfoldable pub canonical_order : List String → List String → List String
canonical_order values declaration_order = keep (λ item. mem item values) declaration_order

-- The loop of `_canonical_provenance`, with the values seen so far.
unfoldable pub provenance_from : List String → List String → List String
provenance_from seen [] = []
provenance_from seen (value ∷ values) = elim (mem value seen) [
  | true ↦ provenance_from seen values
  | false ↦ value ∷ provenance_from (value ∷ seen) values
]

unfoldable pub canonical_provenance : List String → List String
unfolding provenance_from
canonical_provenance values = provenance_from [] values
