-- ===== src/Policy/Schema/Skills.antt =====
-- `_validate_skill_policy` and `_validate_primary_routes`: config/skill_routing.yaml.
use acgps_public.Prelude.{ℕ, String, not, ◌&&◌, Option, none, some, List, [], ◌∷◌, mem}
use acgps_public.Py.Result.{ok, ◌>>=◌, ◌>>◌, require, for_each}
use acgps_public.Py.Text.{fmt, show}
use acgps_public.Py.Value.{
  Value, seq, dict, Dict, lookup, get, as_dict, as_text, items, pairs, is_bool, get_or, dict_of,
}
use acgps_public.Policy.Error.{Code, Policy, policy_error, attribute_error, fail, fail_if}
use acgps_public.Policy.Vocabulary.{skills_path, skill_ids}
use acgps_public.Policy.Fields.{
  require_mapping, require_exact_fields, require_policy_id, duplicate_item, optional_field,
  optional_features,
}

abbrev under : String → List String → String
under path rest = fmt (path ∷ ":" ∷ rest)

-- `[item.get("route_id") for item in routes if isinstance(item, dict)]`
route_ids : List Value → List Value
route_ids [] = []
route_ids (dict fs ∷ vs) = get (pairs fs) "route_id" ∷ route_ids vs
route_ids (_ ∷ vs) = route_ids vs

abbrev no_duplicate_route : String → Option (ℕ × Value) → Policy (Unit {0})
no_duplicate_route path none = ok tt
no_duplicate_route path (some (i, v)) =
    fail Code.duplicate_discovery_route
      (under path ("primary_discovery.routes[" ∷ show i ∷ "].route_id" ∷ []))
      "duplicate primary discovery route detected"

unfoldable pub check_routes : Value → String → Policy (Unit {0})
unfolding route_ids
check_routes (dict fs) path = ok tt
check_routes (seq vs) path = do
  duplicate ← duplicate_item (route_ids (items vs))
  no_duplicate_route path duplicate
check_routes _ path =
    fail Code.type_error (under path ("primary_discovery.routes" ∷ []))
      "primary discovery routes must be a mapping or list"

-- `skills.get("primary_discovery", {}).get("routes", {})`, then the checks on it.
unfoldable pub validate_primary_routes : Dict → String → Policy (Unit {0})
unfolding check_routes
validate_primary_routes skills path = do
  primary ← require (as_dict (get_or skills "primary_discovery" (dict_of []))) attribute_error
  check_routes (get_or primary "routes" (dict_of [])) path

-- One entry of `primary_discovery.routes`.
unfoldable pub check_route : String × Value → Policy (Unit {0})
check_route (route, target_value) = do
  target ← require (as_text target_value) (
      policy_error Code.type_error (under skills_path ("primary_discovery.routes" ∷ []))
        "routes must map strings to strings")
  fail_if
      (not (mem target skill_ids)
        && not (mem target ("grill_with_docs" ∷ "concise_spec" ∷ "superpowers_brainstorming" ∷ [])))
      Code.unknown_id (under skills_path ("primary_discovery.routes." ∷ route ∷ []))
      "unknown primary discovery target"

abbrev skill_path : String → List String → String
skill_path skill_id rest = under skills_path ("skills." ∷ skill_id ∷ rest)

-- One entry of `skills`.
unfoldable pub check_skill_rule : String × Value → Policy (Unit {0})
check_skill_rule (skill_id, rule_value) = do
  fail_if
      (not (mem skill_id skill_ids)
        && not (
            mem skill_id (
              "superpowers_tdd" ∷ "superpowers_systematic_debugging" ∷ "superpowers_git_worktrees"
              ∷ "superpowers_subagent_driven" ∷ "browser_qa" ∷ [])))
      Code.unknown_id (skill_path skill_id []) "unknown policy skill id"
  rule ←
      require (as_dict rule_value)
        (policy_error Code.type_error (skill_path skill_id []) "skill rule must be a mapping")
  require_exact_fields rule ("always" ∷ "when_any" ∷ "when_all" ∷ []) (skill_path skill_id [])
      ("always" ∷ "when_any" ∷ "when_all" ∷ [])
  optional_field (lookup "always" rule) (λ v.
      fail_if (not (is_bool v)) Code.type_error (skill_path skill_id (".always" ∷ []))
        "always must be a boolean")
  optional_features rule "when_any" (skill_path skill_id [])
  optional_features rule "when_all" (skill_path skill_id [])

-- A list of routes is checked for duplicates first, and refused all the same.
unfoldable pub discovery_routes : Dict → Value → Policy Dict
unfolding validate_primary_routes
discovery_routes skills (seq vs) = do
  validate_primary_routes skills skills_path
  fail Code.type_error (under skills_path ("primary_discovery.routes" ∷ [])) "expected mapping"
discovery_routes skills routes =
    require_mapping routes (under skills_path ("primary_discovery.routes" ∷ []))

unfoldable pub validate_skill_policy : Dict → Policy (Unit {0})
unfolding discovery_routes check_route check_skill_rule
validate_skill_policy skills = do
  require_exact_fields skills
      ("schema_version" ∷ "policy_id" ∷ "primary_discovery" ∷ "skills" ∷ "exception_requires_record"
        ∷ [])
      skills_path []
  require_policy_id skills skills_path
  primary ←
      require_mapping (get skills "primary_discovery")
        (under skills_path ("primary_discovery" ∷ []))
  require_exact_fields primary ("exclusive" ∷ "routes" ∷ [])
      (under skills_path ("primary_discovery" ∷ [])) []
  fail_if (not (is_bool (get primary "exclusive"))) Code.type_error
      (under skills_path ("primary_discovery.exclusive" ∷ [])) "exclusive must be a boolean"
  routes ← discovery_routes skills (get primary "routes")
  for_each routes check_route
  skill_rules ← require_mapping (get skills "skills") (under skills_path ("skills" ∷ []))
  for_each skill_rules check_skill_rule
  fail_if (not (is_bool (get skills "exception_requires_record"))) Code.type_error
      (under skills_path ("exception_requires_record" ∷ []))
      "exception_requires_record must be a boolean"
