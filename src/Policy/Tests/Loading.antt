-- ===== src/Policy/Tests/Loading.antt =====
-- The theorem on loaded bundles at small policy files.
use acgps_public.Prelude.{◌≡◌, refl, String, true, false, [], ◌∷◌, mem}
use acgps_public.Py.Result.{ok, for_each, for_enumerate}
use acgps_public.Py.Text.{fmt, show, split_on, has_char, keep, least}
use acgps_public.Py.Value.{
  pos, Value, text, int, bool, Dict, lookup, has, get, get_or, keys, py_eq, dict_of, seq_of, pairs,
  items,
}
use acgps_public.Policy.Vocabulary.{risk_order, task_states}
use acgps_public.Policy.Fields.{
  mem_value, duplicate_item, require_string_list, require_exact_fields, require_policy_id,
  require_mapping, py_in, iterate,
}
use acgps_public.Policy.Schema.{
  Policies, check_versions, validate_each_policy, validate_policy_schemas,
  validate_cross_file_references,
}
use acgps_public.Policy.Schema.Workflow.{check_transition_row, validate_workflow_policy}
use acgps_public.Policy.Schema.Risk.{
  check_level, check_trigger, check_rules, validate_risk_rule_conflicts, validate_risk_policy,
}
use acgps_public.Policy.Schema.Human.{validate_human_policy}
use acgps_public.Policy.Schema.Skills.{validate_primary_routes, validate_skill_policy}
use acgps_public.Policy.Schema.Models.{validate_model_policy}
use acgps_public.Policy.Schema.Routing.{validate_routing_features_policy}
use acgps_public.Policy.Profile.{
  is_safe_relative_path, check_profile_field, check_entries, known_rank, check_downgrade,
  check_override, check_required_file, validate_project_profile, load_project_profiles,
}
use acgps_public.Policy.Input.{Bundle, Input}
use acgps_public.Policy.Evaluate.{PolicyResult, evaluate_normalized}
use acgps_public.Policy.Load.{load_policy_bundle, KeepRisk, loaded_bundle_sound}
use acgps_public.Policy.Tests.Files.{workflow, profile}

abbrev head : String → Dict → Dict
head policy_id fields = ("schema_version", int (pos 1)) ∷ ("policy_id", text policy_id) ∷ fields

abbrev level : Value
level =
    dict_of (("description", text "a level") ∷ ("required_gates", seq_of (text "spec" ∷ [])) ∷ [])

abbrev policies : Policies
policies = record {
  workflow = workflow;
  risk = head "global-risk-v1" (
      ("default_level", text "R0")
      ∷ ("unknown_trigger_behavior", text "fail_closed")
      ∷ ("levels", dict_of (("R0", level) ∷ ("R1", level) ∷ ("R2", level) ∷ ("R3", level) ∷ []))
      ∷ ("triggers", dict_of (("public_api", text "R2") ∷ []))
      ∷ ("highest_applicable_level_wins", bool true)
      ∷ ("project_profile_may_lower_risk", bool false)
      ∷ []);
  human = head "human-decision-v1" (
      ("default_without_response", text "PAUSE")
      ∷ ("triggers", dict_of [])
      ∷ ("do_not_escalate", seq_of [])
      ∷ []);
  skills = head "skill-routing-v1" (
      ("primary_discovery", dict_of (("exclusive", bool true) ∷ ("routes", dict_of []) ∷ []))
      ∷ ("skills", dict_of [])
      ∷ ("exception_requires_record", bool true)
      ∷ []);
  models = head "model-routing-v1" (("roles", dict_of []) ∷ ("escalate_when", seq_of []) ∷ []);
  routing_features = head "policy-routing-features-v1" (
      ("task_attributes", dict_of [])
      ∷ ("risk_conditions", dict_of [])
      ∷ ("skill_rule_features", dict_of [])
      ∷ ("model_role_rules", dict_of [])
      ∷ (
        "canonical_order",
        dict_of (
            ("set_like_inputs", seq_of [])
            ∷ ("order_source", text "policy_declaration_order")
            ∷ []),
      )
      ∷ []);
}

abbrev bundle : Bundle
bundle = record {
  policies = policies;
  project_profiles = ("p", record { source_path = "p.yaml"; profile = profile }) ∷ [];
  policy_bundle_digest = "digest";
}

load_run :
    load_policy_bundle (λ p. []) (λ p r. "digest") (ok policies) (("p.yaml", ok profile) ∷ [])
    ≡ ok bundle
unfolding load_policy_bundle validate_policy_schemas check_versions validate_each_policy
    validate_cross_file_references validate_workflow_policy check_transition_row
    validate_risk_policy check_level check_trigger check_rules validate_risk_rule_conflicts
    validate_human_policy validate_skill_policy validate_primary_routes validate_model_policy
    validate_routing_features_policy load_project_profiles validate_project_profile
    check_profile_field check_entries check_override known_rank risk_order check_downgrade
    check_required_file is_safe_relative_path require_exact_fields require_policy_id
    require_string_list require_mapping duplicate_item mem_value py_in iterate for_each
    for_enumerate least keep keys mem has lookup get get_or py_eq pairs items split_on has_char fmt
    show
load_run = refl

loaded_bundle_sound_example :
    KeepRisk bundle.risk bundle.project_profiles
    × ((input : Input) (r : PolicyResult) (s : String)
        → evaluate_normalized input bundle ≡ ok r
        → mem s r.legal_transitions ≡ true
        → mem s task_states ≡ true)
loaded_bundle_sound_example =
    loaded_bundle_sound (λ p. []) (λ p r. "digest") (ok policies) (("p.yaml", ok profile) ∷ [])
      load_run
