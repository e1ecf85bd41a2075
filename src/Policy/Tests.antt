-- ===== src/Policy/Tests.antt =====
-- The theorems on the policy evaluator at small policies and records.
mod Files
mod Loading
use acgps_public.Prelude.{
  ◌≡◌, ◌≢◌, ◌↔◌, ◌⊎◌, refl, String, true, false, not, ◌&&◌, ◌||◌, none, some, List, [], ◌∷◌, ◌++◌,
  mem, map, ◌==◌,
}
use acgps_public.Py.Result.{ok, for_each, for_enumerate}
use acgps_public.Py.Text.{fmt, show, split_on, has_char, keep, sorted, insert_sorted, least, to_set}
use acgps_public.Py.Value.{
  pos, Value, Fields, null, bool, int, text, dict, Dict, lookup, has, get, get_or, keys, py_eq,
  dict_of, seq_of, pairs, items,
}
use acgps_public.Policy.Vocabulary.{rank, task_states}
use acgps_public.Policy.Schema.{Policies}
use acgps_public.Policy.Input.{
  Bundle, Environment, Input, input_fields, looks_like_public_input, normalize_input,
  check_trigger_list, validate_task_attributes, check_profile_id, prevalidate_input,
}
use acgps_public.Policy.Fields.{
  mem_value, duplicate_item, require_string_list, fail_at_least, require_exact_fields,
  require_policy_id, py_in, iterate,
}
use acgps_public.Policy.Schema.Workflow.{states_in, check_transition_row, validate_workflow_policy}
use acgps_public.Policy.Evaluate.Legal.{legal_transitions_known}
use acgps_public.Policy.Evaluate.Skills.{Featured, required_skill_iff}
use acgps_public.Policy.Evaluate.Rules.{IsCalledFor}
use acgps_public.Policy.Public.{
  public_input_context, check_gates, validate_policy_result_contract, evaluate_policy,
}
use acgps_public.Policy.Public.Closed.{IsClosed, IsDecision, evaluate_policy-Settled}
use acgps_public.Policy.Routing.{
  mapping_at, texts_at, derive_routing_features, derive_required_skills, derive_model_roles,
  canonical_order, canonical_provenance,
}
use acgps_public.Policy.Climb.{
  profile_record, is_downgrade, candidate_level, trigger_trace, raise_level, climb_trigger, climb,
  check_declared,
}
use acgps_public.Policy.Climb.Highest.{RankLe}
use acgps_public.Policy.Evaluate.{
  PolicyResult, authorize, required_gates, is_gated, declared_triggers, start_climb, assess_risk,
  route_task, full_provenance, decision, evaluate_normalized,
}
use acgps_public.Policy.Evaluate.Levels.{
  IsHighest, evaluate_normalized-IsHighest, profile_never_lowers,
}
use acgps_public.Policy.Evaluate.Gates.{pause_states, critical_trigger_pauses}

abbrev texts : List String → Value
texts ss = seq_of (map (λ s. text s) ss)

abbrev triggers : Dict
triggers = ("ui_ux_change", text "R1") ∷ ("production_write", text "R3") ∷ []

abbrev risk : Dict
risk =
    ("default_level", text "R0")
    ∷ (
      "levels",
      dict_of (
          ("R1", dict_of (("required_gates", texts ("spec" ∷ [])) ∷ []))
          ∷ ("R3", dict_of (("required_gates", texts ("human_approval" ∷ [])) ∷ []))
          ∷ []),
    )
    ∷ ("triggers", dict_of triggers)
    ∷ []

abbrev workflow : Dict
workflow =
    ("schema_version", int (pos 1))
    ∷ ("policy_id", text "global-workflow-v1")
    ∷ ("task_states", texts ("PLAN_READY" ∷ "IMPLEMENTING" ∷ "WAITING_HUMAN" ∷ []))
    ∷ (
      "transitions",
      dict_of (
          ("PLAN_READY", texts ("IMPLEMENTING" ∷ "WAITING_HUMAN" ∷ []))
          ∷ ("IMPLEMENTING", texts ("WAITING_HUMAN" ∷ []))
          ∷ ("WAITING_HUMAN", texts ("PLAN_READY" ∷ []))
          ∷ []),
    )
    ∷ ("mandatory_rules", texts [])
    ∷ []

abbrev routing : Dict
routing =
    ("risk_conditions", dict_of (("R3", texts ("high_risk" ∷ [])) ∷ []))
    ∷ (
      "skill_rule_features",
      dict_of (("codex-security", dict_of (("when_any", texts ("high_risk" ∷ [])) ∷ [])) ∷ []),
    )
    ∷ ("model_role_rules", dict_of (("planner", dict_of (("always", text "strong") ∷ [])) ∷ []))
    ∷ []

abbrev bundle : Bundle
bundle = record {
  policies = record {
    workflow = workflow;
    risk = risk;
    human = [];
    skills = [];
    models = [];
    routing_features = routing;
  };
  project_profiles = [];
  policy_bundle_digest = "";
}

abbrev production : Input
production = record {
  current_state = "PLAN_READY";
  risk_triggers = "ui_ux_change" ∷ "production_write" ∷ [];
  human_triggers = [];
  task_attributes = [];
  project_profile_id = none;
}

abbrev production_result : PolicyResult
production_result = record {
  decision_emitted = true;
  risk_level = text "R3";
  human_gate = true;
  required_human_triggers = [];
  required_skills = "codex-security" ∷ [];
  model_roles = ("planner", "strong") ∷ [];
  mandatory_gates = texts ("human_approval" ∷ []);
  legal_transitions = "IMPLEMENTING" ∷ "WAITING_HUMAN" ∷ [];
  authorized_transitions = "WAITING_HUMAN" ∷ [];
  provenance =
      "config/risk_policy.yaml:triggers.ui_ux_change"
      ∷ "config/risk_policy.yaml:triggers.production_write"
      ∷ "config/skill_routing.yaml:skills.codex-security" ∷ "config/model_routing.yaml:roles.strong"
      ∷ "config/workflow_policy.yaml:transitions.PLAN_READY" ∷ [];
  fail_closed = false;
  error_code = none;
  issues = [];
}

production_run : evaluate_normalized production bundle ≡ ok production_result
unfolding evaluate_normalized assess_risk profile_record check_declared for_enumerate has lookup get
    get_or keys canonical_order declared_triggers keep sorted insert_sorted mem climb climb_trigger
    candidate_level is_downgrade raise_level rank trigger_trace start_climb route_task texts_at
    derive_routing_features derive_required_skills derive_model_roles required_gates full_provenance
    decision is_gated authorize canonical_provenance fmt show py_eq pairs items
production_run = refl

evaluate_normalized-IsHighest_example : IsHighest production bundle (text "R3")
evaluate_normalized-IsHighest_example =
    evaluate_normalized-IsHighest production bundle production_run

declares_triggers : mapping_at risk "triggers" ≡ ok triggers
unfolding get_or lookup pairs items
declares_triggers = refl

ui_change_level : rank (get triggers "ui_ux_change") ≡ ok 1
unfolding get lookup rank
ui_change_level = refl

names_ui_change : mem "ui_ux_change" production.risk_triggers ≡ true
unfolding mem
names_ui_change = refl

names_production : mem "production_write" production.risk_triggers ≡ true
unfolding mem
names_production = refl

production_level : get triggers "production_write" ≡ text "R3"
unfolding get lookup
production_level = refl

may_wait : mem "WAITING_HUMAN" production_result.authorized_transitions ≡ true
unfolding mem
may_wait = refl

profile_never_lowers_example : RankLe (get triggers "ui_ux_change") (text "R3")
profile_never_lowers_example =
    profile_never_lowers production bundle triggers "ui_ux_change" 1 production_run
      declares_triggers names_ui_change ui_change_level

critical_trigger_pauses_example : mem "WAITING_HUMAN" pause_states ≡ true
critical_trigger_pauses_example =
    critical_trigger_pauses production bundle triggers "production_write" "WAITING_HUMAN"
      production_run declares_triggers names_production production_level may_wait

required_skill_iff_example :
    (f : Featured production bundle (text "R3")) × ((skill : String)
      → (mem skill ("codex-security" ∷ []) ≡ true) ↔ IsCalledFor f.features skill f.rules)
required_skill_iff_example = required_skill_iff production bundle production_run

workflow_accepted : validate_workflow_policy workflow ≡ ok tt
unfolding validate_workflow_policy require_exact_fields fail_at_least least keep keys has get lookup
    mem require_policy_id require_string_list duplicate_item mem_value py_eq items states_in
    task_states for_enumerate for_each check_transition_row pairs fmt show
workflow_accepted = refl

is_legal : mem "WAITING_HUMAN" production_result.legal_transitions ≡ true
unfolding mem
is_legal = refl

legal_transitions_known_example : mem "WAITING_HUMAN" task_states ≡ true
legal_transitions_known_example =
    legal_transitions_known production bundle "WAITING_HUMAN" workflow_accepted production_run
      is_legal

abbrev env : Environment
env = record { contract_issues = λ name value. []; input_field_order = input_fields }

abbrev record_value : Value
record_value = dict_of (
    ("current_state", text "PLAN_READY")
    ∷ ("risk_triggers", texts ("ui_ux_change" ∷ "production_write" ∷ []))
    ∷ ("human_triggers", texts [])
    ∷ ("task_attributes", dict_of [])
    ∷ ("project_profile_id", null)
    ∷ [])

is_internal : public_input_context (λ s. true) record_value ≡ none
unfolding public_input_context looks_like_public_input has pairs
is_internal = refl

record_accepted : prevalidate_input env record_value bundle ≡ ok production
unfolding prevalidate_input normalize_input looks_like_public_input has lookup get get_or keys
    for_each for_enumerate mem check_trigger_list duplicate_item mem_value py_eq
    validate_task_attributes check_profile_id iterate pairs items fmt show
record_accepted = refl

result_conforms : validate_policy_result_contract env production_result bundle ≡ ok tt
unfolding validate_policy_result_contract check_gates py_in get_or get lookup has py_eq pairs items
result_conforms = refl

evaluate_policy-Settled_example :
    IsClosed (evaluate_policy env (λ s. true) record_value (ok bundle)).result
    ⊎ IsDecision env record_value
        (ok bundle)
        (evaluate_policy env (λ s. true) record_value (ok bundle)).result
evaluate_policy-Settled_example = evaluate_policy-Settled env (λ s. true) record_value (ok bundle)
