-- ===== src/Policy/Vocabulary.antt =====
-- The identifiers that acgps/policy.py and acgps/contracts.py declare.
use acgps_public.Prelude.{ℕ, String, List, [], ◌∷◌, Option, none, some, ◌==◌, if◌then◌else◌}
use acgps_public.Py.Result.{ok, raise}
use acgps_public.Py.Value.{Value, text, seq, dict}
use acgps_public.Policy.Error.{Policy, key_error, python_type_error}

abbrev pub workflow_path : String
workflow_path = "config/workflow_policy.yaml"

abbrev pub risk_path : String
risk_path = "config/risk_policy.yaml"

abbrev pub human_path : String
human_path = "config/human_decision_policy.yaml"

abbrev pub skills_path : String
skills_path = "config/skill_routing.yaml"

abbrev pub models_path : String
models_path = "config/model_routing.yaml"

abbrev pub routing_path : String
routing_path = "config/policy_routing_features.yaml"

-- POLICY_IDS
abbrev pub policy_ids : List (String × String)
policy_ids =
    (workflow_path, "global-workflow-v1")
    ∷ (risk_path, "global-risk-v1")
    ∷ (human_path, "human-decision-v1")
    ∷ (skills_path, "skill-routing-v1")
    ∷ (models_path, "model-routing-v1")
    ∷ (routing_path, "policy-routing-features-v1")
    ∷ []

-- POLICY_ROUTING_FEATURE_IDS
abbrev pub routing_feature_ids : List String
routing_feature_ids =
    "approved_plan" ∷ "before_integration" ∷ "behavior_change" ∷ "bug_fix" ∷ "critical_browser_flow"
    ∷ "critical_user_flow" ∷ "design_system_change" ∷ "failing_test" ∷ "formal_feature"
    ∷ "formal_milestone" ∷ "high_fidelity_experience" ∷ "integration" ∷ "isolated_review_work"
    ∷ "multi_file" ∷ "multi_step" ∷ "new_ui" ∷ "parallel_tasks" ∷ "public_contract_change"
    ∷ "rc_candidate" ∷ "regression" ∷ "responsive_layout" ∷ "risk_R2" ∷ "risk_R3"
    ∷ "two_or_more_independent_tasks" ∷ "unclear_runtime_behavior" ∷ "unexpected_failure"
    ∷ "web_ui_change" ∷ []

-- TASK_STATES
abbrev pub task_states : List String
task_states =
    "DRAFT" ∷ "READY_FOR_CLASSIFICATION" ∷ "CLASSIFIED" ∷ "SPEC_READY" ∷ "PLAN_READY"
    ∷ "IMPLEMENTING" ∷ "TASK_REVIEW" ∷ "FIX_REQUIRED" ∷ "INTEGRATING" ∷ "SYSTEM_QA" ∷ "VERIFIED"
    ∷ "RC_READY" ∷ "WAITING_HUMAN" ∷ "BLOCKED" ∷ "CLOSED" ∷ "ABANDONED" ∷ []

-- HUMAN_DECISION_TRIGGERS
abbrev pub human_decision_triggers : List String
human_decision_triggers =
    "H1_PRODUCT_INTENT" ∷ "H2_IRREVERSIBLE_OR_COSTLY" ∷ "H3_RISK_ACCEPTANCE"
    ∷ "H4_NORMATIVE_EXPERIENCE" ∷ "H5_EXTERNAL_ACTION" ∷ []

-- POLICY_SKILL_IDS
abbrev pub skill_ids : List String
skill_ids =
    "superpowers_writing_plans" ∷ "superpowers_requesting_code_review" ∷ "figma_design"
    ∷ "superpowers_verification_before_completion" ∷ []

-- POLICY_MODEL_ROLE_IDS
abbrev pub model_role_ids : List String
model_role_ids = "planner_architect" ∷ "task_reviewer" ∷ "final_reviewer" ∷ "verifier" ∷ []

-- POLICY_MODEL_ACTORS
abbrev pub model_actors : List String
model_actors = "planner" ∷ "reviewer" ∷ "verifier" ∷ []

-- POLICY_GATE_IDS
abbrev pub gate_ids : List String
gate_ids =
    "focused_check" ∷ "lightweight_review" ∷ "spec" ∷ "tests" ∷ "independent_review"
    ∷ "affected_checks" ∷ "architecture" ∷ "plan" ∷ "broad_verification" ∷ "high_capability_review"
    ∷ "rc_evidence" ∷ "human_approval" ∷ "risk_analysis" ∷ "strongest_planner"
    ∷ "strongest_reviewer" ∷ "full_verification" ∷ "rollback_plan" ∷ "human_release" ∷ []

-- The keys of RISK_ORDER.
abbrev pub risk_levels : List String
risk_levels = "R0" ∷ "R1" ∷ "R2" ∷ "R3" ∷ []

-- RISK_ORDER
unfoldable pub risk_order : String → Option ℕ
risk_order level =
    if level == "R0"
    then some 0
    else if level == "R1"
    then some 1
    else if level == "R2"
    then some 2
    else if level == "R3"
    then some 3
    else none

-- `RISK_ORDER[level]`
unfoldable pub rank : Value → Policy ℕ
unfolding risk_order
rank (text level) = elim (risk_order level) [ none ↦ raise key_error | some n ↦ ok n ]
rank (seq vs) = raise python_type_error
rank (dict fs) = raise python_type_error
rank _ = raise key_error
