-- ===== src/Policy/Evaluate.antt =====
-- `_evaluate_normalized`, `fail_closed_result` and the result of acgps/policy.py.
pub mod Inversion
pub mod Levels
pub mod Gates
pub mod Rules
pub mod Skills
pub mod Legal
use acgps_public.Prelude.{
  String, Bool, true, false, not, Option, none, some, List, [], ◌∷◌, ◌++◌, if◌then◌else◌, mem,
}
use acgps_public.Py.Result.{ok, ◌>>=◌, ◌>>◌, require}
use acgps_public.Py.Text.{fmt, keep, sorted}
use acgps_public.Py.Value.{Value, text, Dict, has, keys, py_eq, as_text, get_or, seq_of}
use acgps_public.Policy.Error.{Code, Policy, python_type_error}
use acgps_public.Policy.Vocabulary.{workflow_path, risk_path, human_path, skills_path, models_path}
use acgps_public.Prelude.{map}
use acgps_public.Policy.Input.{Bundle, Input}
use acgps_public.Policy.Routing.{
  mapping_at, texts_at, derive_routing_features, derive_required_skills, derive_model_roles,
  canonical_order, canonical_provenance,
}
use acgps_public.Policy.Climb.{
  profile_record, profile_overrides, profile_path, Climb, Sources, climb, check_declared,
}

-- One entry of `issues`.
pub record ResultIssue : Type 0 where
  pub code : Code
  pub path : String
  pub message : String

-- The result mapping. `risk_level` and `mandatory_gates` are what the risk policy declares.
pub record PolicyResult : Type 0 where
  pub decision_emitted : Bool
  pub risk_level : Value
  pub human_gate : Bool
  pub required_human_triggers : List String
  pub required_skills : List String
  pub model_roles : List (String × String)
  pub mandatory_gates : Value
  pub legal_transitions : List String
  pub authorized_transitions : List String
  pub provenance : List String
  pub fail_closed : Bool
  pub error_code : Option Code
  pub issues : List ResultIssue

-- The codes are all registered, so the fallback to POLICY_MALFORMED is never taken.
unfoldable pub fail_closed_result : Code → String → String → PolicyResult
fail_closed_result code path message = record {
  decision_emitted = false;
  risk_level = text "R3";
  human_gate = true;
  required_human_triggers = [];
  required_skills = [];
  model_roles = [];
  mandatory_gates = seq_of [];
  legal_transitions = [];
  authorized_transitions = [];
  provenance = [];
  fail_closed = true;
  error_code = some code;
  issues = record { code = code; path = path; message = message } ∷ [];
}

-- `[state for state in legal if state in {"WAITING_HUMAN", "ABANDONED"}] if human_gate else legal`
unfoldable pub authorize : Bool → List String → List String
authorize human_gate legal =
    if human_gate
    then keep (λ state. mem state ("WAITING_HUMAN" ∷ "ABANDONED" ∷ [])) legal
    else legal

abbrev under : String → List String → List String
under path names = map (λ name. fmt (path ∷ name ∷ [])) names

-- `levels.get(risk_level, {}).get("required_gates", [])`
unfoldable pub required_gates : Dict → Value → Policy Value
required_gates levels risk_level = do
  level ← require (as_text risk_level) python_type_error
  config ← mapping_at levels level
  ok (get_or config "required_gates" (seq_of []))

-- `bool(human_triggers) or risk_level == "R3"`
unfoldable pub is_gated : List String → Value → Bool
is_gated [] risk_level = py_eq risk_level (text "R3")
is_gated (trigger ∷ triggers) risk_level = true

abbrev start_trace : List String → List String
start_trace [] = fmt (risk_path ∷ ":default_level" ∷ []) ∷ []
start_trace (trigger ∷ triggers) = []

-- The declaration order of the triggers: the risk policy's, then the profile's own, sorted.
unfoldable pub declared_triggers : Dict → Dict → List String
declared_triggers global overrides =
    keys global ++ sorted (keep (λ k. not (has k global)) (keys overrides))

-- The state before the loop over the risk triggers.
unfoldable pub start_climb : Bundle → List String → Climb
start_climb bundle triggers = record {
  level = get_or bundle.risk "default_level" (text "R0");
  trace = start_trace triggers;
}

-- The risk level and its provenance: `_evaluate_normalized` up to the end of its loop.
unfoldable pub assess_risk : Input → Bundle → Policy Climb
assess_risk input bundle = do
  let selected = profile_record bundle input.project_profile_id
  overrides ← profile_overrides selected
  global ← mapping_at bundle.risk "triggers"
  check_declared global overrides input.risk_triggers
  let triggers = canonical_order input.risk_triggers (declared_triggers global overrides)
  climb (record { global = global; path = profile_path selected; overrides = overrides })
      (start_climb bundle triggers) triggers

-- The routing of a task: what the evaluation finds out after the risk level.
pub record Routed : Type 0 where
  pub human_triggers : List String
  pub legal : List String
  pub required_skills : List String
  pub model_roles : List (String × String)
  pub gates : Value

unfoldable pub route_task : Input → Bundle → Value → Policy Routed
route_task input bundle risk_level = do
  human_declared ← mapping_at bundle.human "triggers"
  transitions ← mapping_at bundle.workflow "transitions"
  legal ← texts_at transitions input.current_state
  features ← derive_routing_features input.task_attributes risk_level bundle.routing_features
  required_skills ← derive_required_skills features bundle.routing_features
  model_roles ← derive_model_roles risk_level bundle.routing_features
  levels ← mapping_at bundle.risk "levels"
  gates ← required_gates levels risk_level
  ok (record {
    human_triggers = canonical_order input.human_triggers (keys human_declared);
    legal = legal;
    required_skills = required_skills;
    model_roles = model_roles;
    gates = gates;
  })

-- `provenance`, before duplicates are dropped.
unfoldable pub full_provenance : Input → Climb → Routed → List String
full_provenance input climbed routed =
    climbed.trace
    ++ (under (fmt (human_path ∷ ":triggers." ∷ [])) routed.human_triggers
        ++ (under (fmt (skills_path ∷ ":skills." ∷ [])) routed.required_skills
            ++ (map (λ r. fmt (models_path ∷ ":roles." ∷ r.1 ∷ [])) routed.model_roles
                ++ fmt (workflow_path ∷ ":transitions." ∷ input.current_state ∷ []) ∷ [])))

-- The mapping that `_evaluate_normalized` returns.
unfoldable pub decision : Input → Climb → Routed → PolicyResult
decision input climbed routed =
    let human_gate = is_gated routed.human_triggers climbed.level in
    record {
      decision_emitted = true;
      risk_level = climbed.level;
      human_gate = human_gate;
      required_human_triggers = routed.human_triggers;
      required_skills = routed.required_skills;
      model_roles = routed.model_roles;
      mandatory_gates = routed.gates;
      legal_transitions = routed.legal;
      authorized_transitions = authorize human_gate routed.legal;
      provenance = canonical_provenance (full_provenance input climbed routed);
      fail_closed = false;
      error_code = none;
      issues = [];
    }

unfoldable pub evaluate_normalized : Input → Bundle → Policy PolicyResult
evaluate_normalized input bundle = do
  climbed ← assess_risk input bundle
  routed ← route_task input bundle climbed.level
  ok (decision input climbed routed)
