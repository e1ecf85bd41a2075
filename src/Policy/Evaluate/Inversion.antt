-- ===== src/Policy/Evaluate/Inversion.antt =====
-- What an evaluation that returns has computed on its way.
use acgps_public.Prelude.{◌≡◌, refl, sym, ap, ◌∙◌, String, List}
use acgps_public.Py.Result.{ok, >>=-eq-ok, ok-injective}
use acgps_public.Py.Value.{Value, Dict, keys}
use acgps_public.Policy.Input.{Bundle, Input}
use acgps_public.Policy.Routing.{
  mapping_at, texts_at, derive_routing_features, derive_required_skills, derive_model_roles,
  canonical_order,
}
use acgps_public.Policy.Climb.{
  Climb, Sources, climb, check_declared, profile_record, profile_overrides, profile_path,
}
use acgps_public.Policy.Evaluate.{
  PolicyResult, Routed, assess_risk, route_task, decision, evaluate_normalized, declared_triggers,
  start_climb, required_gates,
}

-- The values that `assess_risk` went through.
pub record Assessed (input : Input) (bundle : Bundle) (climbed : Climb) : Type 0 where
  pub overrides : Dict
  pub overrides_eq :
      profile_overrides (profile_record bundle input.project_profile_id) ≡ ok overrides
  pub global : Dict
  pub global_eq : mapping_at bundle.risk "triggers" ≡ ok global
  pub declared_eq : check_declared global overrides input.risk_triggers ≡ ok tt
  pub triggers : List String
  pub triggers_eq :
      triggers ≡ canonical_order input.risk_triggers (declared_triggers global overrides)
  pub sources : Sources
  pub sources_global : sources.global ≡ global
  pub sources_overrides : sources.overrides ≡ overrides
  pub climb_eq : climb sources (start_climb bundle triggers) triggers ≡ ok climbed

pub assess_risk-Assessed :
    (input : Input) (bundle : Bundle) {climbed : Climb}
    → assess_risk input bundle ≡ ok climbed
    → Assessed input bundle climbed
unfolding assess_risk
assess_risk-Assessed input bundle h =
    let (overrides, e₁, h₁) =
      >>=-eq-ok (profile_overrides (profile_record bundle input.project_profile_id)) _ h in
    let (global, e₂, h₂) = >>=-eq-ok (mapping_at bundle.risk "triggers") _ h₁ in
    let (_, e₃, h₃) = >>=-eq-ok (check_declared global overrides input.risk_triggers) _ h₂ in
    record {
      overrides = overrides;
      overrides_eq = e₁;
      global = global;
      global_eq = e₂;
      declared_eq = e₃;
      triggers = canonical_order input.risk_triggers (declared_triggers global overrides);
      triggers_eq = refl;
      sources = record {
        global = global;
        path = profile_path (profile_record bundle input.project_profile_id);
        overrides = overrides;
      };
      sources_global = refl;
      sources_overrides = refl;
      climb_eq = h₃;
    }

-- The values that `route_task` went through.
pub record Routing (input : Input) (bundle : Bundle) (level : Value) (routed : Routed)
    : Type 0 where
  pub human_declared : Dict
  pub human_eq : mapping_at bundle.human "triggers" ≡ ok human_declared
  pub triggers_eq :
      routed.human_triggers ≡ canonical_order input.human_triggers (keys human_declared)
  pub transitions : Dict
  pub transitions_eq : mapping_at bundle.workflow "transitions" ≡ ok transitions
  pub legal_eq : texts_at transitions input.current_state ≡ ok routed.legal
  pub features : List String
  pub features_eq :
      derive_routing_features input.task_attributes level bundle.routing_features ≡ ok features
  pub skills_eq :
      derive_required_skills features bundle.routing_features ≡ ok routed.required_skills
  pub roles_eq : derive_model_roles level bundle.routing_features ≡ ok routed.model_roles
  pub levels : Dict
  pub levels_eq : mapping_at bundle.risk "levels" ≡ ok levels
  pub gates_eq : required_gates levels level ≡ ok routed.gates

pub route_task-Routing :
    (input : Input) (bundle : Bundle) (level : Value) {routed : Routed}
    → route_task input bundle level ≡ ok routed
    → Routing input bundle level routed
unfolding route_task
route_task-Routing input bundle level h =
    let (human_declared, e₅, h₅) = >>=-eq-ok (mapping_at bundle.human "triggers") _ h in
    let (transitions, e₆, h₆) = >>=-eq-ok (mapping_at bundle.workflow "transitions") _ h₅ in
    let (legal, e₇, h₇) = >>=-eq-ok (texts_at transitions input.current_state) _ h₆ in
    let (features, e₈, h₈) =
      >>=-eq-ok (derive_routing_features input.task_attributes level bundle.routing_features) _
        h₇ in
    let (skills, e₉, h₉) =
      >>=-eq-ok (derive_required_skills features bundle.routing_features) _ h₈ in
    let (roles, e₁₀, h₁₀) = >>=-eq-ok (derive_model_roles level bundle.routing_features) _ h₉ in
    let (levels, e₁₁, h₁₁) = >>=-eq-ok (mapping_at bundle.risk "levels") _ h₁₀ in
    let (gates, e₁₂, h₁₂) = >>=-eq-ok (required_gates levels level) _ h₁₁ in
    let e = ok-injective h₁₂ in
    record {
      human_declared = human_declared;
      human_eq = e₅;
      triggers_eq = ap (λ (q : Routed). q.human_triggers) (sym e);
      transitions = transitions;
      transitions_eq = e₆;
      legal_eq = e₇ ∙ ap (λ (q : Routed). ok q.legal) e;
      features = features;
      features_eq = e₈;
      skills_eq = e₉ ∙ ap (λ (q : Routed). ok q.required_skills) e;
      roles_eq = e₁₀ ∙ ap (λ (q : Routed). ok q.model_roles) e;
      levels = levels;
      levels_eq = e₁₁;
      gates_eq = e₁₂ ∙ ap (λ (q : Routed). ok q.gates) e;
    }

-- A decision is made of a risk assessment and a routing.
pub evaluate_normalized-inv :
    (input : Input) (bundle : Bundle) {r : PolicyResult}
    → evaluate_normalized input bundle ≡ ok r
    → (climbed : Climb) × (routed : Routed) × (assess_risk input bundle ≡ ok climbed)
      × (route_task input bundle climbed.level ≡ ok routed)
      × (decision input climbed routed ≡ r)
unfolding evaluate_normalized
evaluate_normalized-inv input bundle h =
    let (climbed, e, h₁) = >>=-eq-ok (assess_risk input bundle) _ h in
    let (routed, e₁, h₂) = >>=-eq-ok (route_task input bundle climbed.level) _ h₁ in
    (climbed, routed, e, e₁, ok-injective h₂)
