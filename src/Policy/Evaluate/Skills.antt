-- ===== src/Policy/Evaluate/Skills.antt =====
-- The skills that a decision requires, against the rules of the routing policy.
use acgps_public.Prelude.{
  ◌≡◌, ◌↔◌, inl, inr, refl, sym, ap, ◌∙◌, String, Bool, true, false, ◌&&◌, ◌||◌, List, [], ◌∷◌,
  arith, mem, subst, ◌==◌, if◌then◌else◌, eq_refl, Bool-cases,
}
use acgps_public.Py.Result.{ok, >>=-eq-ok, ok-injective}
use acgps_public.Py.Laws.{eq_of_==, not-mem-nil}
use acgps_public.Py.Value.{Value, Dict}
use acgps_public.Policy.Input.{Bundle, Input}
use acgps_public.Policy.Routing.{
  mapping_at, rule_applies, skills_from, derive_routing_features, derive_required_skills,
}
use acgps_public.Policy.Evaluate.{PolicyResult, evaluate_normalized, decision}
use acgps_public.Policy.Evaluate.Inversion.{evaluate_normalized-inv, route_task-Routing}
use acgps_public.Policy.Evaluate.Rules.{IsCalledFor, rule_applies-TakesEffect}

mem-if :
    (skill skill_id : String) (applies : Bool) (rest : List String)
    → mem skill (if applies then skill_id ∷ rest else rest)
      ≡ ((applies && skill == skill_id) || mem skill rest)
unfolding mem
mem-if skill skill_id true rest = refl
mem-if skill skill_id false rest = refl

skills_from-mem :
    (features : List String) (rules : Dict) (skill : String) {skills : List String}
    → skills_from features rules ≡ ok skills
    → (mem skill skills ≡ true) ↔ IsCalledFor features skill rules
unfolding skills_from mem
skills_from-mem features [] skill {skills} h =
    let none_left : skills ≡ [] = sym (ok-injective h) in
    (λ m. absurd (not-mem-nil skill skills none_left m), λ c. absurd c)
skills_from-mem features ((skill_id, rule) ∷ rules) skill {skills} h =
    let (applies, e, h₁) = >>=-eq-ok (rule_applies features rule) _ h in
    let (rest, e₁, h₂) = >>=-eq-ok (skills_from features rules) _ h₁ in
    let later = skills_from-mem features rules skill {skills = rest} e₁ in
    let split : mem skill skills ≡ ((applies && skill == skill_id) || mem skill rest) =
      ap (λ q. mem skill q) (sym (ok-injective h₂)) ∙ mem-if skill skill_id applies rest in
    (λ m. forth applies rest e later.0 (sym split ∙ m), λ c. split ∙ back applies rest e later.1 c)
  where
    forth :
        (applies : Bool) (rest : List String)
        → rule_applies features rule ≡ ok applies
        → (mem skill rest ≡ true → IsCalledFor features skill rules)
        → ((applies && skill == skill_id) || mem skill rest) ≡ true
        → IsCalledFor features skill ((skill_id, rule) ∷ rules)
    forth true rest e f m = elim (Bool-cases (skill == skill_id)) [
      | inl same ↦
          inl (eq_of_== skill skill_id same, (rule_applies-TakesEffect features rule e).0 refl)
      | inr other ↦ inr (f (rw other at m))
    ]
    forth false rest e f m = inr (f m)

    back :
        (applies : Bool) (rest : List String)
        → rule_applies features rule ≡ ok applies
        → (IsCalledFor features skill rules → mem skill rest ≡ true)
        → IsCalledFor features skill ((skill_id, rule) ∷ rules)
        → ((applies && skill == skill_id) || mem skill rest) ≡ true
    back applies rest e f (inl (same, fires)) =
        let on : applies ≡ true = (rule_applies-TakesEffect features rule e).1 fires in
        let equal : (skill == skill_id) ≡ true =
          subst (λ q. (skill == q) ≡ true) same (eq_refl skill) in
        ground arith
    back applies rest e f (inr later) = ground (arith, f later)

-- The features of the task at the level of its decision.
pub record Featured (input : Input) (bundle : Bundle) (level : Value) : Type 0 where
  pub features : List String
  pub is_features :
      derive_routing_features input.task_attributes level bundle.routing_features ≡ ok features
  pub rules : Dict
  pub is_rules : mapping_at bundle.routing_features "skill_rule_features" ≡ ok rules

derive_required_skills-mem :
    (features : List String) (routing_features : Dict) {skills : List String}
    → derive_required_skills features routing_features ≡ ok skills
    → (rules : Dict) × (mapping_at routing_features "skill_rule_features" ≡ ok rules)
      × ((skill : String) → (mem skill skills ≡ true) ↔ IsCalledFor features skill rules)
unfolding derive_required_skills
derive_required_skills-mem features routing_features h =
    let (rules, e, h₁) = >>=-eq-ok (mapping_at routing_features "skill_rule_features") _ h in
    (rules, e, λ skill. skills_from-mem features rules skill h₁)

-- A decision requires a skill exactly when a rule of the routing policy for that skill takes effect:
-- it always does, or one of the features that it names is among those that the risk level and the
-- task attributes give.
pub required_skill_iff :
    (input : Input) (bundle : Bundle) {r : PolicyResult}
    → evaluate_normalized input bundle ≡ ok r
    → (f : Featured input bundle r.risk_level) × ((skill : String)
        → (mem skill r.required_skills ≡ true) ↔ IsCalledFor f.features skill f.rules)
unfolding decision
required_skill_iff input bundle h =
    let (climbed, routed, _, e, same) = evaluate_normalized-inv input bundle h in
    let routing = route_task-Routing input bundle climbed.level e in
    let (rules, is_rules, iff) =
      derive_required_skills-mem routing.features bundle.routing_features routing.skills_eq in
    subst
      (λ (q : PolicyResult).
        (f : Featured input bundle q.risk_level) × ((skill : String)
          → (mem skill q.required_skills ≡ true) ↔ IsCalledFor f.features skill f.rules))
      same
      (
        record {
          features = routing.features;
          is_features = routing.features_eq;
          rules = rules;
          is_rules = is_rules;
        },
        iff,
      )
