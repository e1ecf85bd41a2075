-- ===== src/Policy/Evaluate/Levels.antt =====
-- The risk level of a decision: the highest level of the task's triggers, which no project profile
-- can lower.
use acgps_public.Prelude.{
  ℕ, ◌≡◌, sym, ap, subst, ◌∙◌, ◌⊎◌, inl, inr, String, true, false, not, ◌&&◌, ◌||◌, List, arith,
  mem, All, Option-cases, some, none, [],
}
use acgps_public.Py.Result.{ok, >>=-eq-ok, ok-injective}
use acgps_public.Py.Text.{keep, sorted}
use acgps_public.Py.Laws.{
  mem-keep, mem-append, mem-sorted, has-eq-mem-keys, for_enumerate-All, All-mem,
}
use acgps_public.Py.Value.{Value, null, text, Dict, get, get_or, has, keys, lookup}
use acgps_public.Policy.Vocabulary.{rank}
use acgps_public.Policy.Input.{Bundle, Input}
use acgps_public.Policy.Routing.{mapping_at, canonical_order}
use acgps_public.Policy.Climb.{
  Climb, Sources, candidate_level, is_downgrade, check_declared, profile_record, profile_overrides,
  Selected,
}
use acgps_public.Policy.Climb.Highest.{RankLe, RankLe-trans, LevelLe, climb-above, climb-attained}
use acgps_public.Policy.Evaluate.{
  PolicyResult, evaluate_normalized, declared_triggers, start_climb, decision,
}
use acgps_public.Policy.Evaluate.Inversion.{Assessed, assess_risk-Assessed, evaluate_normalized-inv}

-- A list in canonical order has the declared ones of its members.
pub mem-canonical_order :
    (s : String) (values declared : List String)
    → mem s (canonical_order values declared) ≡ (mem s declared && mem s values)
unfolding canonical_order
mem-canonical_order s values declared = mem-keep s (λ item. mem item values) declared

mem-declared_triggers :
    (t : String) (global overrides : Dict)
    → mem t (declared_triggers global overrides) ≡ (has t global || has t overrides)
unfolding declared_triggers
mem-declared_triggers t global overrides = ground (
  arith,
  mem-append t (keys global) (sorted (keep (λ k. not (has k global)) (keys overrides))),
  mem-sorted t (keep (λ k. not (has k global)) (keys overrides)),
  mem-keep t (λ k. not (has k global)) (keys overrides),
  has-eq-mem-keys t global,
  has-eq-mem-keys t overrides,
)

abbrev Declared : Dict → Dict → String → Type 0
Declared global overrides t = (has t global || has t overrides) ≡ true

check_declared-All :
    (global overrides : Dict) (triggers : List String)
    → check_declared global overrides triggers ≡ ok tt
    → All (Declared global overrides) triggers
unfolding check_declared
check_declared-All global overrides triggers =
    for_enumerate-All (Declared global overrides) 0 triggers _ (λ j t h. ground arith)

-- Every trigger of the input is in the list that the loop runs over, and no other is.
triggers_kept :
    {input : Input} {bundle : Bundle} {climbed : Climb} (a : Assessed input bundle climbed)
    (t : String)
    → mem t input.risk_triggers ≡ true
    → mem t a.triggers ≡ true
triggers_kept {input} a t m = rw a.triggers_eq (
    ground (
      arith,
      mem-canonical_order t input.risk_triggers (declared_triggers a.global a.overrides),
      mem-declared_triggers t a.global a.overrides,
      All-mem (Declared a.global a.overrides) input.risk_triggers t
          (check_declared-All a.global a.overrides input.risk_triggers a.declared_eq) m,
    ))

-- An override that passes the downgrade test is not below the global level.
is_downgrade-RankLe :
    (p c : Value) (g : ℕ) → rank c ≡ ok g → is_downgrade p c ≡ ok false → RankLe c p
unfolding is_downgrade
is_downgrade-RankLe p null g r h = absurd (unfold rank in cc)
is_downgrade-RankLe p c g r h =
    let (l, e, h₁) = >>=-eq-ok (rank p) _ h in
    let (k, e₁, h₂) = >>=-eq-ok (rank c) _ h₁ in
    record { low = k; high = l; low_rank = e₁; high_rank = e; le = ground arith }

-- The level of a trigger is not below its global level.
candidate_level-RankLe :
    (sources : Sources) (t : String) (g : ℕ) {v : Value}
    → rank (get sources.global t) ≡ ok g
    → candidate_level sources t ≡ ok v
    → RankLe (get sources.global t) v
unfolding candidate_level
candidate_level-RankLe sources t g {v} r h = elim (Option-cases (lookup t sources.overrides)) [
  | inl no_override ↦
      let same : get sources.global t ≡ v = ground arith in
      record { low = g; high = g; low_rank = r; high_rank = rw (← same) r; le = omega arith }
  | inr (p, e) ↦
      let allowed : is_downgrade p (get sources.global t) ≡ ok false = ground arith in
      let same : p ≡ v = ground arith in
      rw (← same) (is_downgrade-RankLe p (get sources.global t) g r allowed)
]

-- The level that two mappings of triggers to levels give: the override where there is one, else the
-- global level.
pub data HasLevel (global overrides : Dict) (t : String) (v : Value) : Type 0 where
  by_policy : lookup t overrides ≡ none → get global t ≡ v → HasLevel global overrides t v
  by_profile : lookup t overrides ≡ some v → HasLevel global overrides t v

-- The overrides of the selected profile: none without a profile, else those that it lists.
pub data Overrides (overrides : Dict) : Selected → Type 0 where
  no_profile : overrides ≡ [] → Overrides overrides none
  of_profile :
      {path : String} {profile : Dict}
      → mapping_at profile "risk_overrides" ≡ ok overrides
      → Overrides overrides (some (path, profile))

profile_overrides-Overrides :
    (selected : Selected) {overrides : Dict}
    → profile_overrides selected ≡ ok overrides
    → Overrides overrides selected
profile_overrides-Overrides none h = no_profile (sym (ok-injective h))
profile_overrides-Overrides (some (path, profile)) h = of_profile h

-- The level of a decision, against the triggers that its input names, with their levels in the risk
-- policy and in the overrides of the profile that the input selects.
pub record IsHighest (input : Input) (bundle : Bundle) (level : Value) : Type 0 where
  pub global : Dict
  pub overrides : Dict
  pub global_eq : mapping_at bundle.risk "triggers" ≡ ok global
  pub are_overrides : Overrides overrides (profile_record bundle input.project_profile_id)
  pub covers :
      (t : String)
      → mem t input.risk_triggers ≡ true
      → (v : Value) × HasLevel global overrides t v × RankLe v level
  pub attained :
      (level ≡ get_or bundle.risk "default_level" (text "R0"))
      ⊎ ((t : String) × (mem t input.risk_triggers ≡ true) × HasLevel global overrides t level)

candidate_level-HasLevel :
    (sources : Sources) (t : String) {v : Value}
    → candidate_level sources t ≡ ok v
    → HasLevel sources.global sources.overrides t v
unfolding candidate_level
candidate_level-HasLevel sources t {v} h = elim (Option-cases (lookup t sources.overrides)) [
  | inl no_override ↦ by_policy no_override (ground arith)
  | inr (p, e) ↦ let same : p ≡ v = ground arith in by_profile (e ∙ ap (λ q. some q) same)
]

triggers_named :
    {input : Input} {bundle : Bundle} {climbed : Climb} (a : Assessed input bundle climbed)
    (t : String)
    → mem t a.triggers ≡ true
    → mem t input.risk_triggers ≡ true
triggers_named {input} a t m =
    let named =
      mem-canonical_order t input.risk_triggers (declared_triggers a.global a.overrides) in
    let kept : mem t (canonical_order input.risk_triggers (declared_triggers a.global a.overrides))
        ≡ true =
      rw a.triggers_eq at m in
    ground arith

-- No trigger of the input has a level above the level of the loop.
Assessed-above :
    {input : Input} {bundle : Bundle} {climbed : Climb} (a : Assessed input bundle climbed)
    (t : String)
    → mem t input.risk_triggers ≡ true
    → LevelLe a.sources t climbed.level
Assessed-above {bundle = bundle} a t m =
    climb-above a.sources (start_climb bundle a.triggers) a.triggers t a.climb_eq
      (triggers_kept a t m)

Assessed-IsHighest :
    (input : Input) (bundle : Bundle) {climbed : Climb}
    → Assessed input bundle climbed
    → IsHighest input bundle climbed.level
unfolding start_climb
Assessed-IsHighest input bundle {climbed} a = record {
  global = a.sources.global;
  overrides = a.sources.overrides;
  global_eq = a.global_eq ∙ ap (λ (d : Dict). ok d) (sym a.sources_global);
  are_overrides =
      profile_overrides-Overrides (profile_record bundle input.project_profile_id)
        (a.overrides_eq ∙ ap (λ (d : Dict). ok d) (sym a.sources_overrides));
  covers = λ t m.
      let above = Assessed-above a t m in
      (above.level, candidate_level-HasLevel a.sources t above.is_level, above.below);
  attained = elim (climb-attained a.sources (start_climb bundle a.triggers) a.triggers a.climb_eq) [
    | inl default ↦ inl default
    | inr (t, m, e) ↦ inr (t, triggers_named a t m, candidate_level-HasLevel a.sources t e)
  ];
}

-- A decision's risk level is the highest of the levels of its input's triggers, as the risk policy
-- and the overrides of the selected profile give them: none of them has a level above it, and it is
-- the default level or the level of one of them.
pub evaluate_normalized-IsHighest :
    (input : Input) (bundle : Bundle) {r : PolicyResult}
    → evaluate_normalized input bundle ≡ ok r
    → IsHighest input bundle r.risk_level
unfolding decision
evaluate_normalized-IsHighest input bundle h =
    let (climbed, routed, e, _, same) = evaluate_normalized-inv input bundle h in
    subst (λ (q : PolicyResult). IsHighest input bundle q.risk_level) same
      (Assessed-IsHighest input bundle (assess_risk-Assessed input bundle e))

-- Whatever the project profile says, a decision's risk level is not below the level that the risk
-- policy gives to any trigger of its input.
pub profile_never_lowers :
    (input : Input) (bundle : Bundle) (global : Dict) (t : String) (g : ℕ) {r : PolicyResult}
    → evaluate_normalized input bundle ≡ ok r
    → mapping_at bundle.risk "triggers" ≡ ok global
    → mem t input.risk_triggers ≡ true
    → rank (get global t) ≡ ok g
    → RankLe (get global t) r.risk_level
unfolding decision
profile_never_lowers input bundle global t g h declared m k =
    let (climbed, routed, e, _, same) = evaluate_normalized-inv input bundle h in
    let a = assess_risk-Assessed input bundle e in
    let level = Assessed-above a t m in
    let is_global : a.sources.global ≡ global =
      a.sources_global ∙ ok-injective (sym a.global_eq ∙ declared) in
    let below =
      RankLe-trans (candidate_level-RankLe a.sources t g (rw is_global k) level.is_level)
        level.below in
    subst (λ (q : PolicyResult). RankLe (get global t) q.risk_level) same
      (subst (λ (d : Dict). RankLe (get d t) climbed.level) is_global below)
