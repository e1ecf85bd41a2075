-- ===== src/Policy/Schema/Risk.antt =====
-- `_validate_risk_policy` and `_validate_risk_rule_conflicts`: config/risk_policy.yaml.
pub mod Rules
use acgps_public.Prelude.{
  ℕ, ◌+◌, String, Bool, true, false, not, ◌&&◌, List, [], ◌∷◌, ◌==◌, if◌then◌else◌, mem,
}
use acgps_public.Py.Result.{ok, ◌>>=◌, ◌>>◌, require, for_each, for_enumerate}
use acgps_public.Py.Text.{fmt, show, keep}
use acgps_public.Py.Value.{
  ℤ, int_eq, Value, null, Dict, has, get, keys, py_eq, as_dict, as_text, as_nonempty_text, is_bool,
  is_null, seq_of, dict_of, as_int, get_or,
}
use acgps_public.Policy.Error.{Code, Policy, policy_error, fail_if}
use acgps_public.Policy.Vocabulary.{risk_path, risk_levels, gate_ids}
use acgps_public.Policy.Fields.{
  require_string_list, fail_at_least, require_exact_fields, require_policy_id, iterate, py_in,
}

abbrev level_path : String → List String → String
level_path level rest = fmt (risk_path ∷ ":levels." ∷ level ∷ rest)

-- One entry of `levels`: a description and at least one known gate.
unfoldable pub check_level : String × Value → Policy (Unit {0})
check_level (level, config_value) = do
  fail_if (not (mem level risk_levels)) Code.unknown_id (level_path level []) "unknown risk level"
  config ←
      require (as_dict config_value)
        (policy_error Code.type_error (level_path level []) "risk level must be a mapping")
  require_exact_fields config ("description" ∷ "required_gates" ∷ []) (level_path level []) []
  require (as_nonempty_text (get config "description")) (
      policy_error Code.type_error (level_path level (".description" ∷ []))
        "risk level description must be a non-empty string")
  gates ←
      require_string_list (get config "required_gates") (level_path level (".required_gates" ∷ []))
  fail_if (elim gates [ [] ↦ true | _ ↦ false ]) Code.type_error
      (level_path level (".required_gates" ∷ []))
      "risk level must declare at least one mandatory gate"
  for_enumerate 0 gates λ i gate.
      fail_if (not (mem gate gate_ids)) Code.unknown_id
        (level_path level (".required_gates[" ∷ show i ∷ "]" ∷ [])) "unknown gate id"

-- One entry of `triggers`: a declared level. The keys of a mapping are texts.
unfoldable pub check_trigger : Dict → String × Value → Policy (Unit {0})
check_trigger levels (trigger, level_value) = do
  level ← require (as_text level_value) (
      policy_error Code.type_error (fmt (risk_path ∷ ":triggers" ∷ []))
        "risk trigger ids and levels must be strings")
  fail_if (not (has level levels)) Code.unknown_id (fmt (risk_path ∷ ":triggers." ∷ trigger ∷ []))
      "unknown risk level"

abbrev rule_path : ℕ → List String → String
rule_path i rest = fmt (risk_path ∷ ":rules[" ∷ show i ∷ "]" ∷ rest)

-- The rules seen so far: the level of each trigger and priority, the latest first.
abbrev pub Seen : Type 0
Seen = List ((String × ℤ) × Value)

-- `seen.get((trigger, priority))`
unfoldable pub seen_level : Seen → String → ℤ → Value
seen_level [] trigger priority = null
seen_level (((t, p), level) ∷ seen) trigger priority =
    if trigger == t && int_eq priority p then level else seen_level seen trigger priority

-- `previous is not None and previous != level`
abbrev pub disagrees : Value → Value → Bool
disagrees previous level = not (is_null previous) && not (py_eq previous level)

-- A rule as the code reads it; its level is a value of the mapping.
pub record ReadRule : Type 0 where
  pub trigger : String
  pub priority : ℤ
  pub level : Value

-- The checks on the fields of the rule at position `i`; `levels` is `risk.get("levels", {})`.
unfoldable pub read_rule : Value → ℕ → Value → Policy ReadRule
read_rule levels i rule_value = do
  rule ←
      require (as_dict rule_value)
        (policy_error Code.type_error (rule_path i []) "risk rule must be a mapping")
  fail_at_least (keep (λ f. not (mem f ("trigger" ∷ "priority" ∷ "risk_level" ∷ []))) (keys rule))
      (λ f.
        policy_error Code.unknown_field (rule_path i (":" ∷ f ∷ []))
          (fmt ("unexpected policy field " ∷ f ∷ [])))
  require_exact_fields rule ("trigger" ∷ "priority" ∷ "risk_level" ∷ []) (rule_path i []) []
  trigger ← require (as_nonempty_text (get rule "trigger")) (
      policy_error Code.type_error (rule_path i (".trigger" ∷ []))
        "risk rule trigger must be a non-empty string")
  priority ← require (as_int (get rule "priority")) (
      policy_error Code.type_error (rule_path i (".priority" ∷ []))
        "risk rule priority must be an integer")
  declared ← py_in (get rule "risk_level") levels
  fail_if (not declared) Code.unknown_id (rule_path i (".risk_level" ∷ []))
      "risk rule must reference a declared risk level"
  ok (record { trigger = trigger; priority = priority; level = get rule "risk_level" })

-- The loop over the rules, from position `i`.
unfoldable pub check_rules : Value → ℕ → Seen → List Value → Policy (Unit {0})
check_rules levels i seen [] = ok tt
check_rules levels i seen (rule_value ∷ rules) = do
  rule ← read_rule levels i rule_value
  fail_if (disagrees (seen_level seen rule.trigger rule.priority) rule.level) Code.conflict
      (rule_path i []) "conflicting equal-priority policy rules"
  check_rules levels (i + 1) (((rule.trigger, rule.priority), rule.level) ∷ seen) rules

unfoldable pub validate_risk_rule_conflicts : Dict → Policy (Unit {0})
validate_risk_rule_conflicts risk = do
  rules ← iterate (get_or risk "rules" (seq_of []))
  check_rules (get_or risk "levels" (dict_of [])) 0 [] rules

unfoldable pub validate_risk_policy : Dict → Policy (Unit {0})
validate_risk_policy risk = do
  require_exact_fields risk
      ("schema_version" ∷ "policy_id" ∷ "default_level" ∷ "unknown_trigger_behavior" ∷ "levels"
        ∷ "triggers" ∷ "highest_applicable_level_wins" ∷ "project_profile_may_lower_risk" ∷ "rules"
        ∷ [])
      risk_path ("rules" ∷ [])
  require_policy_id risk risk_path
  levels ← require (as_dict (get risk "levels")) (
      policy_error Code.type_error (fmt (risk_path ∷ ":levels" ∷ []))
        "risk levels must be a mapping")
  fail_at_least (keep (λ l. not (has l levels)) risk_levels)
      (λ l. policy_error Code.unknown_id (level_path l []) "required risk level is undeclared")
  fail_at_least (keep (λ l. not (mem l risk_levels)) (keys levels))
      (λ l. policy_error Code.unknown_id (level_path l []) "unknown risk level")
  for_each levels check_level
  triggers ← require (as_dict (get risk "triggers")) (
      policy_error Code.type_error (fmt (risk_path ∷ ":triggers" ∷ []))
        "risk triggers must be a mapping")
  for_each triggers (check_trigger levels)
  fail_if (not (is_bool (get risk "highest_applicable_level_wins"))) Code.type_error
      (fmt (risk_path ∷ ":highest_applicable_level_wins" ∷ [])) "must be a boolean"
  fail_if (not (is_bool (get risk "project_profile_may_lower_risk"))) Code.type_error
      (fmt (risk_path ∷ ":project_profile_may_lower_risk" ∷ [])) "must be a boolean"
  validate_risk_rule_conflicts risk
