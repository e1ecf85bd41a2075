-- ===== src/Policy/Tests/Files.antt =====
-- The theorems on the policy files and the project profiles at small mappings.
use acgps_public.Prelude.{◌≡◌, ◌↔◌, refl, String, true, false, List, [], ◌∷◌, mem, map}
use acgps_public.Py.Result.{ok, for_each, for_enumerate}
use acgps_public.Py.Text.{fmt, show, split_on, has_char, keep, least}
use acgps_public.Py.Value.{
  pos, Value, text, int, bool, Dict, lookup, has, get, get_or, keys, py_eq, dict_of, seq_of, pairs,
  items,
}
use acgps_public.Policy.Vocabulary.{risk_order, task_states}
use acgps_public.Policy.Fields.{
  mem_value, duplicate_item, require_string_list, fail_at_least, require_exact_fields,
  require_policy_id, py_in, iterate,
}
use acgps_public.Policy.Fields.Exact.{HasFields, require_exact_fields_iff}
use acgps_public.Policy.Fields.Lists.{IsTextList, require_string_list-IsTextList}
use acgps_public.Policy.Schema.Workflow.{states_in, check_transition_row, validate_workflow_policy}
use acgps_public.Policy.Schema.Workflow.Table.{IsTable, validate_workflow_policy-IsTable}
use acgps_public.Policy.Schema.Risk.{
  seen_level, read_rule, check_rules, validate_risk_rule_conflicts,
}
use acgps_public.Policy.Schema.Risk.Rules.{
  Rule, AreRules, Consistent, validate_risk_rule_conflicts-Consistent,
}
use acgps_public.Policy.Profile.{
  is_safe_relative_path, check_profile_field, check_entries, known_rank, check_downgrade,
  check_override, check_required_file, validate_project_profile,
}
use acgps_public.Policy.Profile.Downgrade.{NoDowngrade, validate_project_profile-NoDowngrade}
use acgps_public.Policy.Profile.Paths.{walk, enter, is_safe_relative_path-enter}

abbrev texts : List String → Value
texts ss = seq_of (map (λ s. text s) ss)

require_exact_fields_iff_example :
    (require_exact_fields (("trigger", text "t") ∷ []) ("trigger" ∷ "note" ∷ []) "p" ("note" ∷ [])
      ≡ ok tt)
    ↔ HasFields (("trigger", text "t") ∷ []) ("trigger" ∷ "note" ∷ []) ("note" ∷ [])
require_exact_fields_iff_example =
    require_exact_fields_iff (("trigger", text "t") ∷ []) ("trigger" ∷ "note" ∷ []) "p"
      ("note" ∷ [])

two_texts : require_string_list (texts ("a" ∷ "b" ∷ [])) "p" ≡ ok ("a" ∷ "b" ∷ [])
unfolding require_string_list duplicate_item mem_value py_eq items
two_texts = refl

require_string_list-IsTextList_example : IsTextList (texts ("a" ∷ "b" ∷ [])) ("a" ∷ "b" ∷ [])
require_string_list-IsTextList_example =
    require_string_list-IsTextList (texts ("a" ∷ "b" ∷ [])) "p" two_texts

abbrev pub workflow : Dict
workflow =
    ("schema_version", int (pos 1))
    ∷ ("policy_id", text "global-workflow-v1")
    ∷ ("task_states", texts ("CLOSED" ∷ "ABANDONED" ∷ []))
    ∷ ("transitions", dict_of (("CLOSED", texts ("ABANDONED" ∷ [])) ∷ ("ABANDONED", texts []) ∷ []))
    ∷ ("mandatory_rules", texts [])
    ∷ []

workflow_accepted : validate_workflow_policy workflow ≡ ok tt
unfolding validate_workflow_policy require_exact_fields fail_at_least least keep keys has get lookup
    mem require_policy_id require_string_list duplicate_item mem_value py_eq items states_in
    task_states for_enumerate for_each check_transition_row pairs fmt show
workflow_accepted = refl

validate_workflow_policy-IsTable_example : IsTable workflow
validate_workflow_policy-IsTable_example =
    validate_workflow_policy-IsTable workflow workflow_accepted

abbrev rule : Value
rule =
    dict_of
      (("trigger", text "public_api") ∷ ("priority", int (pos 1)) ∷ ("risk_level", text "R2") ∷ [])

abbrev levels : List (String × Value)
levels = ("R2", texts []) ∷ []

abbrev risk_with_rules : Dict
risk_with_rules = ("levels", dict_of levels) ∷ ("rules", seq_of (rule ∷ rule ∷ [])) ∷ []

rules_accepted : validate_risk_rule_conflicts risk_with_rules ≡ ok tt
unfolding validate_risk_rule_conflicts iterate get_or lookup check_rules read_rule seen_level
    fail_at_least require_exact_fields least keep keys has get mem py_in py_eq pairs items
rules_accepted = refl

has_rules : iterate (get_or risk_with_rules "rules" (seq_of [])) ≡ ok (rule ∷ rule ∷ [])
unfolding iterate get_or lookup items
has_rules = refl

has_levels : get_or risk_with_rules "levels" (dict_of []) ≡ dict_of levels
unfolding get_or lookup
has_levels = refl

validate_risk_rule_conflicts-Consistent_example :
    (rs : List Rule) × AreRules (rule ∷ rule ∷ []) rs × Consistent rs
validate_risk_rule_conflicts-Consistent_example =
    validate_risk_rule_conflicts-Consistent risk_with_rules _ (rule ∷ rule ∷ []) has_levels
      has_rules rules_accepted

abbrev pub profile : Dict
profile =
    ("schema_version", int (pos 1))
    ∷ ("profile_id", text "p")
    ∷ ("project_name", text "P")
    ∷ ("project_type", text "library")
    ∷ ("required_files", dict_of (("readme", text "docs/README.md") ∷ []))
    ∷ ("critical_surfaces", texts ("api" ∷ []))
    ∷ ("risk_overrides", dict_of (("public_api", text "R3") ∷ []))
    ∷ ("pilot_restrictions", texts [])
    ∷ ("commands", dict_of [])
    ∷ []

abbrev risk : Dict
risk =
    ("triggers", dict_of (("public_api", text "R2") ∷ []))
    ∷ ("project_profile_may_lower_risk", bool false)
    ∷ []

profile_accepted : validate_project_profile [] "p" profile risk ≡ ok tt
unfolding validate_project_profile fail_at_least least keep keys mem for_each check_profile_field
    lookup get get_or check_entries iterate for_enumerate check_override known_rank risk_order
    check_downgrade check_required_file is_safe_relative_path split_on has_char py_eq pairs items
    fmt show
profile_accepted = refl

validate_project_profile-NoDowngrade_example : NoDowngrade risk profile
validate_project_profile-NoDowngrade_example =
    validate_project_profile-NoDowngrade [] "p" profile risk profile_accepted

is_safe : is_safe_relative_path "docs/README.md" ≡ true
unfolding is_safe_relative_path split_on has_char mem
is_safe = refl

is_safe_relative_path-enter_example :
    (walk ("root" ∷ []) (split_on 47 "docs/README.md")
      ≡ enter ("root" ∷ []) (split_on 47 "docs/README.md"))
    × (has_char 92 "docs/README.md" ≡ false)
is_safe_relative_path-enter_example =
    is_safe_relative_path-enter "docs/README.md" ("root" ∷ []) is_safe
