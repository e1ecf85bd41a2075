-- ===== src/Policy/Schema/Workflow.antt =====
-- `_validate_workflow_policy`: config/workflow_policy.yaml.
pub mod Table
use acgps_public.Prelude.{String, not, List, [], ◌∷◌, mem}
use acgps_public.Py.Result.{ok, ◌>>=◌, ◌>>◌, require, for_each, for_enumerate}
use acgps_public.Py.Text.{fmt, keep}
use acgps_public.Py.Value.{Value, Dict, has, get, keys, as_dict}
use acgps_public.Policy.Error.{Code, Policy, policy_error, fail_if}
use acgps_public.Policy.Vocabulary.{workflow_path, task_states}
use acgps_public.Policy.Fields.{
  at_index, require_string_list, fail_at_least, require_exact_fields, require_policy_id,
}

-- Every state is in a vocabulary; the error names the position of the first that is not.
abbrev pub states_in : List String → String → String → List String → Policy (Unit {0})
states_in vocabulary path message states =
    for_enumerate 0 states
      λ i state. fail_if (not (mem state vocabulary)) Code.unknown_id (at_index path i) message

abbrev transitions_at : String → String
transitions_at source = fmt (workflow_path ∷ ":transitions." ∷ source ∷ [])

-- One row of the transition table: a declared source, and declared targets.
unfoldable pub check_transition_row : List String → String × Value → Policy (Unit {0})
check_transition_row states (source, targets) = do
  fail_if (not (mem source states)) Code.unknown_id (transitions_at source)
      "unknown transition source state"
  target_list ← require_string_list targets (transitions_at source)
  states_in states (transitions_at source) "unknown workflow transition target" target_list

unfoldable pub validate_workflow_policy : Dict → Policy (Unit {0})
validate_workflow_policy workflow = do
  require_exact_fields workflow
      ("schema_version" ∷ "policy_id" ∷ "task_states" ∷ "transitions" ∷ "mandatory_rules" ∷ [])
      workflow_path []
  require_policy_id workflow workflow_path
  states ←
      require_string_list (get workflow "task_states") (fmt (workflow_path ∷ ":task_states" ∷ []))
  states_in task_states (fmt (workflow_path ∷ ":task_states" ∷ [])) "unknown workflow state" states
  transitions ← require (as_dict (get workflow "transitions")) (
      policy_error Code.type_error (fmt (workflow_path ∷ ":transitions" ∷ []))
        "workflow transitions must be a mapping")
  fail_at_least (keep (λ s. not (has s transitions)) states) (λ s.
      policy_error Code.unknown_id (transitions_at s) "workflow state is missing a transition row")
  fail_at_least (keep (λ s. not (mem s states)) (keys transitions))
      (λ s. policy_error Code.unknown_id (transitions_at s) "unknown transition source state")
  for_each transitions (check_transition_row states)
  require_string_list (get workflow "mandatory_rules")
      (fmt (workflow_path ∷ ":mandatory_rules" ∷ []))
  ok tt
