-- ===== src/Policy/Schema/Workflow/Table.antt =====
-- What an accepted workflow policy says: a transition table over the known states, closed under its
-- own transitions.
use acgps_public.Prelude.{◌≡◌, String, true, not, some, List, arith, mem, All}
use acgps_public.Py.Result.{ok, require, >>=-eq-ok, require-eq-ok, for_each}
use acgps_public.Py.Text.{keep}
use acgps_public.Py.Laws.{for_each-All, for_enumerate-All, keep-eq-nil}
use acgps_public.Py.Value.{Value, Dict, as_dict, get, has, keys}
use acgps_public.Policy.Error.{fail_if}
use acgps_public.Policy.Vocabulary.{task_states}
use acgps_public.Policy.Fields.{
  require_exact_fields, require_policy_id, require_string_list, fail_at_least,
}
use acgps_public.Policy.Fields.Lists.{IsTextList, require_string_list-IsTextList}
use acgps_public.Policy.Fields.Exact.{fail_at_least-nil}
use acgps_public.Policy.Schema.Workflow.{states_in, check_transition_row, validate_workflow_policy}

abbrev In : List String → String → Type 0
In vocabulary s = mem s vocabulary ≡ true

states_in-All :
    (vocabulary : List String) (path message : String) (states : List String)
    → states_in vocabulary path message states ≡ ok tt
    → All (In vocabulary) states
states_in-All vocabulary path message states =
    for_enumerate-All (In vocabulary) 0 states _ (λ j s h. ground arith)

-- One row: a declared source with a list of declared targets.
pub record IsRow (states : List String) (source : String) (targets_value : Value) : Type 0 where
  pub declared : mem source states ≡ true
  pub targets : List String
  pub is_targets : IsTextList targets_value targets
  pub targets_declared : All (In states) targets

check_transition_row-IsRow :
    (states : List String) (row : String × Value)
    → check_transition_row states row ≡ ok tt
    → IsRow states row.0 row.1
unfolding check_transition_row
check_transition_row-IsRow states (source, targets_value) h =
    let (_, e, h₁) = >>=-eq-ok (fail_if (not (mem source states)) _ _ _) _ h in
    let (targets, e₁, h₂) = >>=-eq-ok (require_string_list targets_value _) _ h₁ in
    record {
      declared = ground arith;
      targets = targets;
      is_targets = require_string_list-IsTextList targets_value _ e₁;
      targets_declared = states_in-All states _ _ targets h₂;
    }

-- The table of an accepted workflow policy.
pub record IsTable (workflow : Dict) : Type 0 where
  pub states : List String
  pub is_states : IsTextList (get workflow "task_states") states
  pub states_known : All (In task_states) states
  pub transitions : Dict
  pub is_transitions : as_dict (get workflow "transitions") ≡ some transitions
  pub total : (s : String) → mem s states ≡ true → has s transitions ≡ true
  pub rows : All (λ e. IsRow states e.0 e.1) transitions

-- An accepted workflow policy declares only known states, has a row for each of them, and names
-- only declared states as sources and targets of its transitions.
pub validate_workflow_policy-IsTable :
    (workflow : Dict) → validate_workflow_policy workflow ≡ ok tt → IsTable workflow
unfolding validate_workflow_policy
validate_workflow_policy-IsTable workflow h =
    let (_, _, h₁) = >>=-eq-ok (require_exact_fields workflow _ _ _) _ h in
    let (_, _, h₂) = >>=-eq-ok (require_policy_id workflow _) _ h₁ in
    let (states, e₃, h₃) = >>=-eq-ok (require_string_list (get workflow "task_states") _) _ h₂ in
    let (_, e₄, h₄) = >>=-eq-ok (states_in task_states _ _ states) _ h₃ in
    let (transitions, e₅, h₅) = >>=-eq-ok (require (as_dict (get workflow "transitions")) _) _ h₄ in
    let (_, e₆, h₆) = >>=-eq-ok (fail_at_least (keep _ states) _) _ h₅ in
    let (_, _, h₇) = >>=-eq-ok (fail_at_least (keep _ (keys transitions)) _) _ h₆ in
    let (_, e₈, _) = >>=-eq-ok (for_each transitions (check_transition_row states)) _ h₇ in
    record {
      states = states;
      is_states = require_string_list-IsTextList _ _ e₃;
      states_known = states_in-All task_states _ _ states e₄;
      transitions = transitions;
      is_transitions = require-eq-ok _ _ e₅;
      total = λ s m. ground (arith, keep-eq-nil _ states s (fail_at_least-nil _ _ e₆) m);
      rows =
          for_each-All (λ e. IsRow states e.0 e.1) transitions _ (check_transition_row-IsRow states)
            e₈;
    }
