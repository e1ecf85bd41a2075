-- ===== src/Tasks/PlannedTests.antt =====
-- A planned transition, for `validate_transition_transaction`.
use acgps_public.Prelude.{◌≡◌, refl}
use acgps_public.Py.Result.{ok}
use acgps_public.Py.Text.{has_char}
use acgps_public.Py.Value.{get, pairs}
use acgps_public.Workflow.TaskState.{optional_safe_id}
use acgps_public.Workflow.Plan.{validate_transition_transaction}
use acgps_public.Workflow.Request.{mapping_of}
use acgps_public.Workflow.Examples.{here}
use acgps_public.Py.Text.{has_char}
use acgps_public.Py.Value.{get, pairs}
use acgps_public.Workflow.TaskState.{optional_safe_id}
use acgps_public.Workflow.Planned.{loaded_graph, ready_transaction}
use acgps_public.Tasks.Planned.{IsPlan, validate_transition_transaction-IsPlan}

ready_transaction-passes :
    validate_transition_transaction here loaded_graph ready_transaction ≡ ok tt
unfolding validate_transition_transaction has_char optional_safe_id
ready_transaction-passes = refl

validate_transition_transaction-IsPlan_example : IsPlan here (mapping_of ready_transaction)
unfolding get pairs
validate_transition_transaction-IsPlan_example =
    validate_transition_transaction-IsPlan here loaded_graph ready_transaction
      ready_transaction-passes refl
