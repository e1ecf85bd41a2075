-- ===== src/Workflow/Tests.antt =====
-- Tests and examples of the workflow records.
use acgps_public.Prelude.{◌≡◌, refl}
use acgps_public.Py.Result.{ok}
use acgps_public.Py.Value.{text, dict, Fields, pairs, get}
use acgps_public.Workflow.TaskState.Shape.{
  IsTaskState, IsPendingOnlyWaiting, validate_task_state-IsTaskState,
}
use acgps_public.Workflow.AuditEvent.Shape.{IsAuditEvent, IsChained}
use acgps_public.Workflow.AuditEvent.Content.{IsTyped, validate_audit_event-IsSealed}
use acgps_public.Workflow.Request.Authorized.{
  IsAuthorized, validate_transition_request-IsAuthorized,
}
use acgps_public.Workflow.TaskState.{validate_task_state, optional_safe_id}
use acgps_public.Workflow.AuditEvent.{validate_audit_event, with_null}
use acgps_public.Workflow.Request.{mapping_of, validate_transition_request}
use acgps_public.Workflow.Examples.{
  here, loaded, created_event, draft_state, ready_event, ready_state, ready_request,
}

draft_state-passes : validate_task_state here draft_state ≡ ok tt
unfolding validate_task_state pairs optional_safe_id
draft_state-passes = refl

created_event-passes : validate_audit_event here loaded created_event ≡ ok tt
unfolding validate_audit_event
created_event-passes = refl

ready_event-passes : validate_audit_event here loaded ready_event ≡ ok tt
unfolding validate_audit_event
ready_event-passes = refl

ready_state-passes : validate_task_state here ready_state ≡ ok tt
unfolding validate_task_state pairs optional_safe_id
ready_state-passes = refl

ready_request-passes : validate_transition_request here ready_request ≡ ok tt
unfolding validate_transition_request
ready_request-passes = refl

validate_task_state-IsTaskState_example :
    (fields : Fields) × (draft_state ≡ dict fields)
    × IsTaskState (pairs fields)
    × IsPendingOnlyWaiting (pairs fields)
validate_task_state-IsTaskState_example =
    validate_task_state-IsTaskState here draft_state draft_state-passes

validate_audit_event-IsSealed_example :
    (fields : Fields) × (ready_event ≡ dict fields)
    × IsAuditEvent (pairs fields)
    × IsChained (pairs fields)
    × IsTyped (pairs fields)
    × (get (pairs fields) "event_hash" ≡ text (here.sha (dict (with_null "event_hash" fields))))
validate_audit_event-IsSealed_example =
    validate_audit_event-IsSealed here loaded ready_event ready_event-passes

validate_transition_request-IsAuthorized_example : IsAuthorized (mapping_of ready_request)
validate_transition_request-IsAuthorized_example =
    validate_transition_request-IsAuthorized here ready_request ready_request-passes
