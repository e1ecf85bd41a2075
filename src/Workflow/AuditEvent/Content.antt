-- ===== src/Workflow/AuditEvent/Content.antt =====
-- What the hash and the type of an audit event that passes its check bind.
use acgps_public.Prelude.{◌≡◌, true, false}
use acgps_public.Py.Result.{ok}
use acgps_public.Py.Value.{Value, null, text, dict, Dict, Fields, pairs, get, is_null, is_text}
use acgps_public.Workflow.Outcome.{Outside}
use acgps_public.Workflow.Binding.{is_the_text}
use acgps_public.Workflow.Catalog.{Catalog}
use acgps_public.Workflow.Passed.{first_of-eq-ok, refuse_if-eq-ok, not-eq-false, is_null-eq-true}
use acgps_public.Workflow.AuditEvent.{
  validate_audit_event, check_by_type, check_created, created_checks, check_accepted_transition,
  accepted_transition_checks, with_null,
}
use acgps_public.Workflow.AuditEvent.Shape.{IsAuditEvent, IsChained, validate_audit_event-inv}
use acgps_public.Workflow.Request.{mapping_of}

-- An event that creates a task carries no transition; one that moves it carries the states, the
-- transition and the policy binding.
pub record IsTyped (d : Dict) : Type 0 where
  pub created :
      is_the_text "TASK_CREATED" (get d "event_type") ≡ true
      → (get d "transition_id" ≡ null) × (get d "from_state" ≡ null) × (get d "to_state" ≡ null)
  pub accepted :
      is_the_text "TASK_CREATED" (get d "event_type") ≡ false
      → is_the_text "TRANSITION_ACCEPTED" (get d "event_type") ≡ true
      → (is_null (get d "from_state") ≡ false)
        × (is_null (get d "to_state") ≡ false)
        × (is_text (get d "transition_id") ≡ true)
        × (is_null (get d "policy_evaluation_binding") ≡ false)

check_created-null :
    (outside : Outside) (d details : Dict)
    → check_created outside d details ≡ ok tt
    → (get d "transition_id" ≡ null) × (get d "from_state" ≡ null) × (get d "to_state" ≡ null)
unfolding check_created
check_created-null outside d details h =
    let (transition, (from, (to, _))) = first_of-eq-ok (created_checks outside d details) h in
    (
      is_null-eq-true _ (not-eq-false _ (refuse_if-eq-ok _ _ _ _ transition)),
      is_null-eq-true _ (not-eq-false _ (refuse_if-eq-ok _ _ _ _ from)),
      is_null-eq-true _ (not-eq-false _ (refuse_if-eq-ok _ _ _ _ to)),
    )

check_accepted_transition-there :
    (d : Dict)
    → check_accepted_transition d ≡ ok tt
    → (is_null (get d "from_state") ≡ false)
      × (is_null (get d "to_state") ≡ false)
      × (is_text (get d "transition_id") ≡ true)
      × (is_null (get d "policy_evaluation_binding") ≡ false)
unfolding check_accepted_transition
check_accepted_transition-there d h =
    let (from, (to, (transition, (policy, _)))) = first_of-eq-ok (accepted_transition_checks d) h in
    (
      refuse_if-eq-ok _ _ _ _ from,
      refuse_if-eq-ok _ _ _ _ to,
      not-eq-false _ (refuse_if-eq-ok _ _ _ _ transition),
      refuse_if-eq-ok _ _ _ _ policy,
    )

check_by_type-IsTyped : (outside : Outside) (d : Dict) → check_by_type outside d ≡ ok tt → IsTyped d
unfolding check_by_type
check_by_type-IsTyped outside d h = record {
  created =
      λ c. check_created-null outside d (mapping_of (get d "details")) (rw (c, check_by_type) at h);
  accepted = λ c a. check_accepted_transition-there d (rw (c, a, check_by_type) at h);
}

-- An audit event that passes its check is a mapping with the identities of an event. Its hash is the
-- digest of the event without the hash, it has a previous hash exactly from the second event of a
-- generation on, TASK_CREATED is the first event of generation 1 and carries no transition, and
-- TRANSITION_ACCEPTED carries both states, the transition and its policy binding.
pub validate_audit_event-IsSealed :
    (outside : Outside) (catalog : Catalog) (v : Value)
    → validate_audit_event outside catalog v ≡ ok tt
    → (fields : Fields) × (v ≡ dict fields)
      × IsAuditEvent (pairs fields)
      × IsChained (pairs fields)
      × IsTyped (pairs fields)
      × (get (pairs fields) "event_hash"
          ≡ text (outside.sha (dict (with_null "event_hash" fields))))
validate_audit_event-IsSealed outside catalog v h =
    let (fields, is_dict, passed) = validate_audit_event-inv outside catalog v h in
    (
      fields,
      is_dict,
      passed.shape,
      passed.chained,
      check_by_type-IsTyped outside (pairs fields) passed.typed,
      passed.hashed,
    )
