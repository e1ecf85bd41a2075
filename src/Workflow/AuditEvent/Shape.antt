-- ===== src/Workflow/AuditEvent/Shape.antt =====
-- What an audit event that passes its check holds.
use acgps_public.Prelude.{
  ◌≡◌, refl, ap, ◌∙◌, ℕ, ◌+◌, arith, Bool, true, false, not, ◌&&◌, ◌||◌, mem, leb,
}
use acgps_public.Py.Result.{ok}
use acgps_public.Py.Value.{
  pos, Value, null, bool, int, seq, text, dict, Dict, Fields, pairs, get, is_null, py_eq,
}
use acgps_public.Slot.State.{is_safe_id}
use acgps_public.Workflow.Outcome.{Outside, is_sha256, invalid_outcome}
use acgps_public.Workflow.Vocabulary.{event_types}
use acgps_public.Workflow.Binding.{is_the_text}
use acgps_public.Workflow.Catalog.{Catalog}
use acgps_public.Workflow.Generation.{audit_corrupt, is_one}
use acgps_public.Workflow.Passed.{
  IsTextThat, IsPositive, first_of-eq-ok, with_code-eq-ok, refuse_if-eq-ok, not-eq-false,
  require_safe_id-eq-ok, require_sha-eq-ok, require_positive_int-eq-ok, require_member-eq-ok,
  is_the_text-eq-true, is_null-eq-true,
}
use acgps_public.Workflow.AuditEvent.{
  event_mapping_checks, validate_audit_event, validate_event_mapping, check_by_type,
  check_event_hash, with_null,
}
use acgps_public.Workflow.EventFields.{
  event_fields_checks, chain_fields_checks, check_event_fields, check_chain_fields, above_one,
}

-- The texts and the numbers that every event holds.
pub record IsAuditEvent (d : Dict) : Type 0 where
  pub event_id : IsTextThat (λ s. is_safe_id s ≡ true) (get d "event_id")
  pub generation : IsPositive (get d "generation")
  pub sequence : IsPositive (get d "sequence")
  pub project_id : IsTextThat (λ s. is_safe_id s ≡ true) (get d "project_id")
  pub task_id : IsTextThat (λ s. is_safe_id s ≡ true) (get d "task_id")
  pub event_type : IsTextThat (λ s. mem s event_types ≡ true) (get d "event_type")
  pub event_hash : IsTextThat (λ s. is_sha256 s ≡ true) (get d "event_hash")

check_event_fields-inv :
    (outside : Outside) (d : Dict) → check_event_fields outside d ≡ ok tt → IsAuditEvent d
unfolding check_event_fields
check_event_fields-inv outside d h =
    let (_, (event, (generation, (sequence, (project, (task, (type, (_, (hash, _))))))))) =
      first_of-eq-ok (event_fields_checks outside d) h in
    record {
      event_id = require_safe_id-eq-ok _ _ event;
      generation = require_positive_int-eq-ok _ _ generation;
      sequence = require_positive_int-eq-ok _ _ sequence;
      project_id = require_safe_id-eq-ok _ _ project;
      task_id = require_safe_id-eq-ok _ _ task;
      event_type = require_member-eq-ok _ event_types "event_type" audit_corrupt type;
      event_hash = require_sha-eq-ok _ _ hash;
    }

-- The first event of a generation, and no other, has no previous hash.
pub record IsChained (d : Dict) : Type 0 where
  pub first : get d "sequence" ≡ int (pos 1) → get d "previous_event_hash" ≡ null
  pub later :
      (n : ℕ) → get d "sequence" ≡ int (pos (n + 2)) → is_null (get d "previous_event_hash") ≡ false
  pub created :
      get d "event_type" ≡ text "TASK_CREATED"
      → (is_one (get d "generation") ≡ true) × (is_one (get d "sequence") ≡ true)

is_in : (b c : Bool) → b ≡ true → (b && not c) ≡ false → c ≡ true
is_in b c e p = ground arith

two_or_more : (n : ℕ) → leb 2 (n + 2) ≡ true
two_or_more n = ground arith

is_out : (b c : Bool) → b ≡ true → (b && c) ≡ false → c ≡ false
is_out b c e p = ground arith

both : (b c e : Bool) → b ≡ true → (b && (not c || not e)) ≡ false → (c ≡ true) × (e ≡ true)
both b c e p q = (ground arith, ground arith)

pub check_chain_fields-inv : (d : Dict) → check_chain_fields d ≡ ok tt → IsChained d
unfolding check_chain_fields py_eq
check_chain_fields-inv d h =
    let (_, (_, (_, (_, (one, (more, (starts, _))))))) = first_of-eq-ok (chain_fields_checks d) h in
    let one' = refuse_if-eq-ok _ _ _ _ one in
    let more' = refuse_if-eq-ok _ _ _ _ more in
    let starts' = refuse_if-eq-ok _ _ _ _ starts in
    record {
      first = λ e. is_null-eq-true _ (is_in _ _ (ap is_one e) one');
      later = λ n e. is_out _ _ (ap above_one e ∙ two_or_more n) more';
      created = λ e. both _ _ _ (ap (is_the_text "TASK_CREATED") e) starts';
    }

-- What the check of an event has gone through.
pub record PassedEvent (outside : Outside) (fields : Fields) : Type 0 where
  pub shape : IsAuditEvent (pairs fields)
  pub chained : IsChained (pairs fields)
  pub typed : check_by_type outside (pairs fields) ≡ ok tt
  pub hashed :
      get (pairs fields) "event_hash" ≡ text (outside.sha (dict (with_null "event_hash" fields)))

check_event_hash-inv :
    (outside : Outside) (fields : Fields)
    → check_event_hash outside fields ≡ ok tt
    → get (pairs fields) "event_hash" ≡ text (outside.sha (dict (with_null "event_hash" fields)))
unfolding check_event_hash
check_event_hash-inv outside fields h =
    is_the_text-eq-true _ _ (not-eq-false _ (refuse_if-eq-ok _ _ _ _ h))

validate_event_mapping-inv :
    (outside : Outside) (catalog : Catalog) (fields : Fields)
    → validate_event_mapping outside catalog fields ≡ ok tt
    → PassedEvent outside fields
unfolding validate_event_mapping
validate_event_mapping-inv outside catalog fields h =
    let (_, (plain, (chain, (_, (type, (_, (_, (_, (hash, _))))))))) =
      first_of-eq-ok (event_mapping_checks outside catalog fields) h in
    record {
      shape = check_event_fields-inv outside (pairs fields) (with_code-eq-ok _ _ plain);
      chained = check_chain_fields-inv (pairs fields) chain;
      typed = type;
      hashed = check_event_hash-inv outside fields hash;
    }

pub validate_audit_event-inv :
    (outside : Outside) (catalog : Catalog) (v : Value)
    → validate_audit_event outside catalog v ≡ ok tt
    → (fields : Fields) × (v ≡ dict fields) × PassedEvent outside fields
unfolding validate_audit_event invalid_outcome
validate_audit_event-inv outside catalog (dict fields) h =
    (fields, refl, validate_event_mapping-inv outside catalog fields h)
validate_audit_event-inv outside catalog null h = absurd (cc)
validate_audit_event-inv outside catalog (bool b) h = absurd (cc)
validate_audit_event-inv outside catalog (int n) h = absurd (cc)
validate_audit_event-inv outside catalog (text s) h = absurd (cc)
validate_audit_event-inv outside catalog (seq vs) h = absurd (cc)
