-- ===== src/Workflow/TaskState/Shape.antt =====
-- What a task state that passes its check holds.
use acgps_public.Prelude.{◌≡◌, refl, ap, sym, subst, Bool, true, false, not, ◌&&◌, mem, arith}
use acgps_public.Py.Result.{ok, >>=-eq-ok}
use acgps_public.Py.Value.{Value, null, text, dict, Dict, Fields, pairs, get, is_text}
use acgps_public.Slot.State.{is_safe_id}
use acgps_public.Policy.Vocabulary.{task_states}
use acgps_public.Workflow.Outcome.{Outside, is_sha256, require_mapping}
use acgps_public.Workflow.Binding.{is_the_text}
use acgps_public.Workflow.Passed.{
  IsTextThat, IsPositive, first_of-eq-ok, with_code-eq-ok, require_mapping-eq-ok, refuse_if-eq-ok,
  require_safe_id-eq-ok, require_sha-eq-ok, require_positive_int-eq-ok, require_member-eq-ok,
  is_null-eq-true,
}
use acgps_public.Workflow.TaskState.{
  validate_task_state, state_fields_checks, pending_checks, task_state_checks, check_state_fields,
  check_pending,
}

-- The texts and the number that every task state holds.
pub record IsTaskState (d : Dict) : Type 0 where
  pub task_id : IsTextThat (λ s. is_safe_id s ≡ true) (get d "task_id")
  pub project_id : IsTextThat (λ s. is_safe_id s ≡ true) (get d "project_id")
  pub current_state : IsTextThat (λ s. mem s task_states ≡ true) (get d "current_state")
  pub audit_generation : IsPositive (get d "audit_generation")
  pub audit_head_event_id : IsTextThat (λ s. is_safe_id s ≡ true) (get d "audit_head_event_id")
  pub audit_head_hash : IsTextThat (λ s. is_sha256 s ≡ true) (get d "audit_head_hash")

check_state_fields-inv :
    (outside : Outside) (d : Dict) → check_state_fields outside d ≡ ok tt → IsTaskState d
unfolding check_state_fields
check_state_fields-inv outside d h =
    let (_, (task, (project, (current, (generation, (event, (hash, _))))))) =
      first_of-eq-ok (state_fields_checks outside d) h in
    record {
      task_id = require_safe_id-eq-ok _ _ task;
      project_id = require_safe_id-eq-ok _ _ project;
      current_state =
          require_member-eq-ok _ task_states "current_state" "WORKFLOW_UNKNOWN_STATE" current;
      audit_generation = require_positive_int-eq-ok _ _ generation;
      audit_head_event_id = require_safe_id-eq-ok _ _ event;
      audit_head_hash = require_sha-eq-ok _ _ hash;
    }

-- What the check of a task state has gone through.
pub record PassedState (outside : Outside) (fields : Fields) : Type 0 where
  pub shape : IsTaskState (pairs fields)
  pub pending : check_pending (pairs fields) ≡ ok tt

pub validate_task_state-inv :
    (outside : Outside) (v : Value)
    → validate_task_state outside v ≡ ok tt
    → (fields : Fields) × (v ≡ dict fields) × PassedState outside fields
unfolding validate_task_state
validate_task_state-inv outside v h =
    let (d, mapping, h₁) = >>=-eq-ok (require_mapping v _ _ _) _ h in
    let (fields, is_dict, e) = require_mapping-eq-ok v _ _ _ mapping in
    let (_, (checked, (pending, _))) = first_of-eq-ok (task_state_checks outside d) h₁ in
    (
      fields,
      is_dict,
      record {
        shape =
            subst IsTaskState (sym e)
              (check_state_fields-inv outside d (with_code-eq-ok _ _ checked));
        pending = subst (λ q. check_pending q ≡ ok tt) (sym e) pending;
      },
    )

-- A pending decision is there exactly in WAITING_HUMAN.
pub record IsPendingOnlyWaiting (d : Dict) : Type 0 where
  pub waiting :
      get d "current_state" ≡ text "WAITING_HUMAN" → is_text (get d "pending_decision_id") ≡ true
  pub other :
      is_the_text "WAITING_HUMAN" (get d "current_state") ≡ false
      → get d "pending_decision_id" ≡ null

pub check_pending-inv : (d : Dict) → check_pending d ≡ ok tt → IsPendingOnlyWaiting d
unfolding check_pending
check_pending-inv d h =
    let (_, (waits, (others, _))) = first_of-eq-ok (pending_checks d) h in
    let waits' = refuse_if-eq-ok _ _ _ _ waits in
    let others' = refuse_if-eq-ok _ _ _ _ others in
    record {
      waiting = λ e.
          needs_text (is_the_text "WAITING_HUMAN" (get d "current_state")) _
            (ap (is_the_text "WAITING_HUMAN") e) waits';
      other = λ e. is_null-eq-true _ (needs_null _ _ e others');
    }
  where
    needs_text : (b c : Bool) → b ≡ true → (b && not c) ≡ false → c ≡ true
    needs_text b true e p = refl
    needs_text b false e p = ground arith

    needs_null : (b c : Bool) → b ≡ false → (not b && not c) ≡ false → c ≡ true
    needs_null b true e p = refl
    needs_null b false e p = ground arith

-- A task state that passes has safe identities, a declared current state, a positive generation and
-- a digest for its audit head, and it names a pending decision exactly in WAITING_HUMAN.
pub validate_task_state-IsTaskState :
    (outside : Outside) (v : Value)
    → validate_task_state outside v ≡ ok tt
    → (fields : Fields) × (v ≡ dict fields)
      × IsTaskState (pairs fields)
      × IsPendingOnlyWaiting (pairs fields)
validate_task_state-IsTaskState outside v h =
    let (fields, e, passed) = validate_task_state-inv outside v h in
    (fields, e, passed.shape, check_pending-inv (pairs fields) passed.pending)
