-- ===== src/Tasks/Takes.antt =====
-- The pair check of acgps/workflow_store.py on the event and the state of a transaction that
-- acgps/workflow_contracts.py accepts.
use acgps_public.Prelude.{
  ℕ, ◌≡◌, refl, sym, subst, ◌∙◌, String, Bool, true, false, not, ◌||◌, List, [], ◌∷◌, All, eq_refl,
  arith,
}
use acgps_public.Py.Result.{ok}
use acgps_public.Py.Value.{pos, Value, int, text, Dict, get, py_eq}
use acgps_public.Workflow.Outcome.{Check, first_of, item}
use acgps_public.Workflow.Passed.{IsTextThat, IsPositive}
use acgps_public.Workflow.AuditEvent.Shape.{IsAuditEvent}
use acgps_public.Workflow.TaskState.Shape.{IsTaskState}
use acgps_public.Tasks.Json.{fail_if}
use acgps_public.Tasks.Pair.{IsPair}
use acgps_public.Tasks.PairCheck.{
  Expectation, expectation, check_head, head_checks, check_expectation, expectation_checks,
  state_is, validate_state_event_pair,
}

-- A list of checks that all pass.
first_of-ok :
    (checks : List (Check (Unit {0}))) → All (λ c. c ≡ ok tt) checks → first_of checks ≡ ok tt
unfolding first_of
first_of-ok [] h = refl
first_of-ok (check ∷ checks) (passed, rest) = rw passed (first_of-ok checks rest)

passes :
    (b : Bool) (code path message : String) → b ≡ true → fail_if (not b) code path message ≡ ok tt
passes true code path message h = refl
passes false code path message h = absurd (cc)

passes_both :
    (b c : Bool) (code path message : String)
    → b ≡ true
    → c ≡ true
    → fail_if (not b || not c) code path message ≡ ok tt
passes_both true true code path message p q = refl
passes_both true false code path message p q = absurd (cc)
passes_both false c code path message p q = absurd (cc)

pub text-equal : {P : String → Type 0} (v w : Value) → IsTextThat P v → v ≡ w → py_eq v w ≡ true
unfolding py_eq
text-equal v w t e =
    subst (λ q. py_eq q w ≡ true) (sym t.is_text)
      (subst (λ q. py_eq (text t.content) q ≡ true) (sym t.is_text ∙ e) (eq_refl t.content))

positive-equal : (v w : Value) → IsPositive v → v ≡ w → py_eq v w ≡ true
unfolding py_eq
positive-equal v w n e =
    subst (λ q. py_eq q w ≡ true) (sym n.is_int)
      (subst (λ q. py_eq (int (pos n.number_of)) q ≡ true) (sym n.is_int ∙ e) (same n.number_of))
  where
    same : (m : ℕ) → py_eq (int (pos m)) (int (pos m)) ≡ true
    same m = ground arith

-- A transition's state, as the store compares it with its event.
pub record IsMove (event state : Dict) : Type 0 where
  pub is_transition : get event "event_type" ≡ text "TRANSITION_ACCEPTED"
  pub same_project : get event "project_id" ≡ get state "project_id"
  pub target : get state "current_state" ≡ get event "to_state"
  pub previous : String
  pub is_previous : get state "previous_state" ≡ text previous
  pub from : get event "from_state" ≡ text previous
  pub transition : String
  pub is_last : get state "last_transition_id" ≡ text transition
  pub names : get event "transition_id" ≡ text transition
  pub evaluation : String
  pub is_evaluation : get state "policy_evaluation_id" ≡ text evaluation
  pub by_policy :
      item (get event "policy_evaluation_binding") "evaluation_id" ≡ ok (text evaluation)

check_head-ok :
    (event state : Dict)
    → IsAuditEvent event
    → IsTaskState state
    → IsPair event state
    → IsMove event state
    → check_head event state ≡ ok tt
unfolding check_head
check_head-ok event state e s p m = first_of-ok (head_checks event state) (
  passes _ _ _ _ (text-equal _ _ e.task_id p.same_task),
  (
    passes _ _ _ _ (text-equal _ _ e.project_id m.same_project),
    (
      passes _ _ _ _ (positive-equal _ _ s.audit_generation p.same_generation),
      (
        passes_both _ _ _ _ _ (text-equal _ _ s.audit_head_event_id p.head_id)
            (text-equal _ _ s.audit_head_hash p.head_hash),
        tt,
      ),
    ),
  ),
)

abbrev expected_of : Dict → String → Expectation
expected_of event evaluation = record {
  current = get event "to_state";
  previous = get event "from_state";
  transition = get event "transition_id";
  evaluation = text evaluation;
}

expectation-move :
    (event state : Dict) (m : IsMove event state)
    → expectation event ≡ ok (expected_of event m.evaluation)
unfolding expectation
expectation-move event state m = rw (m.is_transition, m.by_policy) refl

text_twice : (v w : Value) (s : String) → v ≡ text s → w ≡ text s → py_eq v w ≡ true
unfolding py_eq
text_twice v w s p q = rw (p, q) (eq_refl s)

check_expectation-ok :
    (event state : Dict) (m : IsMove event state)
    → IsTaskState state
    → check_expectation state (expected_of event m.evaluation) ≡ ok tt
unfolding check_expectation state_is
check_expectation-ok event state m s =
    first_of-ok (expectation_checks state (expected_of event m.evaluation)) (
      passes _ _ _ _ (text-equal _ _ s.current_state m.target),
      (
        passes _ _ _ _ (text_twice _ _ _ m.is_previous m.from),
        (
          passes _ _ _ _ (text_twice _ _ _ m.is_last m.names),
          (passes _ _ _ _ (text_twice _ _ _ m.is_evaluation refl), tt),
        ),
      ),
    )

-- The store accepts the event and the state of a move as a pair.
pub validate_state_event_pair-ok :
    (event state : Dict)
    → IsAuditEvent event
    → IsTaskState state
    → IsPair event state
    → IsMove event state
    → validate_state_event_pair event state ≡ ok tt
unfolding validate_state_event_pair
validate_state_event_pair-ok event state e s p m =
    rw (check_head-ok event state e s p m, expectation-move event state m)
      (check_expectation-ok event state m s)
