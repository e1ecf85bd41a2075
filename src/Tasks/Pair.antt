-- ===== src/Tasks/Pair.antt =====
-- The event and the state of a commit, and how the check of the pair makes them agree.
use acgps_public.Prelude.{
  ◌≡◌, refl, ap, sym, subst, ◌∙◌, inl, inr, String, Bool, true, false, not, ◌||◌, Bool-cases,
}
use acgps_public.Py.Result.{ok, raise, >>=-eq-ok, ok-injective}
use acgps_public.Py.Value.{pos, Value, int, text, Dict, Fields, pairs, get, py_eq}
use acgps_public.Workflow.Outcome.{Check, Stop, Outside, item}
use acgps_public.Workflow.Binding.{is_the_text}
use acgps_public.Workflow.AuditEvent.Shape.{PassedEvent, IsAuditEvent}
use acgps_public.Workflow.TaskState.Shape.{PassedState, IsTaskState}
use acgps_public.Workflow.Passed.{
  IsTextThat, IsPositive, first_of-eq-ok, not-eq-false, text-py_eq, py_eq-text, int-py_eq,
  is_the_text-eq-true,
}
use acgps_public.Tasks.Json.{fail_if}
use acgps_public.Tasks.PairCheck.{
  Expectation, expectation, check_head, head_checks, check_expectation, expectation_checks,
  state_is, validate_state_event_pair,
}

pub fail_if-eq-ok :
    (b : Bool) (code path message : String) {u : Unit {0}}
    → fail_if b code path message ≡ ok u
    → b ≡ false
fail_if-eq-ok true code path message h = absurd (cc)
fail_if-eq-ok false code path message h = refl

-- Two `not`s under an `or` that is false.
pub neither : (a b : Bool) → (not a || not b) ≡ false → (a ≡ true) × (b ≡ true)
neither true b h = (refl, not-eq-false b h)
neither false b h = absurd (cc)

-- A text is `==` to itself alone.
pub equal_to_text : {P : String → Type 0} (v w : Value) → IsTextThat P v → py_eq v w ≡ true → v ≡ w
equal_to_text v w t h =
    t.is_text ∙ sym (text-py_eq w t.content (subst (λ q. py_eq q w ≡ true) t.is_text h))

pub text_equal_to : {P : String → Type 0} (v w : Value) → IsTextThat P w → py_eq v w ≡ true → v ≡ w
text_equal_to v w t h =
    py_eq-text v t.content (subst (λ q. py_eq v q ≡ true) t.is_text h) ∙ sym t.is_text

pub equal_numbers : (v w : Value) → IsPositive v → IsPositive w → py_eq v w ≡ true → v ≡ w
equal_numbers v w m n h =
    m.is_int
    ∙ ap (λ q. int (pos q))
        (int-py_eq m.number_of n.number_of (
          subst (λ q. py_eq (int (pos m.number_of)) q ≡ true) n.is_int
            (subst (λ q. py_eq q w ≡ true) m.is_int h)))
    ∙ sym n.is_int

-- The event creates the task in DRAFT, or moves it to its target.
pub data Moves (event state : Dict) : Type 0 where
  creates :
      get event "event_type" ≡ text "TASK_CREATED"
      → get state "current_state" ≡ text "DRAFT"
      → Moves event state
  advances :
      get event "event_type" ≡ text "TRANSITION_ACCEPTED"
      → get state "current_state" ≡ get event "to_state"
      → Moves event state

-- The state is the one that the event leads to.
pub record IsPair (event state : Dict) : Type 0 where
  pub same_task : get event "task_id" ≡ get state "task_id"
  pub same_generation : get state "audit_generation" ≡ get event "generation"
  pub head_id : get state "audit_head_event_id" ≡ get event "event_id"
  pub head_hash : get state "audit_head_hash" ≡ get event "event_hash"
  pub moves : Moves event state

expected_state :
    (state : Dict) (expected : Expectation)
    → check_expectation state expected ≡ ok tt
    → py_eq (get state "current_state") expected.current ≡ true
unfolding check_expectation state_is
expected_state state expected h =
    let (current, _) = first_of-eq-ok (expectation_checks state expected) h in
    not-eq-false _ (fail_if-eq-ok _ _ _ _ current)

moved :
    (event state : Dict) {P : String → Type 0}
    → IsTextThat P (get state "current_state")
    → (expected : Expectation) → expectation event ≡ ok expected
    → py_eq (get state "current_state") expected.current ≡ true
    → Moves event state
unfolding expectation
moved event state t expected h same =
    elim (Bool-cases (is_the_text "TASK_CREATED" (get event "event_type"))) [
      | inl is_created ↦
          let e : text "DRAFT" ≡ expected.current =
            ap (λ (x : Expectation). x.current)
              (ok-injective (rw (is_created, expectation) at h)) in
          creates (is_the_text-eq-true _ _ is_created)
            (py_eq-text _ _ (subst (λ q. py_eq (get state "current_state") q ≡ true) (sym e) same))
      | inr other ↦ elim (Bool-cases (is_the_text "TRANSITION_ACCEPTED" (get event "event_type"))) [
        | inl is_accepted ↦
            let (evaluation_id, _, h₁) =
              >>=-eq-ok (item (get event "policy_evaluation_binding") "evaluation_id") _
                (rw (other, is_accepted, expectation) at h) in
            let e : get event "to_state" ≡ expected.current =
              ap (λ (x : Expectation). x.current) (ok-injective h₁) in
            advances (is_the_text-eq-true _ _ is_accepted) (
              equal_to_text _ _ t
                (subst (λ q. py_eq (get state "current_state") q ≡ true) (sym e) same))
        | inr neither_of ↦ absurd (refused (rw (other, neither_of, expectation) at h))
      ]
    ]
  where
    refused : {stop : Stop} → ◌≡◌ {A = Check Expectation} (raise stop) (ok expected) → ⊥
    refused p = cc

check_head-inv :
    (event state : Dict)
    → IsAuditEvent event
    → IsTaskState state
    → check_head event state ≡ ok tt
    → (get event "task_id" ≡ get state "task_id")
      × (get state "audit_generation" ≡ get event "generation")
      × (get state "audit_head_event_id" ≡ get event "event_id")
      × (get state "audit_head_hash" ≡ get event "event_hash")
unfolding check_head
check_head-inv event state e s h =
    let (task, (_, (generation, (head, _)))) = first_of-eq-ok (head_checks event state) h in
    let (id, hash) = neither _ _ (fail_if-eq-ok _ _ _ _ head) in
    (
      equal_to_text _ _ e.task_id (not-eq-false _ (fail_if-eq-ok _ _ _ _ task)),
      equal_numbers _ _ s.audit_generation e.generation
          (not-eq-false _ (fail_if-eq-ok _ _ _ _ generation)),
      equal_to_text _ _ s.audit_head_event_id id,
      equal_to_text _ _ s.audit_head_hash hash,
    )

pub validate_state_event_pair-inv :
    (event state : Dict)
    → IsAuditEvent event
    → IsTaskState state
    → validate_state_event_pair event state ≡ ok tt
    → IsPair event state
unfolding validate_state_event_pair
validate_state_event_pair-inv event state e s h =
    let (_, head, h₁) = >>=-eq-ok (check_head event state) _ h in
    let (expected, is_expected, h₂) = >>=-eq-ok (expectation event) _ h₁ in
    let (task, generation, id, hash) = check_head-inv event state e s head in
    record {
      same_task = task;
      same_generation = generation;
      head_id = id;
      head_hash = hash;
      moves =
          moved event state s.current_state expected is_expected (expected_state state expected h₂);
    }

-- An event and a state that a commit has accepted.
pub record IsEntry (outside : Outside) (e s : Fields) : Type 0 where
  pub event_passed : PassedEvent outside e
  pub state_passed : PassedState outside s
  pub is_pair : IsPair (pairs e) (pairs s)
