-- ===== src/Workflow/Request/Authorized.antt =====
-- What authorizes a transition request that passes its check.
use acgps_public.Prelude.{
  ◌≡◌, refl, ap, sym, subst, ◌∙◌, inl, inr, String, Bool, true, false, not, ◌&&◌, ◌||◌, List, [],
  ◌∷◌, any, mem, Bool-cases, arith,
}
use acgps_public.Py.Result.{ok, >>=-eq-ok}
use acgps_public.Py.Value.{Value, null, text, Dict, get, py_eq, is_bool}
use acgps_public.Policy.Vocabulary.{task_states}
use acgps_public.Workflow.Outcome.{Outside, first_of, require_mapping, refuse_if}
use acgps_public.Workflow.Vocabulary.{human_gate_authorized_transitions}
use acgps_public.Workflow.Binding.{is_the_text}
use acgps_public.Workflow.Binding.PolicyResult.{
  validate_policy_evaluation_binding, policy_binding_checks, check_authorization,
  authorization_checks, is_unique_state_list, elements, beyond_gate, is_true,
}
use acgps_public.Workflow.Binding.Decision.{
  Expected, differs, validate_human_decision_resolution_binding, decision_binding_checks,
  check_expected, expected_checks,
}
use acgps_public.Workflow.Passed.{
  IsTextThat, first_of-eq-ok, refuse_if-eq-ok, not-eq-false, require_mapping-eq-ok,
  require_member-eq-ok, text-py_eq, py_eq-text, is_null-eq-true, require_safe_id-eq-ok,
}
use acgps_public.Workflow.Request.{
  validate_transition_request, request_checks, check_request_policy, request_policy_checks,
  check_request_decision, check_request_fields, request_fields_checks, mapping_of,
}

-- Behind a human gate, the only states that a policy binding authorizes are the pause states.
check_authorization-gated :
    (d : Dict)
    → check_authorization d ≡ ok tt
    → is_true (get d "human_gate") ≡ true
    → any beyond_gate (elements (get d "authorized_transitions")) ≡ false
unfolding check_authorization
check_authorization-gated d h gated =
    let (_, _, h₁) = >>=-eq-ok (refuse_if (not (is_bool (get d "human_gate"))) _ _ _) _ h in
    let (unique, _, h₂) = >>=-eq-ok (is_unique_state_list (get d "authorized_transitions")) _ h₁ in
    let (_, (gate, _)) = first_of-eq-ok (authorization_checks d unique) h₂ in
    under _ _ gated (refuse_if-eq-ok _ _ _ _ gate)
  where
    under : (a b : Bool) → a ≡ true → (a && b) ≡ false → b ≡ false
    under true b e p = p
    under false b e p = absurd (cc)

-- A text that is among the values passes the test that none of them fails.
none-fails :
    (s : String) (test : Value → Bool) (vs : List Value)
    → any (py_eq (text s)) vs ≡ true
    → any test vs ≡ false
    → test (text s) ≡ false
none-fails s test [] p q = absurd (cc)
none-fails s test (v ∷ vs) p q = elim (Bool-cases (py_eq (text s) v)) [
  | inl same ↦ subst (λ w. test w ≡ false) (text-py_eq v s same) (left _ _ q)
  | inr other ↦ none-fails s test vs (rest _ _ other p) (right _ _ q)
]
  where
    left : (a b : Bool) → (a || b) ≡ false → a ≡ false
    left a b h = ground arith

    right : (a b : Bool) → (a || b) ≡ false → b ≡ false
    right a b h = ground arith

    rest : (a b : Bool) → a ≡ false → (a || b) ≡ true → b ≡ true
    rest a b e h = ground arith

validate_policy-gated :
    (outside : Outside) (v : Value)
    → validate_policy_evaluation_binding outside v ≡ ok tt
    → is_true (get (mapping_of v) "human_gate") ≡ true
    → any beyond_gate (elements (get (mapping_of v) "authorized_transitions")) ≡ false
unfolding validate_policy_evaluation_binding
validate_policy-gated outside v h gated =
    let (d, mapping, h₁) = >>=-eq-ok (require_mapping v _ _ _) _ h in
    let (fields, is_dict, e) = require_mapping-eq-ok v _ _ _ mapping in
    let (_, (_, (authorization, _))) = first_of-eq-ok (policy_binding_checks outside d) h₁ in
    let same : mapping_of v ≡ d = ap mapping_of is_dict ∙ e in
    subst (λ (q : Dict). any beyond_gate (elements (get q "authorized_transitions")) ≡ false)
      (sym same)
      (check_authorization-gated d authorization
        (subst (λ (q : Dict). is_true (get q "human_gate") ≡ true) same gated))

-- An expected value that is a text is the one that the decision has.
differs-text :
    (expected actual : Value) {P : String → Type 0}
    → IsTextThat P expected
    → differs expected actual ≡ false
    → actual ≡ expected
differs-text expected actual t h =
    py_eq-text actual t.content (not-eq-false _ (subst (λ q. differs q actual ≡ false) t.is_text h))
    ∙ sym t.is_text

-- The decision is one for the expected target, project and task.
pub record IsFor (decision request : Dict) : Type 0 where
  pub target : get decision "authorized_target_state" ≡ get request "to_state"
  pub project : get decision "project_id" ≡ get request "project_id"
  pub task : get decision "task_id" ≡ get request "task_id"

validate_decision-IsFor :
    (outside : Outside) (v : Value) (d : Dict) (expected : Expected) {P Q R : String → Type 0}
    → IsTextThat P expected.target_state
    → IsTextThat Q expected.project_id
    → IsTextThat R expected.task_id
    → expected.target_state ≡ get d "to_state"
    → expected.project_id ≡ get d "project_id"
    → expected.task_id ≡ get d "task_id"
    → validate_human_decision_resolution_binding outside v expected ≡ ok tt
    → IsFor (mapping_of v) d
unfolding validate_human_decision_resolution_binding check_expected
validate_decision-IsFor outside v d expected to project task a b c h =
    let (r, mapping, h₁) = >>=-eq-ok (require_mapping v _ _ _) _ h in
    let (fields, is_dict, e) = require_mapping-eq-ok v _ _ _ mapping in
    let (_, (_, (checked, _))) = first_of-eq-ok (decision_binding_checks outside r expected) h₁ in
    let (same_target, (same_project, (same_task, _))) =
      first_of-eq-ok (expected_checks r expected) checked in
    subst (λ (q : Dict). IsFor q d) (sym (ap mapping_of is_dict ∙ e))
      (record {
        target = differs-text _ _ to (refuse_if-eq-ok _ _ _ _ same_target) ∙ a;
        project = differs-text _ _ project (refuse_if-eq-ok _ _ _ _ same_project) ∙ b;
        task = differs-text _ _ task (refuse_if-eq-ok _ _ _ _ same_task) ∙ c;
      })

-- What authorizes the request `d`: its policy binding, and a human decision from WAITING_HUMAN.
pub record IsAuthorized (d : Dict) : Type 0 where
  pub target : IsTextThat (λ s. mem s task_states ≡ true) (get d "to_state")
  pub by_policy :
      any
        (py_eq (get d "to_state"))
        (elements (get (mapping_of (get d "policy_evaluation_binding")) "authorized_transitions"))
      ≡ true
  pub behind_gate :
      is_true (get (mapping_of (get d "policy_evaluation_binding")) "human_gate") ≡ true
      → mem target.content human_gate_authorized_transitions ≡ true
  pub by_human :
      is_the_text "WAITING_HUMAN" (get d "from_state") ≡ true
      → IsFor (mapping_of (get d "decision_resolution_binding")) d
  pub not_by_human :
      is_the_text "WAITING_HUMAN" (get d "from_state") ≡ false
      → get d "decision_resolution_binding" ≡ null

check_request_decision-inv :
    (outside : Outside) (d : Dict) {P Q R : String → Type 0}
    → IsTextThat P (get d "to_state")
    → IsTextThat Q (get d "project_id")
    → IsTextThat R (get d "task_id")
    → check_request_decision outside d ≡ ok tt
    → (is_the_text "WAITING_HUMAN" (get d "from_state") ≡ true
        → IsFor (mapping_of (get d "decision_resolution_binding")) d)
      × (is_the_text "WAITING_HUMAN" (get d "from_state") ≡ false
          → get d "decision_resolution_binding" ≡ null)
unfolding check_request_decision
check_request_decision-inv outside d to project task h = (
  λ waits.
      validate_decision-IsFor outside (get d "decision_resolution_binding") d _ to project task refl
        refl refl (rw (waits, check_request_decision) at h),
  λ other.
      is_null-eq-true _
        (not-eq-false _ (refuse_if-eq-ok _ _ _ _ (rw (other, check_request_decision) at h))),
)

check_request_policy-inv :
    (outside : Outside) (d : Dict)
    → check_request_policy outside d ≡ ok tt
    → (validate_policy_evaluation_binding outside (get d "policy_evaluation_binding") ≡ ok tt)
      × (any (py_eq (get d "to_state")) (
            elements
              (get (mapping_of (get d "policy_evaluation_binding")) "authorized_transitions"))
          ≡ true)
unfolding check_request_policy
check_request_policy-inv outside d h =
    let (policy, (_, (_, (authorized, _)))) = first_of-eq-ok (request_policy_checks outside d) h in
    (policy, not-eq-false _ (refuse_if-eq-ok _ _ _ _ authorized))

request_checks-IsAuthorized :
    (outside : Outside) (d : Dict) → first_of (request_checks outside d) ≡ ok tt → IsAuthorized d
unfolding check_request_fields
request_checks-IsAuthorized outside d h =
    let (_, (plain, (policy, (decision, _)))) = first_of-eq-ok (request_checks outside d) h in
    let (_, (_, (task, (project, (_, (_, (to, _))))))) =
      first_of-eq-ok (request_fields_checks outside d) plain in
    let target = require_member-eq-ok _ task_states "to_state" "WORKFLOW_UNKNOWN_STATE" to in
    let (policy_passed, by_policy) = check_request_policy-inv outside d policy in
    let (by_human, not_by_human) =
      check_request_decision-inv outside d target (require_safe_id-eq-ok _ _ project)
        (require_safe_id-eq-ok _ _ task) decision in
    record {
      target = target;
      by_policy = by_policy;
      behind_gate = λ gated. not-eq-false _ (
          none-fails target.content beyond_gate
            (elements
              (get (mapping_of (get d "policy_evaluation_binding")) "authorized_transitions"))
            (subst
              (λ v.
                any (py_eq v) (
                  elements
                    (get (mapping_of (get d "policy_evaluation_binding")) "authorized_transitions"))
                ≡ true)
              target.is_text by_policy)
            (validate_policy-gated outside _ policy_passed gated));
      by_human = by_human;
      not_by_human = not_by_human;
    }

-- A transition request that passes its check moves to a declared state that its policy binding
-- authorizes, which behind a human gate is WAITING_HUMAN or ABANDONED. From WAITING_HUMAN it carries
-- a human decision for that target, project and task, and from another state it carries none.
pub validate_transition_request-IsAuthorized :
    (outside : Outside) (v : Value)
    → validate_transition_request outside v ≡ ok tt
    → IsAuthorized (mapping_of v)
unfolding validate_transition_request
validate_transition_request-IsAuthorized outside v h =
    let (d, mapping, h₁) = >>=-eq-ok (require_mapping v _ _ _) _ h in
    let (fields, is_dict, e) = require_mapping-eq-ok v _ _ _ mapping in
    subst IsAuthorized (sym (ap mapping_of is_dict ∙ e)) (request_checks-IsAuthorized outside d h₁)
