-- ===== src/Policy/Public/Closed.antt =====
-- `evaluate_policy` always answers, and an answer that is no decision authorizes nothing.
use acgps_public.Prelude.{
  ◌≡◌, refl, ◌⊎◌, inl, inr, String, Bool, true, false, Option, none, some, List, [], ◌∷◌,
}
use acgps_public.Py.Result.{ok, raise, ◌>>=◌, >>=-eq-ok, ok-injective}
use acgps_public.Py.Value.{Value, text}
use acgps_public.Policy.Error.{
  Policy, Code, Exn, policy_error, python_type_error, attribute_error, key_error,
}
use acgps_public.Policy.Profile.{Issue}
use acgps_public.Policy.Input.{Bundle, Environment, Input, prevalidate_input}
use acgps_public.Policy.Evaluate.{PolicyResult, fail_closed_result, evaluate_normalized, decision}
use acgps_public.Policy.Evaluate.Inversion.{evaluate_normalized-inv}
use acgps_public.Policy.Public.{
  PublicContext, closed, or_closed, evaluate_with, wrap_public_result, evaluate_policy,
  validate_policy_result_contract, first_issue_or,
}

-- A result that decides nothing: the highest risk, a human gate, no way on, and one error.
pub record IsClosed (r : PolicyResult) : Type 0 where
  pub silent : r.decision_emitted ≡ false
  pub marked : r.fail_closed ≡ true
  pub gated : r.human_gate ≡ true
  pub highest : r.risk_level ≡ text "R3"
  pub no_legal : r.legal_transitions ≡ []
  pub no_authorized : r.authorized_transitions ≡ []
  pub code : Code
  pub has_code : r.error_code ≡ some code

fail_closed_result-IsClosed :
    (code : Code) (path message : String) → IsClosed (fail_closed_result code path message)
unfolding fail_closed_result
fail_closed_result-IsClosed code path message = record {
  silent = refl;
  marked = refl;
  gated = refl;
  highest = refl;
  no_legal = refl;
  no_authorized = refl;
  code = code;
  has_code = refl;
}

closed-IsClosed : (exn : Exn) → IsClosed (closed exn)
closed-IsClosed (policy_error code path message) = fail_closed_result-IsClosed code path message
closed-IsClosed python_type_error = fail_closed_result-IsClosed _ _ _
closed-IsClosed attribute_error = fail_closed_result-IsClosed _ _ _
closed-IsClosed key_error = fail_closed_result-IsClosed _ _ _

-- A decision: the evaluation of an accepted input over the loaded bundle, which passed the contract
-- of results.
pub record IsDecision (env : Environment) (value : Value) (loaded : Policy Bundle)
    (r : PolicyResult) : Type 0 where
  pub bundle : Bundle
  pub is_loaded : loaded ≡ ok bundle
  pub input : Input
  pub accepted : prevalidate_input env value bundle ≡ ok input
  pub evaluated : evaluate_normalized input bundle ≡ ok r
  pub conforms : validate_policy_result_contract env r bundle ≡ ok tt
  pub emitted : r.decision_emitted ≡ true
  pub not_closed : r.fail_closed ≡ false

decision_emits :
    (input : Input) (bundle : Bundle) {r : PolicyResult}
    → evaluate_normalized input bundle ≡ ok r
    → (r.decision_emitted ≡ true) × (r.fail_closed ≡ false)
unfolding decision
decision_emits input bundle h =
    let (_, _, _, _, same) = evaluate_normalized-inv input bundle h in
    (rw (← same) refl, rw (← same) refl)

evaluate_with-IsDecision :
    (env : Environment) (value : Value) (bundle : Bundle) (r : PolicyResult)
    → evaluate_with env value bundle ≡ ok r
    → IsDecision env value (ok bundle) r
unfolding evaluate_with
evaluate_with-IsDecision env value bundle r h =
    let (input, e₁, h₁) = >>=-eq-ok (prevalidate_input env value bundle) _ h in
    let (r', e₂, h₂) = >>=-eq-ok (evaluate_normalized input bundle) _ h₁ in
    let (_, e₃, h₃) = >>=-eq-ok (validate_policy_result_contract env r' bundle) _ h₂ in
    let same : r' ≡ r = ok-injective h₃ in
    let evaluated : evaluate_normalized input bundle ≡ ok r = rw e₂ (rw same refl) in
    let (emits, is_open) = decision_emits input bundle evaluated in
    record {
      bundle = bundle;
      is_loaded = refl;
      input = input;
      accepted = e₁;
      evaluated = evaluated;
      conforms = rw (← same) e₃;
      emitted = emits;
      not_closed = is_open;
    }

abbrev Settled : Environment → Value → Policy Bundle → PolicyResult → Type 0
Settled env value loaded r = IsClosed r ⊎ IsDecision env value loaded r

or_closed-Settled :
    (env : Environment) (value : Value) (bundle : Bundle) (m : Policy PolicyResult)
    → evaluate_with env value bundle ≡ m
    → Settled env value (ok bundle) (or_closed m)
or_closed-Settled env value bundle (ok r) e = inr (evaluate_with-IsDecision env value bundle r e)
or_closed-Settled env value bundle (raise exn) e = inl (closed-IsClosed exn)

loaded-Settled :
    (env : Environment) (value : Value) (loaded : Policy Bundle)
    → Settled env value loaded (or_closed (loaded >>= λ bundle. evaluate_with env value bundle))
loaded-Settled env value (ok bundle) =
    or_closed-Settled env value bundle (evaluate_with env value bundle) refl
loaded-Settled env value (raise exn) = inl (closed-IsClosed exn)

wrap-Settled :
    (env : Environment) (value : Value) (loaded : Policy Bundle) (context : Option PublicContext)
    (digest : Option String) (r : PolicyResult)
    → Settled env value loaded r
    → Settled env value loaded (wrap_public_result env context digest r).result
unfolding wrap_public_result
wrap-Settled env value loaded none digest r s = s
wrap-Settled env value loaded (some context) digest r s = first r (env.contract_issues _ _) s
  where
    first :
        (q : PolicyResult) (issues : List Issue)
        → Settled env value loaded q
        → Settled env value loaded (first_issue_or q issues)
    first q [] k = k
    first q (issue ∷ issues) k = inl (fail_closed_result-IsClosed _ _ _)

-- For every record and every outcome of loading the policy files, the result is either closed, or
-- the decision that the evaluator made for an accepted input and that passed the result contract.
pub evaluate_policy-Settled :
    (env : Environment) (is_timestamp : String → Bool) (value : Value) (loaded : Policy Bundle)
    → IsClosed (evaluate_policy env is_timestamp value loaded).result
      ⊎ IsDecision env value loaded (evaluate_policy env is_timestamp value loaded).result
unfolding evaluate_policy
evaluate_policy-Settled env is_timestamp value loaded =
    wrap-Settled env value loaded _ _ _ (loaded-Settled env value loaded)
