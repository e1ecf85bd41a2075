-- ===== src/Tasks/Evaluation.antt =====
-- The policy evaluation that two equal bindings of acgps/workflow_contracts.py name.
use acgps_public.Prelude.{
  ◌≡◌, refl, ap, subst, ◌∙◌, ◌&&◌, String, Bool, true, false, Option, none, some, ◌==◌, Bool-cases,
  inl, inr, Option-cases,
}
use acgps_public.Py.Result.{ok, >>=-eq-ok}
use acgps_public.Py.Value.{
  Value, null, bool, int, text, seq, dict, Fields, end, field, Dict, get, pairs, lookup, py_eq,
  eq_fields, or_null,
}
use acgps_public.Workflow.Outcome.{Outside, item, require_mapping}
use acgps_public.Workflow.Binding.PolicyResult.{
  validate_policy_evaluation_binding, policy_binding_checks, check_policy_fields,
  policy_fields_checks,
}
use acgps_public.Workflow.Passed.{
  IsTextThat, first_of-eq-ok, with_code-eq-ok, require_mapping-eq-ok, require_safe_id-eq-ok,
  text-py_eq,
}
use acgps_public.Slot.State.{is_safe_id}
use acgps_public.Py.Laws.{eq_of_==}
use acgps_public.Workflow.Request.{mapping_of}

and_both : (a b : Bool) → (a && b) ≡ true → (a ≡ true) × (b ≡ true)
and_both true b h = (refl, h)
and_both false b h = absurd (cc)

some-injective : {a b : Value} → ◌≡◌ {A = Option Value} (some a) (some b) → a ≡ b
some-injective h = cc

abbrev match_of : Value → Fields → Dict → Option Value → Bool
match_of v fs d o = elim o [ none ↦ false | some w ↦ py_eq v w && eq_fields fs d ]

-- A text of a mapping is in every mapping that it equals.
eq_fields-text :
    (fs : Fields) (d : Dict) (k s : String)
    → eq_fields fs d ≡ true
    → lookup k (pairs fs) ≡ some (text s)
    → lookup k d ≡ some (text s)
unfolding eq_fields lookup pairs
eq_fields-text end d k s h found = absurd (cc)
eq_fields-text (field j v fs) d k s h found = elim (Option-cases (lookup j d)) [
  | inl missing ↦ absurd (clash (subst (λ o. match_of v fs d o ≡ true) missing h))
  | inr (w, there) ↦
      let (same, rest) =
        and_both (py_eq v w) (eq_fields fs d) (subst (λ o. match_of v fs d o ≡ true) there h) in
      elim (Bool-cases (k == j)) [
        | inl here ↦
            let is_v : v ≡ text s = some-injective (rw here at found) in
            let is_w : w ≡ text s = text-py_eq w s (subst (λ q. py_eq q w ≡ true) is_v same) in
            ap (λ q. lookup q d) (eq_of_== k j here) ∙ there ∙ ap (λ q. some q) is_w
        | inr other ↦ eq_fields-text fs d k s rest (rw other at found)
      ]
]
  where
    clash : false ≡ true → ⊥
    clash e = cc

-- An evaluation that a binding names is named by every binding that equals it.
pub same_evaluation :
    (v w : Value) (s : String)
    → py_eq v w ≡ true
    → get (mapping_of v) "evaluation_id" ≡ text s
    → get (mapping_of w) "evaluation_id" ≡ text s
unfolding py_eq get lookup
same_evaluation (dict fs) (dict gs) s h e =
    let (_, fields) = and_both _ (eq_fields fs (pairs gs)) h in
    ap or_null (
      eq_fields-text fs (pairs gs) "evaluation_id" s fields
        (found (lookup "evaluation_id" (pairs fs)) e))
  where
    found : (o : Option Value) → or_null o ≡ text s → o ≡ some (text s)
    found none p = absurd (cc)
    found (some v) p = ap (λ q. some q) p
same_evaluation (dict fs) null s h e = absurd (cc)
same_evaluation (dict fs) (bool b) s h e = absurd (cc)
same_evaluation (dict fs) (int n) s h e = absurd (cc)
same_evaluation (dict fs) (text t) s h e = absurd (cc)
same_evaluation (dict fs) (seq vs) s h e = absurd (cc)
same_evaluation null w s h e = absurd (cc)
same_evaluation (bool b) w s h e = absurd (cc)
same_evaluation (int n) w s h e = absurd (cc)
same_evaluation (text t) w s h e = absurd (cc)
same_evaluation (seq vs) w s h e = absurd (cc)

item-text :
    (fields : Fields) (key s : String)
    → get (pairs fields) key ≡ text s
    → item (dict fields) key ≡ ok (text s)
unfolding item get
item-text fields key s h = elim (Option-cases (lookup key (pairs fields))) [
  | inl missing ↦ absurd (clash (rw missing at h))
  | inr (v, there) ↦ rw (there, item) (ap (λ q. ok q) (rw there at h))
]
  where
    clash : null ≡ text s → ⊥
    clash e = cc

check_policy_fields-id :
    (outside : Outside) (d : Dict)
    → check_policy_fields outside d ≡ ok tt
    → IsTextThat (λ s. is_safe_id s ≡ true) (get d "evaluation_id")
unfolding check_policy_fields
check_policy_fields-id outside d h =
    let (_, (id, _)) = first_of-eq-ok (policy_fields_checks outside d) h in
    require_safe_id-eq-ok _ _ id

pub validate_policy-evaluation :
    (outside : Outside) (v : Value)
    → validate_policy_evaluation_binding outside v ≡ ok tt
    → (s : String) × (get (mapping_of v) "evaluation_id" ≡ text s)
      × (item v "evaluation_id" ≡ ok (text s))
unfolding validate_policy_evaluation_binding
validate_policy-evaluation outside v h =
    let (d, mapping, h₁) = >>=-eq-ok (require_mapping v _ _ _) _ h in
    let (fields, is_dict, e) = require_mapping-eq-ok v _ _ _ mapping in
    let (_, (plain, _)) = first_of-eq-ok (policy_binding_checks outside d) h₁ in
    let id = check_policy_fields-id outside d (with_code-eq-ok _ _ plain) in
    let named : get (pairs fields) "evaluation_id" ≡ text id.content =
      ap (λ (q : Dict). get q "evaluation_id") e ∙ id.is_text in
    (
      id.content,
      ap (λ q. get (mapping_of q) "evaluation_id") is_dict ∙ named,
      ap (λ q. item q "evaluation_id") is_dict ∙ item-text fields "evaluation_id" id.content named,
    )
