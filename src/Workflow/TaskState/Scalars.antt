-- ===== src/Workflow/TaskState/Scalars.antt =====
-- The fields of a task state are scalars, and its check reads nothing else.
use acgps_public.Prelude.{
  ◌≡◌, refl, sym, subst, ◌∙◌, inl, inr, String, Bool, true, false, All, Bool-cases,
}
use acgps_public.Py.Result.{ok}
use acgps_public.Py.Value.{
  Value, null, bool, int, text, seq, dict, Dict, Fields, pairs, get, has, is_null,
}
use acgps_public.Py.Laws.{All-map}
use acgps_public.Policy.Vocabulary.{task_states}
use acgps_public.Workflow.Outcome.{
  Outside, validate_schema_version, validate_utc, invalid_outcome, require_mapping,
}
use acgps_public.Workflow.Vocabulary.{task_state_fields}
use acgps_public.Workflow.Exact.{
  IsIteration, validate_exact_mapping-HasExactly, HasExactly-validate_exact_mapping,
  first_of-passes, with_code-passes,
}
use acgps_public.Workflow.Passed.{
  IsTextThat, first_of-eq-ok, with_code-eq-ok, refuse_if-eq-ok, not-eq-false, require_safe_id-eq-ok,
  require_sha-eq-ok, require_positive_int-eq-ok, require_member-eq-ok,
}
use acgps_public.Workflow.TaskState.{
  validate_task_state, task_state_checks, check_state_fields, state_fields_checks, check_pending,
  pending_checks, is_optional_state, optional_safe_id,
}

abbrev pub is_scalar : Value → Bool
is_scalar (seq vs) = false
is_scalar (dict d) = false
is_scalar _ = true

text-scalar : {P : String → Type 0} (v : Value) → IsTextThat P v → is_scalar v ≡ true
text-scalar v t = subst (λ q. is_scalar q ≡ true) (sym t.is_text) refl

version-scalar :
    (v : Value) (path : String) {u : Unit {0}}
    → validate_schema_version v path ≡ ok u
    → is_scalar v ≡ true
unfolding validate_schema_version invalid_outcome
version-scalar (int n) path h = refl
version-scalar null path h = refl
version-scalar (bool b) path h = refl
version-scalar (text s) path h = refl
version-scalar (seq vs) path h = absurd (cc)
version-scalar (dict d) path h = absurd (cc)

utc-scalar :
    (outside : Outside) (v : Value) (path : String) {u : Unit {0}}
    → validate_utc outside v path ≡ ok u
    → is_scalar v ≡ true
unfolding validate_utc invalid_outcome
utc-scalar outside (int n) path h = refl
utc-scalar outside null path h = refl
utc-scalar outside (bool b) path h = refl
utc-scalar outside (text s) path h = refl
utc-scalar outside (seq vs) path h = absurd (cc)
utc-scalar outside (dict d) path h = absurd (cc)

optional_state-scalar : (v : Value) → is_optional_state v ≡ true → is_scalar v ≡ true
optional_state-scalar (int n) h = refl
optional_state-scalar null h = refl
optional_state-scalar (bool b) h = refl
optional_state-scalar (text s) h = refl
optional_state-scalar (seq vs) h = absurd (cc)
optional_state-scalar (dict d) h = absurd (cc)

null-scalar : (v : Value) → is_null v ≡ true → is_scalar v ≡ true
null-scalar null h = refl
null-scalar (int n) h = refl
null-scalar (bool b) h = refl
null-scalar (text s) h = refl
null-scalar (seq vs) h = absurd (cc)
null-scalar (dict d) h = absurd (cc)

optional_id-scalar :
    (d : Dict) (name : String) → optional_safe_id d name ≡ ok tt → is_scalar (get d name) ≡ true
unfolding optional_safe_id
optional_id-scalar d name h = elim (Bool-cases (is_null (get d name))) [
  | inl none ↦ null-scalar (get d name) none
  | inr there ↦
      text-scalar (get d name) (require_safe_id-eq-ok _ _ (rw (there, optional_safe_id) at h))
]

-- Every field of a task state that passes is a scalar.
fields-scalar :
    (outside : Outside) (d : Dict)
    → check_state_fields outside d ≡ ok tt
    → check_pending d ≡ ok tt
    → All (λ k. is_scalar (get d k) ≡ true) task_state_fields
unfolding check_state_fields check_pending
fields-scalar outside d h p =
    let (version, (task, (project, (current, (generation, (event, (hash, (utc, _)))))))) =
      first_of-eq-ok (state_fields_checks outside d) h in
    let (previous, (_, (_, (last, (evaluation, (pending, _)))))) =
      first_of-eq-ok (pending_checks d) p in
    (
      version-scalar _ _ version,
      (
        text-scalar _ (require_safe_id-eq-ok _ _ task),
        (
          text-scalar _ (require_safe_id-eq-ok _ _ project),
          (
            text-scalar _ (
                require_member-eq-ok _ task_states "current_state" "WORKFLOW_UNKNOWN_STATE"
                  current),
            (
              optional_state-scalar _ (not-eq-false _ (refuse_if-eq-ok _ _ _ _ previous)),
              (
                optional_id-scalar _ _ (with_code-eq-ok _ _ last),
                (
                  subst (λ v. is_scalar v ≡ true)
                      (sym
                        (require_positive_int-eq-ok (get d "audit_generation") _ generation).is_int)
                      refl,
                  (
                    text-scalar _ (require_safe_id-eq-ok _ _ event),
                    (
                      text-scalar _ (require_sha-eq-ok _ _ hash),
                      (
                        optional_id-scalar _ _ (with_code-eq-ok _ _ evaluation),
                        (
                          optional_id-scalar _ _ (with_code-eq-ok _ _ pending),
                          (utc-scalar outside _ _ utc, tt),
                        ),
                      ),
                    ),
                  ),
                ),
              ),
            ),
          ),
        ),
      ),
    )

-- Two mappings with the same keys and the same scalars.
pub record LooksLike (d e : Dict) : Type 0 where
  pub same_keys : (k : String) → has k d ≡ has k e
  pub same_scalars : (k : String) → is_scalar (get e k) ≡ true → get d k ≡ get e k

check_state_fields-same :
    (outside : Outside) (d e : Dict)
    → All (λ k. get d k ≡ get e k) task_state_fields
    → (check_state_fields outside d ≡ check_state_fields outside e)
      × (check_pending d ≡ check_pending e)
unfolding check_state_fields check_pending optional_safe_id
check_state_fields-same outside d e h =
    let (a, (b, (c, (f, (g, (i, (j, (k, (l, (m, (n, (o, _)))))))))))) = h in
    (rw (a, b, c, f, j, k, l, o) refl, rw (f, g, i, m, n) refl)

-- What is checked of a mapping is checked of one that looks like it.
pub validate_task_state-LooksLike :
    (outside : Outside) (f g : Fields)
    → IsIteration outside
    → LooksLike (pairs g) (pairs f)
    → validate_task_state outside (dict f) ≡ ok tt
    → validate_task_state outside (dict g) ≡ ok tt
unfolding validate_task_state require_mapping
validate_task_state-LooksLike outside f g iteration like h =
    let (exact, (plain, (pending, _))) = first_of-eq-ok (task_state_checks outside (pairs f)) h in
    let scalars = fields-scalar outside (pairs f) (with_code-eq-ok _ _ plain) pending in
    let same = check_state_fields-same outside (pairs g) (pairs f) (
      All-map _ (λ k. get (pairs g) k ≡ get (pairs f) k) task_state_fields like.same_scalars
        scalars) in
    let has =
      validate_exact_mapping-HasExactly outside (pairs f) task_state_fields "task state" ""
        iteration (with_code-eq-ok _ _ exact) in
    first_of-passes (task_state_checks outside (pairs g)) (
      with_code-passes _ _ (
          HasExactly-validate_exact_mapping outside (pairs g) task_state_fields "task state" ""
            iteration
            (record {
              complete = λ k m. like.same_keys k ∙ has.complete k m;
              known = λ k m. has.known k (sym (like.same_keys k) ∙ m);
            })),
      (with_code-passes _ _ (same.0 ∙ with_code-eq-ok _ _ plain), (same.1 ∙ pending, tt)),
    )
