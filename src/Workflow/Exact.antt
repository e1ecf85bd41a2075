-- ===== src/Workflow/Exact.antt =====
-- `_validate_exact_mapping` of acgps/workflow_contracts.py accepts exactly the mappings with the
-- fields that it is given.
use acgps_public.Prelude.{
  ◌≡◌, refl, sym, ◌∙◌, String, Bool, true, not, List, [], ◌∷◌, mem, All, eq_refl, arith,
}
use acgps_public.Py.Result.{ok, for_each, >>=-eq-ok}
use acgps_public.Py.Laws.{All-mem, for_each-All, has-eq-mem-keys}
use acgps_public.Py.Value.{Dict, has, keys}
use acgps_public.Workflow.Outcome.{
  Outside, Check, refuse_if, validate_exact_mapping, first_of, with_code,
}
use acgps_public.Workflow.Passed.{refuse_if-eq-ok, not-eq-false}

-- The order in which a set is iterated has the members of the set.
pub record IsIteration (outside : Outside) : Type 0 where
  pub members : (names : List String) (s : String) → mem s (outside.iteration names) ≡ mem s names

pub record HasExactly (d : Dict) (allowed : List String) : Type 0 where
  pub complete : (k : String) → mem k allowed ≡ true → has k d ≡ true
  pub known : (k : String) → has k d ≡ true → mem k allowed ≡ true

-- What each round passes, the loop passes.
for_each-passes :
    (xs : List String) (body : String → Check (Unit {0}))
    → ((x : String) → mem x xs ≡ true → body x ≡ ok tt)
    → for_each xs body ≡ ok tt
unfolding for_each mem
for_each-passes [] body each = refl
for_each-passes (x ∷ xs) body each =
    rw (each x (ground (arith, eq_refl x))) (for_each-passes xs body (λ y m. each y (ground arith)))

refuse_if-passes :
    (b : Bool) (code path message : String) → b ≡ true → refuse_if (not b) code path message ≡ ok tt
unfolding refuse_if
refuse_if-passes b code path message e = rw e refl

pub validate_exact_mapping-HasExactly :
    (outside : Outside) (d : Dict) (allowed : List String) (label prefix : String)
    → IsIteration outside
    → validate_exact_mapping outside d allowed label prefix ≡ ok tt
    → HasExactly d allowed
unfolding validate_exact_mapping
validate_exact_mapping-HasExactly outside d allowed label prefix iteration h =
    let (_, unknown, missing) = >>=-eq-ok (for_each (keys d) _) _ h in
    let no_unknown =
      for_each-All (λ k. mem k allowed ≡ true) (keys d) _
        (λ k e. not-eq-false _ (refuse_if-eq-ok _ _ _ _ e)) unknown in
    let no_missing =
      for_each-All (λ k. has k d ≡ true) (outside.iteration allowed) _
        (λ k e. not-eq-false _ (refuse_if-eq-ok _ _ _ _ e)) missing in
    record {
      complete = λ k m.
          All-mem (λ k. has k d ≡ true) (outside.iteration allowed) k no_missing
            (iteration.members allowed k ∙ m);
      known = λ k m.
          All-mem (λ k. mem k allowed ≡ true) (keys d) k no_unknown (sym (has-eq-mem-keys k d) ∙ m);
    }

pub HasExactly-validate_exact_mapping :
    (outside : Outside) (d : Dict) (allowed : List String) (label prefix : String)
    → IsIteration outside
    → HasExactly d allowed
    → validate_exact_mapping outside d allowed label prefix ≡ ok tt
unfolding validate_exact_mapping
HasExactly-validate_exact_mapping outside d allowed label prefix iteration h =
    rw
      (for_each-passes (keys d) _
        (λ k m. refuse_if-passes _ _ _ _ (h.known k (has-eq-mem-keys k d ∙ m))))
      (for_each-passes (outside.iteration allowed) _
        (λ k m. refuse_if-passes _ _ _ _ (h.complete k (sym (iteration.members allowed k) ∙ m))))

-- A list of checks that pass.
pub first_of-passes :
    (checks : List (Check (Unit {0}))) → All (λ c. c ≡ ok tt) checks → first_of checks ≡ ok tt
unfolding first_of
first_of-passes [] h = refl
first_of-passes (check ∷ checks) h = rw h.0 (first_of-passes checks h.1)

pub with_code-passes :
    (call : Check (Unit {0})) (code : String) → call ≡ ok tt → with_code call code ≡ ok tt
unfolding with_code
with_code-passes call code e = rw e refl
