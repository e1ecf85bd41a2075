-- ===== src/Policy/Fields/Exact.antt =====
-- `_require_exact_fields` accepts exactly the mappings with the fields that it is given.
use acgps_public.Prelude.{
  ◌≡◌, ◌↔◌, refl, String, true, false, not, ◌&&◌, List, [], arith, mem, Option-cases, inl, inr,
}
use acgps_public.Py.Result.{ok, >>=-eq-ok}
use acgps_public.Py.Text.{least, keep}
use acgps_public.Py.Laws.{least-eq-none, keep-eq-nil, keep-eq-nil_of, has-eq-mem-keys}
use acgps_public.Py.Value.{Dict, has, keys}
use acgps_public.Policy.Error.{Exn}
use acgps_public.Policy.Fields.{fail_at_least, require_exact_fields}

pub fail_at_least-nil :
    (ss : List String) (error : String → Exn) → fail_at_least ss error ≡ ok tt → ss ≡ []
fail_at_least-nil ss error h = elim (Option-cases (least ss)) [
  | inl e ↦ least-eq-none ss e
  | inr (s, e) ↦ absurd (ground arith)
]

fail_at_least-ok :
    (ss : List String) (error : String → Exn) → ss ≡ [] → fail_at_least ss error ≡ ok tt
unfolding least
fail_at_least-ok ss error e = rw e refl

-- The mapping has every field that is allowed and may not be missing, and no other than the allowed.
pub record HasFields (doc : Dict) (allowed allow_missing : List String) : Type 0 where
  pub complete :
      (f : String) → mem f allowed ≡ true → mem f allow_missing ≡ false → has f doc ≡ true
  pub known : (f : String) → has f doc ≡ true → mem f allowed ≡ true

pub require_exact_fields-HasFields :
    (doc : Dict) (allowed : List String) (path : String) (allow_missing : List String)
    → require_exact_fields doc allowed path allow_missing ≡ ok tt
    → HasFields doc allowed allow_missing
unfolding require_exact_fields
require_exact_fields-HasFields doc allowed path allow_missing h =
    let (_, e, k) = >>=-eq-ok (fail_at_least (keep _ allowed) _) _ h in
    let no_missing = fail_at_least-nil _ _ e in
    let no_unknown = fail_at_least-nil _ _ k in
    record {
      complete = λ f m n. ground (arith, keep-eq-nil _ allowed f no_missing m);
      known = λ f m. ground (arith, keep-eq-nil _ (keys doc) f no_unknown, has-eq-mem-keys f doc);
    }

HasFields-require_exact_fields :
    (doc : Dict) (allowed : List String) (path : String) (allow_missing : List String)
    → HasFields doc allowed allow_missing
    → require_exact_fields doc allowed path allow_missing ≡ ok tt
unfolding require_exact_fields
HasFields-require_exact_fields doc allowed path allow_missing h =
    let no_missing =
      keep-eq-nil_of (λ f. not (mem f allow_missing) && not (has f doc)) allowed
        (λ f m. ground (arith, h.complete f m)) in
    let no_unknown =
      keep-eq-nil_of (λ f. not (mem f allowed)) (keys doc)
        (λ f m. ground (arith, h.known f, has-eq-mem-keys f doc)) in
    rw (fail_at_least-ok _ _ no_missing) (fail_at_least-ok _ _ no_unknown)

-- The field check accepts a mapping exactly when it has each required field and no unknown one.
pub require_exact_fields_iff :
    (doc : Dict) (allowed : List String) (path : String) (allow_missing : List String)
    → (require_exact_fields doc allowed path allow_missing ≡ ok tt)
      ↔ HasFields doc allowed allow_missing
require_exact_fields_iff doc allowed path allow_missing = (
  require_exact_fields-HasFields doc allowed path allow_missing,
  HasFields-require_exact_fields doc allowed path allow_missing,
)
