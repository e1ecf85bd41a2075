-- ===== src/Policy/Load.antt =====
-- `load_policy_bundle` of acgps/policy.py, over what the files hold, and what holds of its bundles.
use acgps_public.Prelude.{◌≡◌, subst, String, true, not, List, [], ◌∷◌, ◌++◌, All, mem}
use acgps_public.Py.Result.{ok, ◌>>=◌, ◌>>◌, require, >>=-eq-ok, ok-injective}
use acgps_public.Py.Value.{Dict, text, get, get_or, has, as_text, py_eq, dict_of}
use acgps_public.Policy.Error.{Policy, key_error, fail_if}
use acgps_public.Policy.Schema.{
  Policies, check_versions, validate_each_policy, validate_policy_schemas,
  validate_cross_file_references,
}
use acgps_public.Policy.Schema.Workflow.{validate_workflow_policy}
use acgps_public.Policy.Profile.{
  Issue, Registered, Registry, validate_project_profile, load_project_profiles,
}
use acgps_public.Policy.Fields.{py_in}
use acgps_public.Policy.Profile.Downgrade.{NoDowngrade, validate_project_profile-NoDowngrade}
use acgps_public.Policy.Vocabulary.{task_states}
use acgps_public.Policy.Input.{Bundle, Input}
use acgps_public.Policy.Evaluate.{PolicyResult, evaluate_normalized}
use acgps_public.Policy.Evaluate.Legal.{legal_transitions_known}

-- `loaded` is what reading the six policy files returns or raises, `files` the profile files in path
-- order, and `digest_of` the digest.
unfoldable pub load_policy_bundle :
    (Dict → List Issue)
    → (Policies → Registry → String)
    → Policy Policies
    → List (String × Policy Dict)
    → Policy Bundle
load_policy_bundle issues_of digest_of loaded files = do
  policies ← loaded
  validate_policy_schemas policies
  profiles ← load_project_profiles issues_of policies.risk [] files
  validate_cross_file_references policies
  ok (record {
    policies = policies;
    project_profiles = profiles;
    policy_bundle_digest = digest_of policies profiles;
  })

-- No profile of the registry lowers a risk that it may not lower.
abbrev pub KeepRisk : Dict → Registry → Type 0
KeepRisk risk registry = All (λ e. NoDowngrade risk e.1.profile) registry

KeepRisk-append :
    (risk : Dict) (registry : Registry) (e : String × Registered)
    → KeepRisk risk registry
    → NoDowngrade risk e.1.profile
    → KeepRisk risk (registry ++ e ∷ [])
KeepRisk-append risk [] e h k = (k, tt)
KeepRisk-append risk (x ∷ xs) e h k = (h.0, KeepRisk-append risk xs e h.1 k)

load_project_profiles-KeepRisk :
    (issues_of : Dict → List Issue) (risk : Dict) (files : List (String × Policy Dict))
    (registry : Registry) {profiles : Registry}
    → KeepRisk risk registry
    → load_project_profiles issues_of risk registry files ≡ ok profiles
    → KeepRisk risk profiles
unfolding load_project_profiles
load_project_profiles-KeepRisk issues_of risk [] registry before h =
    subst (λ q. KeepRisk risk q) (ok-injective h) before
load_project_profiles-KeepRisk issues_of risk ((path, loaded) ∷ files) registry {profiles} before
      h =
    let (profile, _, h₁) = >>=-eq-ok loaded _ h in
    let (_, valid, h₂) =
      >>=-eq-ok (validate_project_profile (issues_of profile) path profile risk) _ h₁ in
    let (profile_id, _, h₃) =
      >>=-eq-ok (require (as_text (get profile "profile_id")) key_error) _ h₂ in
    let (_, _, h₄) = >>=-eq-ok (fail_if (has profile_id registry) _ _ _) _ h₃ in
    load_project_profiles-KeepRisk issues_of risk files _ {profiles = profiles}
      (KeepRisk-append risk registry (profile_id, record { source_path = path; profile = profile })
        before (validate_project_profile-NoDowngrade (issues_of profile) path profile risk valid))
      h₄

validate_each_policy-workflow :
    (p : Policies) → validate_each_policy p ≡ ok tt → validate_workflow_policy p.workflow ≡ ok tt
unfolding validate_each_policy
validate_each_policy-workflow p h =
    let (_, e, _) = >>=-eq-ok (validate_workflow_policy p.workflow) _ h in e

validate_policy_schemas-workflow :
    (p : Policies) → validate_policy_schemas p ≡ ok tt → validate_workflow_policy p.workflow ≡ ok tt
unfolding validate_policy_schemas
validate_policy_schemas-workflow p h =
    let (_, _, h₁) = >>=-eq-ok (check_versions p) _ h in
    let (declared, _, h₂) =
      >>=-eq-ok (py_in (get p.risk "default_level") (get_or p.risk "levels" (dict_of []))) _ h₁ in
    let (_, _, h₃) = >>=-eq-ok (fail_if (not declared) _ _ _) _ h₂ in
    let (_, _, h₄) =
      >>=-eq-ok
        (fail_if (not (py_eq (get p.risk "unknown_trigger_behavior") (text "fail_closed"))) _ _ _) _
        h₃ in
    validate_each_policy-workflow p h₄

-- A bundle that is loaded has an accepted workflow policy, and none of its profiles lowers a risk that
-- the risk policy forbids it to lower.
pub record IsSound (bundle : Bundle) : Type 0 where
  pub workflow_valid : validate_workflow_policy bundle.workflow ≡ ok tt
  pub profiles_keep : KeepRisk bundle.risk bundle.project_profiles

load_policy_bundle-IsSound :
    (issues_of : Dict → List Issue) (digest_of : Policies → Registry → String)
    (loaded : Policy Policies) (files : List (String × Policy Dict)) {bundle : Bundle}
    → load_policy_bundle issues_of digest_of loaded files ≡ ok bundle
    → IsSound bundle
unfolding load_policy_bundle
load_policy_bundle-IsSound issues_of digest_of loaded files h =
    let (p, _, h₁) = >>=-eq-ok loaded _ h in
    let (_, schemas, h₂) = >>=-eq-ok (validate_policy_schemas p) _ h₁ in
    let (profiles, read, h₃) = >>=-eq-ok (load_project_profiles issues_of p.risk [] files) _ h₂ in
    let (_, _, h₄) = >>=-eq-ok (validate_cross_file_references p) _ h₃ in
    subst (λ (b : Bundle). IsSound b) (ok-injective h₄)
      (record {
        workflow_valid = validate_policy_schemas-workflow p schemas;
        profiles_keep = load_project_profiles-KeepRisk issues_of p.risk files [] tt read;
      })

-- In a bundle that is loaded no registered profile lowers a risk that the risk policy forbids it to
-- lower, and every decision over the bundle names only states of the vocabulary as legal.
pub loaded_bundle_sound :
    (issues_of : Dict → List Issue) (digest_of : Policies → Registry → String)
    (loaded : Policy Policies) (files : List (String × Policy Dict)) {bundle : Bundle}
    → load_policy_bundle issues_of digest_of loaded files ≡ ok bundle
    → KeepRisk bundle.risk bundle.project_profiles
      × ((input : Input) (r : PolicyResult) (s : String)
          → evaluate_normalized input bundle ≡ ok r
          → mem s r.legal_transitions ≡ true
          → mem s task_states ≡ true)
loaded_bundle_sound issues_of digest_of loaded files {bundle} h =
    let sound = load_policy_bundle-IsSound issues_of digest_of loaded files h in
    (
      sound.profiles_keep,
      λ input r s e m. legal_transitions_known input bundle s sound.workflow_valid e m,
    )
