-- ===== src/Policy/Profile/Downgrade.antt =====
-- An accepted project profile lowers no level of the risk policy.
use acgps_public.Prelude.{
  ℕ, ◌≤◌, ◌≡◌, ap, ◌∙◌, String, true, not, Option, some, List, [], arith, ◌==◌,
}
use acgps_public.Py.Result.{ok, require, >>=-eq-ok, require-eq-ok, for_each}
use acgps_public.Py.Text.{keep}
use acgps_public.Py.Laws.{for_each-All, lookup-All}
use acgps_public.Py.Value.{
  Value, null, bool, int, text, seq, dict, pos, Dict, as_dict, get, get_or, dict_of, keys, lookup,
  py_eq,
}
use acgps_public.Policy.Error.{fail_if}
use acgps_public.Policy.Vocabulary.{rank}
use acgps_public.Policy.Fields.{fail_at_least}
use acgps_public.Policy.Profile.{
  Issue, known_rank, is_false, check_downgrade, check_override, check_profile_field, check_entries,
  mapping_of, profile_issue, profile_required_fields, validate_project_profile,
}

known_rank-eq-ok : (v : Value) (n : ℕ) → known_rank v ≡ ok (some n) → rank v ≡ ok n
unfolding known_rank rank
known_rank-eq-ok (text s) n h = ground arith
known_rank-eq-ok null n h = cc
known_rank-eq-ok (bool b) n h = cc
known_rank-eq-ok (int k) n h = cc
known_rank-eq-ok (seq vs) n h = cc
known_rank-eq-ok (dict fs) n h = cc

rank-eq-ok : (v : Value) (n : ℕ) → rank v ≡ ok n → known_rank v ≡ ok (some n)
unfolding known_rank rank
rank-eq-ok (text s) n h = ground arith
rank-eq-ok null n h = cc
rank-eq-ok (bool b) n h = cc
rank-eq-ok (int k) n h = cc
rank-eq-ok (seq vs) n h = cc
rank-eq-ok (dict fs) n h = cc

-- The level has a rank, which is not below that of the global level of the key.
pub record Keeps (risk : Dict) (key : String) (level : Value) : Type 0 where
  pub level_rank : ℕ
  pub is_rank : rank level ≡ ok level_rank
  pub not_below :
      (triggers : Dict) (g : ℕ)
      → as_dict (get_or risk "triggers" (dict_of [])) ≡ some triggers
      → is_false (get risk "project_profile_may_lower_risk") ≡ true
      → rank (get triggers key) ≡ ok g
      → g ≤ level_rank

check_downgrade-le :
    (path : String) (risk : Dict) (key : String) (level : ℕ) (triggers : Dict) (g : ℕ)
    → check_downgrade path risk key level ≡ ok tt
    → as_dict (get_or risk "triggers" (dict_of [])) ≡ some triggers
    → is_false (get risk "project_profile_may_lower_risk") ≡ true
    → rank (get triggers key) ≡ ok g
    → g ≤ level
unfolding check_downgrade
check_downgrade-le path risk key level triggers g h d may r =
    let k = rank-eq-ok (get triggers key) g r in ground arith

check_override-Keeps :
    (path : String) (risk : Dict) (entry : String × Value)
    → check_override path risk entry ≡ ok tt
    → Keeps risk entry.0 entry.1
unfolding check_override
check_override-Keeps path risk (key, level) h =
    let (_, _, h₁) = >>=-eq-ok (fail_if (key == "") _ _ _) _ h in
    let (known, e₂, h₂) = >>=-eq-ok (known_rank level) _ h₁ in
    let (n, e₃, h₃) = >>=-eq-ok (require known _) _ h₂ in
    record {
      level_rank = n;
      is_rank =
          known_rank-eq-ok level n (e₂ ∙ ap (λ (o : Option ℕ). ok o) (require-eq-ok known _ e₃));
      not_below = λ triggers g d may r. check_downgrade-le path risk key n triggers g h₃ d may r;
    }

-- The overrides of an accepted profile: each has a rank, and where the risk policy forbids to lower
-- a risk, none is below the global level of its trigger.
pub record NoDowngrade (risk profile : Dict) : Type 0 where
  pub overrides : Dict
  pub is_overrides : mapping_of profile "risk_overrides" ≡ ok overrides
  pub keeps :
      (key : String) (level : Value) → lookup key overrides ≡ some level → Keeps risk key level

-- An accepted profile has a known level in each of its overrides, and none below the global level of
-- its key where the risk policy forbids the profile to lower it.
pub validate_project_profile-NoDowngrade :
    (issues : List Issue) (path : String) (profile risk : Dict)
    → validate_project_profile issues path profile risk ≡ ok tt
    → NoDowngrade risk profile
unfolding validate_project_profile
validate_project_profile-NoDowngrade issues path profile risk h =
    let (_, _, h₁) = >>=-eq-ok (profile_issue path issues) _ h in
    let (_, _, h₂) = >>=-eq-ok (fail_at_least (keep _ (keys profile)) _) _ h₁ in
    let (_, _, h₃) =
      >>=-eq-ok (for_each profile_required_fields (check_profile_field path profile)) _ h₂ in
    let (_, _, h₄) =
      >>=-eq-ok (fail_if (not (py_eq (get profile "schema_version") (int (pos 1)))) _ _ _) _ h₃ in
    let (_, _, h₅) = >>=-eq-ok (check_entries path profile "critical_surfaces") _ h₄ in
    let (_, _, h₆) = >>=-eq-ok (check_entries path profile "pilot_restrictions") _ h₅ in
    let (overrides, e₇, h₇) = >>=-eq-ok (mapping_of profile "risk_overrides") _ h₆ in
    let (_, e₈, _) = >>=-eq-ok (for_each overrides (check_override path risk)) _ h₇ in
    let all =
      for_each-All (λ e. Keeps risk e.0 e.1) overrides _ (check_override-Keeps path risk) e₈ in
    record {
      overrides = overrides;
      is_overrides = e₇;
      keeps = λ key level e. lookup-All (Keeps risk) overrides key all e;
    }
