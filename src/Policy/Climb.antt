-- ===== src/Policy/Climb.antt =====
-- The loop of `_evaluate_normalized` over the risk triggers: the level of each trigger, the
-- downgrade test of a profile's override, and the highest level so far.
pub mod Highest
use acgps_public.Prelude.{
  String, Bool, false, not, ◌&&◌, Option, none, some, List, [], ◌∷◌, ◌++◌, ◌==◌, ltb, if◌then◌else◌,
}
use acgps_public.Py.Result.{ok, ◌>>=◌, ◌>>◌, for_enumerate}
use acgps_public.Py.Text.{fmt}
use acgps_public.Py.Value.{Value, null, Dict, lookup, has, get, is_null}
use acgps_public.Policy.Error.{Code, Policy, fail_if}
use acgps_public.Policy.Vocabulary.{risk_path, rank}
use acgps_public.Policy.Fields.{at_index}
use acgps_public.Policy.Input.{Bundle}
use acgps_public.Policy.Routing.{mapping_at}

-- A profile with the path that its overrides are reported under.
abbrev pub Selected : Type 0
Selected = Option (String × Dict)

-- `_profile_record`, with `profile_source or f"project_profiles/{...}.yaml"`.
unfoldable pub profile_record : Bundle → Option String → Selected
profile_record bundle none = none
profile_record bundle (some profile_id) = elim (lookup profile_id bundle.project_profiles) [
  | none ↦ none
  | some registered ↦ some (
    if registered.source_path == ""
        then fmt ("project_profiles/" ∷ profile_id ∷ ".yaml" ∷ [])
        else registered.source_path,
    registered.profile,
  )
]

-- `profile.get("risk_overrides", {})`, empty without a profile.
abbrev pub profile_overrides : Selected → Policy Dict
profile_overrides none = ok []
profile_overrides (some (path, profile)) = mapping_at profile "risk_overrides"

abbrev pub profile_path : Selected → String
profile_path none = ""
profile_path (some (path, profile)) = path

-- The level and the provenance that the loop over the risk triggers builds up.
pub record Climb : Type 0 where
  pub level : Value
  pub trace : List String

-- The two sources of a trigger's level.
pub record Sources : Type 0 where
  pub global : Dict
  pub path : String
  pub overrides : Dict

-- `candidate_level is not None and RISK_ORDER[profile_level] < RISK_ORDER[candidate_level]`
unfoldable pub is_downgrade : Value → Value → Policy Bool
is_downgrade profile_level null = ok false
is_downgrade profile_level candidate_level = do
  p ← rank profile_level
  c ← rank candidate_level
  ok (ltb p c)

-- The level of a trigger: the global one, and the profile's in its place where it has one.
unfoldable pub candidate_level : Sources → String → Policy Value
candidate_level sources trigger = elim (lookup trigger sources.overrides) [
  | none ↦ ok (get sources.global trigger)
  | some profile_level ↦ do
    lower ← is_downgrade profile_level (get sources.global trigger)
    fail_if lower Code.profile_downgrade_forbidden
        (fmt (sources.path ∷ ":risk_overrides." ∷ trigger ∷ []))
        "project profile may not lower global risk level"
    ok profile_level
]

-- The provenance that a trigger adds: its global entry, then the profile's.
unfoldable pub trigger_trace : Sources → String → List String
trigger_trace sources trigger =
    (if is_null (get sources.global trigger)
      then []
      else fmt (risk_path ∷ ":triggers." ∷ trigger ∷ []) ∷ [])
    ++ (if has trigger sources.overrides
        then fmt (sources.path ∷ ":risk_overrides." ∷ trigger ∷ []) ∷ []
        else [])

-- `if RISK_ORDER[candidate] > RISK_ORDER[risk_level]: risk_level = candidate`
unfoldable pub raise_level : Value → Value → Policy Value
raise_level candidate level = do
  c ← rank candidate
  l ← rank level
  ok (if ltb l c then candidate else level)

-- One round of the loop over the risk triggers.
unfoldable pub climb_trigger : Sources → Climb → String → Policy Climb
climb_trigger sources c trigger = do
  candidate ← candidate_level sources trigger
  fail_if (is_null candidate) Code.unknown_id "input.risk_triggers"
      (fmt ("unknown risk trigger " ∷ trigger ∷ []))
  level ← raise_level candidate c.level
  ok (record { level = level; trace = c.trace ++ trigger_trace sources trigger })

unfoldable pub climb : Sources → Climb → List String → Policy Climb
climb sources c [] = ok c
climb sources c (trigger ∷ triggers) = do
  c' ← climb_trigger sources c trigger
  climb sources c' triggers

-- The first trigger that neither the risk policy nor the profile declares is refused.
unfoldable pub check_declared : Dict → Dict → List String → Policy (Unit {0})
check_declared global overrides triggers = for_enumerate 0 triggers λ i trigger.
    fail_if (not (has trigger global) && not (has trigger overrides)) Code.unknown_id
      (at_index "input.risk_triggers" i) (fmt ("unknown risk trigger " ∷ trigger ∷ []))
