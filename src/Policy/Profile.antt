-- ===== src/Policy/Profile.antt =====
-- Project profiles of acgps/policy.py: `_validate_project_profile`, the registry that
-- `_load_project_profiles` builds, and `_is_safe_relative_path`.
pub mod Downgrade
pub mod Paths
use acgps_public.Prelude.{
  ℕ, String, Bool, true, false, not, ◌&&◌, ◌||◌, Option, none, some, List, [], ◌∷◌, ◌++◌, ◌==◌,
  nat_eq, ltb, if◌then◌else◌, mem,
}
use acgps_public.Py.Result.{ok, raise, ◌>>=◌, ◌>>◌, require, for_each, for_enumerate}
use acgps_public.Py.Text.{fmt, keep, split_on, has_char}
use acgps_public.Py.Value.{
  pos, Value, bool, int, text, seq, dict, Dict, lookup, has, get, keys, py_eq, as_dict, as_text,
  as_nonempty_text, is_dict, is_int, is_text, is_list, get_or, dict_of, seq_of,
}
use acgps_public.Policy.Error.{
  Code, Policy, policy_error, python_type_error, attribute_error, key_error, fail, fail_if,
}
use acgps_public.Policy.Vocabulary.{risk_order}
use acgps_public.Policy.Fields.{at_index, fail_at_least, iterate}
use Prim.Native.Char.{code}
use Prim.Native.String as S
use acgps_public.Prelude.{leb, starts_with}

-- `ValidationIssue` of acgps/contracts.py.
pub record Issue : Type 0 where
  pub path : String
  pub message : String

abbrev is_letter : ℕ → Bool
is_letter c = (leb b'A' c && leb c b'Z') || (leb b'a' c && leb c b'z')

-- `re.match(r"^[A-Za-z]:", value)`
unfoldable pub has_drive : String → Bool
has_drive (S.◌∷◌ c (S.◌∷◌ d s)) = is_letter (code c) && nat_eq (code d) b':'
has_drive _ = false

-- `all(part not in refused for part in parts)`
unfoldable pub no_part_in : List String → List String → Bool
no_part_in refused [] = true
no_part_in refused (part ∷ parts) = not (mem part refused) && no_part_in refused parts

unfoldable pub is_safe_relative_path : String → Bool
unfolding has_drive no_part_in
is_safe_relative_path value =
    if value == "" || has_char 92 value || starts_with value "/" || has_drive value
    then false
    else no_part_in ("" ∷ "." ∷ ".." ∷ []) (split_on b'/' value)

pub data FieldType : Type 0 where
  int_type str_type dict_type list_type : FieldType

-- PROFILE_REQUIRED_FIELDS
abbrev pub profile_required_fields : List (String × FieldType)
profile_required_fields =
    ("schema_version", int_type)
    ∷ ("profile_id", str_type)
    ∷ ("project_name", str_type)
    ∷ ("project_type", str_type)
    ∷ ("required_files", dict_type)
    ∷ ("critical_surfaces", list_type)
    ∷ ("risk_overrides", dict_type)
    ∷ ("pilot_restrictions", list_type)
    ∷ ("commands", dict_type)
    ∷ []

-- PROFILE_ALLOWED_FIELDS
abbrev pub profile_allowed_fields : List String
profile_allowed_fields = keys profile_required_fields

abbrev has_type : FieldType → Value → Bool
has_type int_type v = is_int v
has_type str_type v = is_text v
has_type dict_type v = is_dict v
has_type list_type v = is_list v

-- One field of PROFILE_REQUIRED_FIELDS, present and of its type.
unfoldable pub check_profile_field : String → Dict → String × FieldType → Policy (Unit {0})
check_profile_field path profile (name, type) = do
  value ← require (lookup name profile) (
      policy_error Code.type_error (fmt (path ∷ ":" ∷ name ∷ []))
        (fmt (name ∷ " missing required field" ∷ [])))
  fail_if (not (has_type type value)) Code.type_error (fmt (path ∷ ":" ∷ name ∷ []))
      (fmt (name ∷ " has invalid type" ∷ []))

-- The entries of one list of non-empty strings.
unfoldable pub check_entries : String → Dict → String → Policy (Unit {0})
check_entries path profile name = do
  values ← iterate (get_or profile name (seq_of []))
  for_enumerate 0 values λ i value. do
    require (as_nonempty_text value) (
        policy_error Code.type_error (at_index (fmt (path ∷ ":" ∷ name ∷ [])) i)
          (fmt (name ∷ " entries must be non-empty strings" ∷ [])))
    ok tt

-- `level in RISK_ORDER`, which hashes the level, and its rank.
unfoldable pub known_rank : Value → Policy (Option ℕ)
unfolding risk_order
known_rank (text level) = ok (risk_order level)
known_rank (seq vs) = raise python_type_error
known_rank (dict fs) = raise python_type_error
known_rank _ = ok none

-- `project_profile_may_lower_risk is False`
abbrev pub is_false : Value → Bool
is_false (bool false) = true
is_false _ = false

abbrev pub lowers : ℕ → Option ℕ → Bool
lowers level none = false
lowers level (some global) = ltb level global

-- The downgrade test of one override: the profile's rank against the global level of its key.
unfoldable pub check_downgrade : String → Dict → String → ℕ → Policy (Unit {0})
check_downgrade path risk key level = do
  triggers ← require (as_dict (get_or risk "triggers" (dict_of []))) attribute_error
  global ← elim (is_false (get risk "project_profile_may_lower_risk")) [
    | true ↦ known_rank (get triggers key)
    | false ↦ ok none
  ]
  fail_if (lowers level global) Code.profile_downgrade_forbidden
      (fmt (path ∷ ":risk_overrides." ∷ key ∷ [])) "project profile may not lower global risk level"

-- One entry of `risk_overrides`.
unfoldable pub check_override : String → Dict → String × Value → Policy (Unit {0})
check_override path risk (key, level) = do
  fail_if (key == "") Code.type_error (fmt (path ∷ ":risk_overrides" ∷ []))
      "risk_overrides keys must be non-empty strings"
  known ← known_rank level
  level_rank ← require known (
      policy_error Code.unknown_id (fmt (path ∷ ":risk_overrides." ∷ key ∷ []))
        "risk override must reference a declared risk level")
  check_downgrade path risk key level_rank

abbrev safe_path_value : Value → Bool
safe_path_value (text s) = is_safe_relative_path s
safe_path_value _ = false

-- One entry of `required_files`.
unfoldable pub check_required_file : String → String × Value → Policy (Unit {0})
unfolding is_safe_relative_path
check_required_file path (key, value) =
    fail_if (not (safe_path_value value)) Code.profile_required_file_invalid
      (fmt (path ∷ ":required_files." ∷ key ∷ []))
      "profile required_files entry is unsafe or missing"

-- The first issue of the contract check, as a policy error.
abbrev pub profile_issue : String → List Issue → Policy (Unit {0})
profile_issue path [] = ok tt
profile_issue path (issue ∷ issues) =
    if starts_with issue.path "required_files"
    then fail Code.profile_required_file_invalid (fmt (path ∷ ":" ∷ issue.path ∷ []))
        "profile required_files entry is unsafe or missing"
    else fail Code.type_error (fmt (path ∷ ":" ∷ issue.path ∷ [])) issue.message

abbrev pub mapping_of : Dict → String → Policy Dict
mapping_of doc key = require (as_dict (get_or doc key (dict_of []))) attribute_error

-- `issues` is what `validate_contract("project_profile", profile)` finds.
unfoldable pub validate_project_profile : List Issue → String → Dict → Dict → Policy (Unit {0})
validate_project_profile issues path profile risk = do
  profile_issue path issues
  fail_at_least (keep (λ f. not (mem f profile_allowed_fields)) (keys profile)) (λ f.
      policy_error Code.unknown_field (fmt (path ∷ ":" ∷ f ∷ []))
        (fmt ("unexpected profile field " ∷ f ∷ [])))
  for_each profile_required_fields (check_profile_field path profile)
  fail_if (not (py_eq (get profile "schema_version") (int (pos 1)))) Code.unsupported_version
      (fmt (path ∷ ":schema_version" ∷ [])) "unsupported profile schema version"
  check_entries path profile "critical_surfaces"
  check_entries path profile "pilot_restrictions"
  overrides ← mapping_of profile "risk_overrides"
  for_each overrides (check_override path risk)
  required ← mapping_of profile "required_files"
  for_each required (check_required_file path)

-- An entry of the registry.
pub record Registered : Type 0 where
  pub source_path : String
  pub profile : Dict

abbrev pub Registry : Type 0
Registry = List (String × Registered)

-- The loop of `_load_project_profiles` over the profile files in path order: each with its logical
-- path and what `_load_yaml_mapping` returns or raises for it. New entries go to the end.
unfoldable pub load_project_profiles :
    (Dict → List Issue) → Dict → Registry → List (String × Policy Dict) → Policy Registry
load_project_profiles issues_of risk registry [] = ok registry
load_project_profiles issues_of risk registry ((path, loaded) ∷ files) = do
  profile ← loaded
  validate_project_profile (issues_of profile) path profile risk
  profile_id ← require (as_text (get profile "profile_id")) key_error
  fail_if (has profile_id registry) Code.duplicate_profile_id (fmt (path ∷ ":profile_id" ∷ []))
      "duplicate profile_id detected"
  load_project_profiles issues_of risk
      (registry ++ (profile_id, record { source_path = path; profile = profile }) ∷ []) files
