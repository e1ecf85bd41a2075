-- ===== src/Workflow/Outcome.antt =====
-- Outcomes and the small checks of acgps/workflow_contracts.py: `invalid_outcome`, the helpers
-- `_require_*`, `_validate_*`, `_get_path` and `_validate_exact_mapping`.
use Prim.Native.Char.{code}
use Prim.Native.String as S
use acgps_public.Prelude.{
  ℕ, zero, suc, String, Bool, true, false, not, ◌&&◌, ◌||◌, Option, none, some, List, [], ◌∷◌, ◌==◌,
  nat_eq, leb, if◌then◌else◌, mem, all, any,
}
use acgps_public.Py.Result.{Py, ok, raise, ◌>>◌, for_each}
use acgps_public.Py.Text.{fmt}
use acgps_public.Py.Value.{
  pos, Value, null, bool, int, text, seq, dict, Dict, pairs, end, nil, lookup, has, keys, py_eq,
  items,
}
use acgps_public.Slot.State.{is_safe_id}
use acgps_public.Policy.Profile.{is_safe_relative_path}

-- `WorkflowIssue`
pub record Issue : Type 0 where
  pub code : String
  pub path : String
  pub message : String

-- Why a check stops: an invalid outcome with its one issue, or a built-in exception.
pub data Stop : Type 0 where
  invalid : Issue → Stop
  type_error attribute_error key_error : Stop

-- A call that returns a value or stops.
abbrev pub Check {ℓ} : Type ℓ → Type ℓ
Check A = Py Stop A

-- WORKFLOW_ERROR_CODES
abbrev pub workflow_error_codes : List String
workflow_error_codes =
    "WORKFLOW_INVALID_INPUT" ∷ "WORKFLOW_UNKNOWN_STATE" ∷ "WORKFLOW_ILLEGAL_TRANSITION"
    ∷ "WORKFLOW_POLICY_RESULT_INVALID" ∷ "WORKFLOW_HUMAN_GATE_REQUIRED"
    ∷ "WORKFLOW_EVIDENCE_MISSING" ∷ "WORKFLOW_EVIDENCE_HASH_MISMATCH" ∷ "WORKFLOW_AUDIT_CORRUPT"
    ∷ "WORKFLOW_STATE_CORRUPT" ∷ "WORKFLOW_IDEMPOTENCY_CONFLICT" ∷ "WORKFLOW_CONCURRENT_WRITE"
    ∷ "WORKFLOW_UNSUPPORTED_SCHEMA_VERSION" ∷ "WORKFLOW_TASK_ALREADY_EXISTS"
    ∷ "WORKFLOW_DECISION_BINDING_INVALID" ∷ "WORKFLOW_TRANSACTION_INCOMPLETE"
    ∷ "WORKFLOW_COORDINATED_REWRITE_OUT_OF_SCOPE" ∷ []

-- The issue of an invalid outcome: an unregistered code becomes WORKFLOW_INVALID_INPUT.
unfoldable pub issue_of : String → String → String → Issue
unfolding mem
issue_of c p m = record {
  code = if mem c workflow_error_codes then c else "WORKFLOW_INVALID_INPUT";
  path = p;
  message = m;
}

unfoldable pub invalid_outcome {ℓ} : {A : Type ℓ} → String → String → String → Check A
invalid_outcome code path message = raise (invalid (issue_of code path message))

-- `if test: return invalid_outcome(code, path, message)`
unfoldable pub refuse_if : Bool → String → String → String → Check (Unit {0})
unfolding invalid_outcome
refuse_if b code path message = if b then invalid_outcome code path message else ok tt

-- The checks of a `for check in (...)`: the first one that stops is the outcome.
unfoldable pub first_of : List (Check (Unit {0})) → Check (Unit {0})
first_of [] = ok tt
first_of (check ∷ checks) = check >> first_of checks

unfoldable pub with_code {ℓ} : {A : Type ℓ} → Check A → String → Check A
unfolding invalid_outcome
with_code (ok a) code = ok a
with_code (raise (invalid issue)) code = invalid_outcome code issue.path issue.message
with_code (raise type_error) code = raise type_error
with_code (raise attribute_error) code = raise attribute_error
with_code (raise key_error) code = raise key_error

unfoldable pub join : String → String → String
unfolding fmt
join prefix path = if prefix == "" then path else fmt (prefix ∷ "." ∷ path ∷ [])

-- The `ContractValidationError` that `validate_contract` raises: its text, and the path and the
-- message of each issue.
pub record ContractError : Type 0 where
  pub issues : List (String × String)
  pub str : String

-- What the checks use of other code: the digest and the length of the canonical JSON of a value,
-- whether the `re` module takes a code point for a decimal digit, a timestamp as `strptime` reads
-- and `strftime` prints it, the error of `validate_contract` for the name of a contract, and the
-- order in which a set of names is iterated.
pub record Outside : Type 0 where
  pub sha : Value → String
  pub size : Value → ℕ
  pub is_digit : ℕ → Bool
  pub reprinted : String → Option String
  pub contract : String → Value → Option ContractError
  pub iteration : List String → List String

-- A code point of `[0-9a-f]`
abbrev is_hex : ℕ → Bool
is_hex c = (leb b'0' c && leb c b'9') || (leb b'a' c && leb c b'f')

-- `[0-9a-f]{n}`, to the end
hex_digits : ℕ → String → Bool
hex_digits zero S.[] = true
hex_digits zero (S.◌∷◌ c s) = false
hex_digits (suc n) S.[] = false
hex_digits (suc n) (S.◌∷◌ c s) = is_hex (code c) && hex_digits n s

-- `SHA256_RE.fullmatch(value)`
unfoldable pub is_sha256 : String → Bool
unfolding hex_digits
is_sha256 s = hex_digits 64 s

-- The pattern of UTC_RE, `d` for a digit.
matches : (ℕ → Bool) → String → String → Bool
matches is_digit S.[] S.[] = true
matches is_digit S.[] (S.◌∷◌ c s) = false
matches is_digit (S.◌∷◌ p ps) S.[] = false
matches is_digit (S.◌∷◌ p ps) (S.◌∷◌ c s) =
    (if nat_eq (code p) b'd' then is_digit (code c) else nat_eq (code p) (code c))
    && matches is_digit ps s

-- `UTC_RE.fullmatch(value)`
unfoldable pub has_utc_form : (ℕ → Bool) → String → Bool
unfolding matches
has_utc_form is_digit s = matches is_digit "dddd-dd-ddTdd:dd:ddZ" s

abbrev pub text_is : (String → Bool) → Value → Bool
text_is test (text s) = test s
text_is test _ = false

unfoldable pub validate_schema_version : Value → String → Check (Unit {0})
unfolding invalid_outcome refuse_if py_eq
validate_schema_version (int n) path =
    refuse_if (not (py_eq (int n) (int (pos 1)))) "WORKFLOW_UNSUPPORTED_SCHEMA_VERSION" path
      "unsupported schema version"
validate_schema_version _ path =
    invalid_outcome "WORKFLOW_INVALID_INPUT" path "schema_version must be an integer"

unfoldable pub require_non_empty_string : Value → String → Check (Unit {0})
unfolding refuse_if
require_non_empty_string v path =
    refuse_if (not (text_is (λ s. not (s == "")) v)) "WORKFLOW_INVALID_INPUT" path
      "must be a non-empty string"

unfoldable pub require_safe_id : Value → String → Check (Unit {0})
unfolding refuse_if is_safe_id
require_safe_id v path =
    refuse_if (not (text_is is_safe_id v)) "WORKFLOW_INVALID_INPUT" path
      "must be a safe non-empty identifier"

unfoldable pub require_sha : Value → String → Check (Unit {0})
unfolding refuse_if is_sha256
require_sha v path =
    refuse_if (not (text_is is_sha256 v)) "WORKFLOW_INVALID_INPUT" path
      "must be a lowercase SHA-256 hex string"

abbrev pub is_boolean : Value → Bool
is_boolean (bool b) = true
is_boolean _ = false

unfoldable pub require_bool : Value → String → Check (Unit {0})
unfolding refuse_if
require_bool v path =
    refuse_if (not (is_boolean v)) "WORKFLOW_INVALID_INPUT" path "must be a boolean"

-- `type(value) is int` and `value >= least`, for a natural number `least`.
abbrev pub int_from : ℕ → Value → Bool
int_from least (int (pos n)) = leb least n
int_from least _ = false

unfoldable pub require_non_negative_int : Value → String → Check (Unit {0})
unfolding refuse_if
require_non_negative_int v path =
    refuse_if (not (int_from 0 v)) "WORKFLOW_INVALID_INPUT" path "must be a non-negative integer"

unfoldable pub require_positive_int : Value → String → Check (Unit {0})
unfolding refuse_if
require_positive_int v path =
    refuse_if (not (int_from 1 v)) "WORKFLOW_INVALID_INPUT" path "must be a positive integer"

unfoldable pub require_member : Value → List String → String → String → Check (Unit {0})
unfolding refuse_if mem
require_member v allowed path code =
    refuse_if (not (text_is (λ s. mem s allowed) v)) code path "unknown or invalid value"

-- The text of a timestamp, once it has the form of one.
check_utc_text : Outside → String → String → Check (Unit {0})
unfolding invalid_outcome refuse_if
check_utc_text outside s path = elim (outside.reprinted s) [
  | none ↦ invalid_outcome "WORKFLOW_INVALID_INPUT" path "must be a valid RFC3339 UTC timestamp"
  | some t ↦
      refuse_if (not (t == s)) "WORKFLOW_INVALID_INPUT" path
        "must be a canonical RFC3339 UTC timestamp"
]

unfoldable pub validate_utc : Outside → Value → String → Check (Unit {0})
unfolding invalid_outcome has_utc_form check_utc_text
validate_utc outside (text s) path =
    if has_utc_form outside.is_digit s
    then check_utc_text outside s path
    else invalid_outcome "WORKFLOW_INVALID_INPUT" path "must be an RFC3339 UTC timestamp"
validate_utc outside _ path =
    invalid_outcome "WORKFLOW_INVALID_INPUT" path "must be an RFC3339 UTC timestamp"

unfoldable pub validate_optional_utc : Outside → Value → String → Check (Unit {0})
unfolding validate_utc
validate_optional_utc outside null path = ok tt
validate_optional_utc outside v path = validate_utc outside v path

-- `if actual != expected: return invalid_outcome(code, path, message)`
unfoldable pub require_equal : Value → Value → String → String → String → Check (Unit {0})
unfolding refuse_if py_eq
require_equal actual expected path message code =
    refuse_if (not (py_eq actual expected)) code path message

-- `isinstance(record, dict)` and its mapping, or the issue.
unfoldable pub require_mapping : Value → String → String → String → Check Dict
unfolding invalid_outcome
require_mapping (dict fields) code path message = ok (pairs fields)
require_mapping _ code path message = invalid_outcome code path message

unfoldable pub validate_exact_mapping :
    Outside → Dict → List String → String → String → Check (Unit {0})
unfolding refuse_if for_each mem has keys join fmt
validate_exact_mapping outside d allowed label prefix =
    for_each (keys d) (λ key.
      refuse_if (not (mem key allowed)) "WORKFLOW_INVALID_INPUT" (join prefix key)
        (fmt ("unknown field in " ∷ label ∷ [])))
    >> for_each (outside.iteration allowed) (λ key.
      refuse_if (not (has key d)) "WORKFLOW_INVALID_INPUT" (join prefix key)
        (fmt ("missing required field in " ∷ label ∷ [])))

-- `set(d) == {name, ...}`
unfoldable pub has_exactly : Dict → List String → Bool
unfolding mem has keys
has_exactly d names = all (λ k. mem k names) (keys d) && all (λ k. has k d) names

-- `_is_safe_relative_path(value)`, also for a value that is no text: a falsy one is refused, and
-- the methods of `str` are missing on the others, unless they hold the text of a backslash.
unfoldable pub is_safe_path_value : Value → Check Bool
unfolding is_safe_relative_path items has pairs
is_safe_path_value null = ok false
is_safe_path_value (bool b) = if b then raise type_error else ok false
is_safe_path_value (int (pos zero)) = ok false
is_safe_path_value (int n) = raise type_error
is_safe_path_value (text s) = ok (is_safe_relative_path s)
is_safe_path_value (seq nil) = ok false
is_safe_path_value (seq vs) =
    if any (λ v. text_is (λ s. s == "\\") v) (items vs) then ok false else raise attribute_error
is_safe_path_value (dict end) = ok false
is_safe_path_value (dict d) = if has "\\" (pairs d) then ok false else raise attribute_error

-- `value[key]`
unfoldable pub item : Value → String → Check Value
unfolding lookup pairs
item (dict d) key = elim (lookup key (pairs d)) [ none ↦ raise key_error | some v ↦ ok v ]
item v key = raise type_error
