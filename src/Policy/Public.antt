-- ===== src/Policy/Public.antt =====
-- `evaluate_policy` of acgps/policy.py: the evaluation behind its contract checks, closed on every
-- exception, and the envelope of a public record.
pub mod Closed
use acgps_public.Prelude.{
  String, Bool, true, false, not, ◌||◌, Option, none, some, List, [], ◌∷◌, if◌then◌else◌,
}
use acgps_public.Py.Result.{ok, raise, ◌>>=◌, ◌>>◌, require}
use acgps_public.Py.Value.{
  pos, Value, null, bool, int, text, get, py_eq, as_dict, as_text, get_or, dict_of, seq_of,
}
use acgps_public.Policy.Error.{
  Code, Exn, Policy, policy_error, python_type_error, attribute_error, key_error, fail, fail_if,
}
use acgps_public.Policy.Fields.{py_in}
use acgps_public.Prelude.{map}
use acgps_public.Policy.Profile.{Issue}
use acgps_public.Policy.Input.{Bundle, Environment, prevalidate_input, looks_like_public_input}
use acgps_public.Policy.Routing.{mapping_at}
use acgps_public.Policy.Evaluate.{
  PolicyResult, ResultIssue, fail_closed_result, evaluate_normalized,
}

-- The members of POLICY_ERROR_CODES.
abbrev pub code_text : Code → String
code_text Code.conflict = "POLICY_CONFLICT"
code_text Code.duplicate_discovery_route = "POLICY_DUPLICATE_DISCOVERY_ROUTE"
code_text Code.duplicate_profile_id = "POLICY_DUPLICATE_PROFILE_ID"
code_text Code.duplicate_set_member = "POLICY_DUPLICATE_SET_MEMBER"
code_text Code.duplicate_yaml_key = "POLICY_DUPLICATE_YAML_KEY"
code_text Code.file_missing = "POLICY_FILE_MISSING"
code_text Code.malformed = "POLICY_MALFORMED"
code_text Code.profile_downgrade_forbidden = "POLICY_PROFILE_DOWNGRADE_FORBIDDEN"
code_text Code.profile_required_file_invalid = "POLICY_PROFILE_REQUIRED_FILE_INVALID"
code_text Code.type_error = "POLICY_TYPE_ERROR"
code_text Code.unknown_attribute = "POLICY_UNKNOWN_ATTRIBUTE"
code_text Code.unknown_attribute_value = "POLICY_UNKNOWN_ATTRIBUTE_VALUE"
code_text Code.unknown_field = "POLICY_UNKNOWN_FIELD"
code_text Code.unknown_id = "POLICY_UNKNOWN_ID"
code_text Code.unsupported_version = "POLICY_UNSUPPORTED_VERSION"

abbrev texts : List String → Value
texts ss = seq_of (map (λ s. text s) ss)

abbrev error_code_value : Option Code → Value
error_code_value none = null
error_code_value (some code) = text (code_text code)

abbrev issue_value : ResultIssue → Value
issue_value i =
    dict_of
      (("code", text (code_text i.code)) ∷ ("path", text i.path) ∷ ("message", text i.message) ∷ [])

-- The result as the mapping that the contract check reads.
unfoldable pub result_value : PolicyResult → Value
result_value r = dict_of (
    ("decision_emitted", bool r.decision_emitted)
    ∷ ("risk_level", r.risk_level)
    ∷ ("human_gate", bool r.human_gate)
    ∷ ("required_human_triggers", texts r.required_human_triggers)
    ∷ ("required_skills", texts r.required_skills)
    ∷ ("model_roles", dict_of (map (λ e. (e.0, text e.1)) r.model_roles))
    ∷ ("mandatory_gates", r.mandatory_gates)
    ∷ ("legal_transitions", texts r.legal_transitions)
    ∷ ("authorized_transitions", texts r.authorized_transitions)
    ∷ ("provenance", texts r.provenance)
    ∷ ("fail_closed", bool r.fail_closed)
    ∷ ("error_code", error_code_value r.error_code)
    ∷ ("issues", seq_of (map issue_value r.issues))
    ∷ [])

-- What a public record says of itself, with the defaults for what it leaves out.
pub record PublicContext : Type 0 where
  pub evaluation_id : String
  pub project_id : String
  pub task_id : String
  pub created_at_utc : String

abbrev text_or : String → Value → String
text_or default (text s) = s
text_or default _ = default

abbrev timestamp_or : (String → Bool) → String → Value → String
timestamp_or is_timestamp default (text s) = if is_timestamp s then s else default
timestamp_or is_timestamp default _ = default

abbrev epoch : String
epoch = "1970-01-01T00:00:00Z"

-- `is_timestamp` is the test by `re.fullmatch`.
unfoldable pub public_input_context : (String → Bool) → Value → Option PublicContext
public_input_context is_timestamp value = elim (as_dict value) [
  | none ↦ none
  | some doc ↦
      if looks_like_public_input doc
      then some (record {
        evaluation_id = text_or "UNKNOWN" (get doc "evaluation_id");
        project_id = text_or "UNKNOWN" (get doc "project_id");
        task_id = text_or "UNKNOWN" (get doc "task_id");
        created_at_utc = timestamp_or is_timestamp epoch (get doc "created_at_utc");
      })
      else none
]

abbrev digest_value : Option String → Value
digest_value none = null
digest_value (some digest) = text digest

-- The record that carries a result.
abbrev envelope : PublicContext → Option String → PolicyResult → Value
envelope context digest result = dict_of (
    ("schema_version", int (pos 1))
    ∷ ("evaluation_id", text context.evaluation_id)
    ∷ ("project_id", text context.project_id)
    ∷ ("task_id", text context.task_id)
    ∷ ("policy_bundle_digest", digest_value digest)
    ∷ ("result", result_value result)
    ∷ ("created_at_utc", text context.created_at_utc)
    ∷ [])

abbrev internal : PublicContext
internal = record {
  evaluation_id = "INTERNAL";
  project_id = "ACGPS";
  task_id = "POLICY_EVALUATION";
  created_at_utc = epoch;
}

abbrev contract_issue : List Issue → Policy (Unit {0})
contract_issue [] = ok tt
contract_issue (issue ∷ issues) = fail Code.malformed issue.path issue.message

-- The mandatory gates of a result against those that the risk policy declares for its level.
unfoldable pub check_gates : PolicyResult → Bundle → Policy (Unit {0})
check_gates result bundle = do
  let levels = get_or bundle.risk "levels" (dict_of [])
  declared ← py_in result.risk_level levels
  fail_if (not declared) Code.unknown_id "result.risk_level" "result risk level is undeclared"
  level ← require (as_text result.risk_level) attribute_error
  by_level ← mapping_at bundle.risk "levels"
  config ← mapping_at by_level level
  fail_if (not (py_eq result.mandatory_gates (get config "required_gates"))) Code.conflict
      "result.mandatory_gates" "mandatory gates must match the selected risk level declaration"

unfoldable pub validate_policy_result_contract :
    Environment → PolicyResult → Bundle → Policy (Unit {0})
unfolding check_gates
validate_policy_result_contract env result bundle = do
  contract_issue (
      env.contract_issues "policy_evaluation_result"
        (envelope internal (some bundle.policy_bundle_digest) result))
  elim (result.fail_closed || not result.decision_emitted) [
    | true ↦ ok tt
    | false ↦ check_gates result bundle
  ]

-- `except PolicyEvaluationError` and `except Exception`.
abbrev pub closed : Exn → PolicyResult
closed (policy_error code path message) = fail_closed_result code path message
closed python_type_error =
    fail_closed_result Code.malformed "policy" "policy evaluation failed closed: TypeError"
closed attribute_error =
    fail_closed_result Code.malformed "policy" "policy evaluation failed closed: AttributeError"
closed key_error =
    fail_closed_result Code.malformed "policy" "policy evaluation failed closed: KeyError"

abbrev pub or_closed : Policy PolicyResult → PolicyResult
or_closed (ok result) = result
or_closed (raise exn) = closed exn

-- The evaluation in the `try`, after the bundle is there.
unfoldable pub evaluate_with : Environment → Value → Bundle → Policy PolicyResult
evaluate_with env value bundle = do
  input ← prevalidate_input env value bundle
  result ← evaluate_normalized input bundle
  validate_policy_result_contract env result bundle
  ok result

-- The result, and the envelope for a public record.
pub record Evaluation : Type 0 where
  pub context : Option PublicContext
  pub digest : Option String
  pub result : PolicyResult

abbrev pub first_issue_or : PolicyResult → List Issue → PolicyResult
first_issue_or result [] = result
first_issue_or result (issue ∷ issues) = fail_closed_result Code.malformed issue.path issue.message

-- `_wrap_public_result`: a result that its own contract refuses is replaced by a closed one.
unfoldable pub wrap_public_result :
    Environment → Option PublicContext → Option String → PolicyResult → Evaluation
wrap_public_result env none digest result = record {
  context = none;
  digest = digest;
  result = result;
}
wrap_public_result env (some context) digest result = record {
  context = some context;
  digest = digest;
  result =
      first_issue_or result
        (env.contract_issues "policy_evaluation_result" (envelope context digest result));
}

abbrev pub loaded_digest : Policy Bundle → Option String
loaded_digest (ok bundle) = some bundle.policy_bundle_digest
loaded_digest (raise exn) = none

-- `loaded` is the bundle that is passed in, or what `load_policy_bundle` returns or raises.
unfoldable pub evaluate_policy : Environment → (String → Bool) → Value → Policy Bundle → Evaluation
evaluate_policy env is_timestamp value loaded =
    wrap_public_result env (public_input_context is_timestamp value) (loaded_digest loaded)
      (or_closed (loaded >>= λ bundle. evaluate_with env value bundle))
