-- ===== src/Policy/Schema/Models.antt =====
-- `_validate_model_policy`: config/model_routing.yaml.
use acgps_public.Prelude.{String, not, ◌&&◌, List, [], ◌∷◌, mem}
use acgps_public.Py.Result.{ok, ◌>>=◌, ◌>>◌, require, for_each}
use acgps_public.Py.Text.{fmt}
use acgps_public.Py.Value.{Value, Dict, lookup, get, as_dict, as_nonempty_text, is_bool}
use acgps_public.Policy.Error.{Code, Policy, policy_error, fail_if}
use acgps_public.Policy.Vocabulary.{models_path, model_role_ids}
use acgps_public.Policy.Fields.{
  require_string_list, require_mapping, require_exact_fields, require_policy_id, optional_field,
}

abbrev role_path : String → List String → String
role_path role_id rest = fmt (models_path ∷ ":roles." ∷ role_id ∷ rest)

-- One entry of `roles`.
unfoldable pub check_role : String × Value → Policy (Unit {0})
check_role (role_id, config_value) = do
  fail_if
      (not (mem role_id model_role_ids)
        && not (mem role_id ("deep_research" ∷ "coder_mechanical" ∷ "coder_integration" ∷ [])))
      Code.unknown_id (role_path role_id []) "unknown model role"
  config ←
      require (as_dict config_value)
        (policy_error Code.type_error (role_path role_id []) "model role config must be a mapping")
  require_exact_fields config ("capability" ∷ "independent_context" ∷ "model_role" ∷ [])
      (role_path role_id []) ("independent_context" ∷ "model_role" ∷ [])
  require (as_nonempty_text (get config "capability")) (
      policy_error Code.type_error (role_path role_id (".capability" ∷ []))
        "capability must be a non-empty string")
  optional_field (lookup "independent_context" config) (λ v.
      fail_if (not (is_bool v)) Code.type_error (role_path role_id (".independent_context" ∷ []))
        "independent_context must be a boolean")
  optional_field (lookup "model_role" config) (λ v.
      require (as_nonempty_text v) (
        policy_error Code.type_error (role_path role_id (".model_role" ∷ []))
          "model_role must be a non-empty string")
      >>= λ _. ok tt)

unfoldable pub validate_model_policy : Dict → Policy (Unit {0})
unfolding check_role
validate_model_policy models = do
  require_exact_fields models ("schema_version" ∷ "policy_id" ∷ "roles" ∷ "escalate_when" ∷ [])
      models_path []
  require_policy_id models models_path
  roles ← require_mapping (get models "roles") (fmt (models_path ∷ ":roles" ∷ []))
  for_each roles check_role
  require_string_list (get models "escalate_when") (fmt (models_path ∷ ":escalate_when" ∷ []))
  ok tt
