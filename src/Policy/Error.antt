-- ===== src/Policy/Error.antt =====
-- The errors of acgps/policy.py: `PolicyEvaluationError` with the codes of acgps/policy_errors.py,
-- and the built-in exceptions that the code can run into.
use acgps_public.Prelude.{String}
use acgps_public.Py.Result.{Py, raise, ok}
use acgps_public.Prelude.{Bool, true, false}

-- POLICY_ERROR_CODES, so that an unregistered code cannot be written.
pub data Code : Type 0 where
  conflict duplicate_discovery_route duplicate_profile_id duplicate_set_member : Code
  duplicate_yaml_key file_missing malformed profile_downgrade_forbidden : Code
  profile_required_file_invalid type_error unknown_attribute unknown_attribute_value : Code
  unknown_field unknown_id unsupported_version : Code

-- A code with its path and its message, or a built-in exception.
pub data Exn : Type 0 where
  policy_error : Code → String → String → Exn
  python_type_error : Exn
  attribute_error : Exn
  key_error : Exn

abbrev pub Policy {ℓ} : Type ℓ → Type ℓ
Policy A = Py Exn A

abbrev pub fail {ℓ} : {A : Type ℓ} → Code → String → String → Policy A
fail code path message = raise (policy_error code path message)

-- `if test: raise PolicyEvaluationError(code, path, message)`
abbrev pub fail_if : Bool → Code → String → String → Policy (Unit {0})
fail_if true code path message = fail code path message
fail_if false code path message = ok tt
