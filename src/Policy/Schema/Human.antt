-- ===== src/Policy/Schema/Human.antt =====
-- `_validate_human_policy`: config/human_decision_policy.yaml.
use acgps_public.Prelude.{String, not, List, [], ◌∷◌, mem}
use acgps_public.Py.Result.{ok, ◌>>=◌, ◌>>◌, require, for_each}
use acgps_public.Py.Text.{fmt}
use acgps_public.Py.Value.{Value, text, Dict, get, py_eq, as_dict}
use acgps_public.Policy.Error.{Code, Policy, policy_error, fail_if}
use acgps_public.Policy.Vocabulary.{human_path, human_decision_triggers}
use acgps_public.Policy.Fields.{require_string_list, require_exact_fields, require_policy_id}

abbrev trigger_path : String → List String → String
trigger_path trigger rest = fmt (human_path ∷ ":triggers." ∷ trigger ∷ rest)

-- One entry of `triggers`: a declared trigger with a list of examples.
unfoldable pub check_human_trigger : String × Value → Policy (Unit {0})
check_human_trigger (trigger, config_value) = do
  fail_if (not (mem trigger human_decision_triggers)) Code.unknown_id (trigger_path trigger [])
      "unknown human trigger"
  config ← require (as_dict config_value) (
      policy_error Code.type_error (trigger_path trigger [])
        "human trigger config must be a mapping")
  require_exact_fields config ("examples" ∷ []) (trigger_path trigger []) []
  require_string_list (get config "examples") (trigger_path trigger (".examples" ∷ []))
  ok tt

unfoldable pub validate_human_policy : Dict → Policy (Unit {0})
unfolding check_human_trigger
validate_human_policy human = do
  require_exact_fields human
      ("schema_version" ∷ "policy_id" ∷ "default_without_response" ∷ "triggers" ∷ "do_not_escalate"
        ∷ [])
      human_path []
  require_policy_id human human_path
  fail_if (not (py_eq (get human "default_without_response") (text "PAUSE"))) Code.unknown_id
      (fmt (human_path ∷ ":default_without_response" ∷ [])) "unknown default behavior"
  triggers ← require (as_dict (get human "triggers")) (
      policy_error Code.type_error (fmt (human_path ∷ ":triggers" ∷ []))
        "human triggers must be a mapping")
  for_each triggers check_human_trigger
  require_string_list (get human "do_not_escalate") (fmt (human_path ∷ ":do_not_escalate" ∷ []))
  ok tt
