-- ===== src/Workflow/Graph.antt =====
-- `_validate_transition_operation_graph` of acgps/workflow_contracts.py: the rules of the catalog for
-- the records of one transaction.
use acgps_public.Prelude.{String, Bool, true, false, not, none, some, List, [], ◌∷◌, if◌then◌else◌}
use acgps_public.Py.Result.{ok, raise, ◌>>=◌, ◌>>◌, for_each}
use acgps_public.Py.Text.{fmt, split_on}
use acgps_public.Py.Value.{Value, text, seq, dict, Dict, get, lookup, pairs, py_eq, is_null}
use acgps_public.Workflow.Outcome.{
  Check, type_error, attribute_error, key_error, refuse_if, item, require_equal, invalid_outcome,
}
use acgps_public.Workflow.Binding.{is_the_text}
use acgps_public.Workflow.Catalog.{Catalog, get_path, iterate}

abbrev pub incomplete : String
incomplete = "WORKFLOW_TRANSACTION_INCOMPLETE"

-- `_path_exists`: the keys lead to a value.
unfoldable pub path_exists : Value → List String → Bool
unfolding lookup pairs
path_exists v [] = true
path_exists (dict d) (key ∷ path) = elim (lookup key (pairs d)) [
  | none ↦ false
  | some v ↦ path_exists v path
]
path_exists v (key ∷ path) = false

-- `_get_path(record, path)`, for a path of the catalog: a value that is no text has no `split`.
unfoldable pub value_at : Value → Value → Check Value
unfolding get_path split_on
value_at record_value (text path) = ok (get_path record_value (split_on b'.' path))
value_at record_value _ = raise attribute_error

-- `value.items()`
abbrev items_of : Value → Check Dict
unfolding pairs
items_of (dict d) = ok (pairs d)
items_of _ = raise attribute_error

-- One table of a graph: each of its fields of `source` is what the record holds at its path.
unfoldable pub bound_fields :
    (source record_value graph : Value) → (table prefix before after : String) → Check (Unit {0})
unfolding item value_at require_equal for_each fmt pairs
bound_fields source record_value graph table prefix before after = item graph table >>= λ bindings.
    items_of bindings >>= λ entries. for_each entries (λ (name, path).
      item source name >>= λ actual. value_at record_value path >>= λ expected.
      require_equal actual expected (fmt (prefix ∷ name ∷ [])) (fmt (before ∷ name ∷ after ∷ []))
        incomplete)

-- `planned_state[field]` for a field that is an element of a value: a list or a mapping is no key.
unfoldable pub state_item : Value → Value → Check Value
unfolding item
state_item state (text name) = item state name
state_item state (seq vs) = raise type_error
state_item state (dict d) = raise type_error
state_item state _ = raise key_error

-- The text of a field in a path, once a mapping has it.
abbrev name_of : Value → String
name_of (text s) = s
name_of _ = ""

unfoldable pub null_fields : Value → Value → Check (Unit {0})
unfolding item iterate state_item refuse_if for_each fmt
null_fields state graph = item graph "state_null_bindings" >>= λ table. iterate table >>= λ fields.
    for_each fields (λ field. state_item state field >>= λ v.
    refuse_if (not (is_null v)) incomplete (fmt ("planned_state." ∷ name_of field ∷ []))
      "initialization state field must be null")

-- One entry of `_validate_catalog_bindings`.
unfoldable pub check_catalog_binding : Value → String → String → Value → Check (Unit {0})
unfolding invalid_outcome refuse_if path_exists get_path require_equal split_on
check_catalog_binding record_value table_path left (text right) =
    refuse_if (not (path_exists record_value (split_on b'.' left))) incomplete left
      "left binding path is missing"
    >> refuse_if (not (path_exists record_value (split_on b'.' right))) incomplete right
        "right binding path is missing"
    >> require_equal (get_path record_value (split_on b'.' left))
        (get_path record_value (split_on b'.' right)) left "catalog binding mismatch" incomplete
check_catalog_binding record_value table_path left _ =
    invalid_outcome incomplete table_path "binding paths must be strings"

unfoldable pub validate_catalog_bindings : Value → String → Value → Check (Unit {0})
unfolding invalid_outcome check_catalog_binding for_each pairs
validate_catalog_bindings record_value table_path (dict bindings) =
    for_each (pairs bindings)
      (λ (left, right). check_catalog_binding record_value table_path left right)
validate_catalog_bindings record_value table_path _ =
    invalid_outcome incomplete table_path "binding table must be a mapping"

unfoldable pub check_initialization_graph : Value → Dict → Value → Check (Unit {0})
unfolding bound_fields null_fields get
check_initialization_graph record_value d graph =
    bound_fields (get d "canonical_result") record_value graph "result_audit_bindings"
      "canonical_result." "initialization result " " must match planned audit event"
    >> bound_fields (get d "planned_state") record_value graph "state_audit_bindings"
        "planned_state." "initialization state " " must match planned audit event"
    >> bound_fields (get d "canonical_request") record_value graph "request_audit_bindings"
        "planned_audit_event." "initialization planned audit " " must match request"
    >> null_fields (get d "planned_state") graph

unfoldable pub check_transition_graph : Value → Dict → Value → Check (Unit {0})
unfolding bound_fields item validate_catalog_bindings for_each fmt get pairs
check_transition_graph record_value d graph =
    bound_fields (get d "canonical_request") record_value graph "binding_copies"
      "planned_audit_event." "transition planned audit " " must match request"
    >> (item graph "identity_bindings" >>= λ tables. items_of tables >>= λ entries.
        for_each entries (λ (name, bindings).
          validate_catalog_bindings record_value
            (fmt ("task1_invariants.operation_graphs.transition.identity_bindings." ∷ name ∷ []))
            bindings))

unfoldable pub validate_transition_operation_graph : Catalog → Value → Dict → Check (Unit {0})
unfolding get item refuse_if py_eq check_initialization_graph check_transition_graph
validate_transition_operation_graph loaded record_value d = loaded >>= λ catalog.
    item catalog "operation_graphs" >>= λ graphs.
    item graphs (
      if is_the_text "INITIALIZATION" (get d "operation_kind")
      then "initialization"
      else "transition")
    >>= λ graph. item graph "operation_kind" >>= λ kind.
        refuse_if (not (py_eq kind (get d "operation_kind"))) incomplete
          "task1_invariants.operation_graphs" "operation graph kind mismatch"
        >> (if is_the_text "INITIALIZATION" (get d "operation_kind")
            then check_initialization_graph record_value d graph
            else check_transition_graph record_value d graph)
