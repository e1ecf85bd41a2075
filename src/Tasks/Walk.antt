-- ===== src/Tasks/Walk.antt =====
-- The variables of the walk through the generations of an audit trail in acgps/workflow_store.py.
use acgps_public.Prelude.{ℕ, String, Bool, true, false, not, ◌&&◌, List, [], ◌∷◌, ltb}
use acgps_public.Py.Value.{ℤ, pos, negsuc, Value, null, Fields, Dict, pairs, get, py_eq, is_dict}
use acgps_public.Workflow.Request.{mapping_of}

-- The variables of the loop: the generation and the head that is expected in it, a null where there
-- is none, the generations seen, and whether the resolution was found.
pub record Walk : Type 0 where
  pub generation : ℤ
  pub head_event_id : Value
  pub head_sequence : Value
  pub head_hash : Value
  pub visited : List ℤ
  pub found : Bool

-- What an iteration of the loop leaves: the answer, or the variables of the next one.
pub data Turn : Type 0 where
  finished : Bool → Turn
  further : Walk → Turn

-- `m < n` and `m >= n`, on integers
abbrev pub int_below : ℤ → ℤ → Bool
int_below (pos m) (pos n) = ltb m n
int_below (pos m) (negsuc n) = false
int_below (negsuc m) (pos n) = true
int_below (negsuc m) (negsuc n) = ltb n m

-- The rows of a generation are found under natural numbers alone.
abbrev pub natural : ℤ → ℕ
natural (pos n) = n
natural (negsuc n) = 0

-- What is fixed during the walk.
pub record Question : Type 0 where
  pub task_id : String
  pub project_id : Value
  pub current_generation : ℤ
  pub resolution : Value

-- `event.get("decision_resolution_binding")` embeds the resolution.
abbrev pub carries : Value → Fields → Bool
carries resolution event =
    let binding = get (pairs event) "decision_resolution_binding" in
    is_dict binding && py_eq (get (mapping_of binding) "embedded_record") resolution

-- `expected is not None and actual != expected`
abbrev pub misses : Value → Value → Bool
misses null actual = false
misses expected actual = not (py_eq actual expected)

abbrev pub first_event : List Fields → Dict
first_event [] = []
first_event (event ∷ events) = pairs event
