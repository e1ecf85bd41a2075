-- ===== src/Tasks/Trail.antt =====
-- The trail of a task: what the rows of the two tables say of it after any number of commits.
pub mod Head
pub mod Kept
pub mod Consistent
pub mod History
pub mod Refinement
pub mod Appended
use acgps_public.Prelude.{
  ◌≡◌, refl, ap, sym, subst, ◌∙◌, ℕ, ◌+◌, suc, String, Bool, true, false, Option, none, some, List,
  [], ◌∷◌,
}
use acgps_public.Py.Result.{ok}
use acgps_public.Py.Value.{
  ℤ, pos, Value, null, bool, int, text, dict, seq, Dict, Fields, pairs, get, lookup,
}
use acgps_public.Workflow.Outcome.{Outside}
use acgps_public.Workflow.Catalog.{Catalog}
use acgps_public.Workflow.TaskState.Scalars.{is_scalar, LooksLike}
use acgps_public.Tasks.Pair.{IsEntry}
use acgps_public.Tasks.Json.{Json}
use acgps_public.Tasks.Tables.{Row, Tables, of_task}
use acgps_public.Tasks.Commit.{commit_task_state_and_audit}
use acgps_public.Tasks.PairCheck.{task_of, generation_of, sequence_of}

-- What the `json` module documents: `loads` reads what `dumps` has written, as a mapping with the
-- same keys and the same scalars.
pub record RoundTrip (json : Json) : Type 0 where
  pub normal : Fields → Fields
  pub reads : (d : Fields) → json.loads (json.dumps (dict d)) ≡ ok (dict (normal d))
  pub looks : (d : Fields) → LooksLike (pairs (normal d)) (pairs d)

-- The row of an event.
abbrev pub row_of : (json : Json) → Fields → Row json.Text
row_of json e = record {
  task_id = task_of (pairs e);
  generation = generation_of (pairs e);
  sequence = sequence_of (pairs e);
  event_json = json.dumps (dict e);
}

-- The event follows the state that was current: it comes from its state, and names its audit head.
pub record Follows (before event : Dict) : Type 0 where
  pub is_transition : get event "event_type" ≡ text "TRANSITION_ACCEPTED"
  pub from_state : get event "from_state" ≡ get before "current_state"
  pub previous_hash : get event "previous_event_hash" ≡ get before "audit_head_hash"

module _ (json : Json) (outside : Outside) where
  -- `Trail k n rows s`: the rows of the task are the `n` events that made it, the last one first,
  -- each of them accepted and following the state before it, and `s` is its state.
  pub data Trail (k : String) : ℕ → List (Row json.Text) → Fields → Type 0 where
    created :
        (e s : Fields)
        → IsEntry outside e s
        → task_of (pairs e) ≡ k
        → get (pairs e) "event_type" ≡ text "TASK_CREATED"
        → get (pairs e) "generation" ≡ int (pos 1)
        → get (pairs e) "sequence" ≡ int (pos 1)
        → Trail k 1 (row_of json e ∷ []) s
    advanced :
        {n : ℕ} {rows : List (Row json.Text)} {before : Fields}
        → Trail k n rows before
        → (e s : Fields) → IsEntry outside e s
        → task_of (pairs e) ≡ k
        → get (pairs e) "generation" ≡ int (pos 1)
        → get (pairs e) "sequence" ≡ int (pos (n + 1))
        → Follows (pairs before) (pairs e)
        → Trail k (n + 1) (row_of json e ∷ rows) s

  -- A task has no row and no state, or a trail and its state.
  pub data Stored (k : String) : Option json.Text → List (Row json.Text) → Type 0 where
    absent : Stored k none []
    present :
        {n : ℕ} {rows : List (Row json.Text)} {s : Fields}
        → Trail k n rows s
        → Stored k (some (json.dumps (dict s))) rows

  -- The tables hold a trail for every task.
  pub record IsConsistent (tables : Tables json.Text) : Type 0 where
    pub of : (k : String) → Stored k (lookup k tables.task_states) (of_task k tables.audit_events)

  module _ (catalog : Catalog) where
    -- Any number of commits, from empty tables.
    pub data Run : Tables json.Text → Type 0 where
      start : Run (record { task_states = []; audit_events = [] })
      next :
          {before after : Tables json.Text} {committed : Bool} (event state : Value)
          → Run before
          → commit_task_state_and_audit json outside catalog event state before
            ≡ ok (committed, after)
          → Run after
