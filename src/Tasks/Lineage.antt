-- ===== src/Tasks/Lineage.antt =====
-- `has_committed_decision_resolution` of acgps/workflow_store.py: the walk from the head of a task's
-- audit trail back through the generations, in search of a resolution.
pub mod Ends
use acgps_public.Prelude.{
  ℕ, zero, suc, ◌+◌, String, Bool, true, false, not, ◌&&◌, ◌||◌, Option, none, some, List, [], ◌∷◌,
  ◌==◌, nat_eq, leb, ltb, any, length, if◌then◌else◌,
}
use acgps_public.Py.Result.{ok, raise, ◌>>=◌, ◌>>◌}
use acgps_public.Py.Value.{
  ℤ, pos, negsuc, int_eq, Value, null, int, text, dict, Fields, Dict, pairs, get, py_eq, is_null,
  is_dict, dict_of,
}
use acgps_public.Workflow.Outcome.{Check, Outside, item}
use acgps_public.Workflow.Request.{mapping_of}
use acgps_public.Workflow.Catalog.{Catalog}
use acgps_public.Workflow.Generation.{audit_corrupt}
use acgps_public.Tasks.Json.{Json, store_error, fail_if}
use acgps_public.Tasks.Tables.{Row, Tables, of_task, of_generation, by_sequence}
use acgps_public.Tasks.PairCheck.{column_text}
use acgps_public.Tasks.Read.{require_safe_id, read_task_state, event_in_row}
use acgps_public.Tasks.Walk.{
  Walk, Turn, finished, further, int_below, natural, Question, carries, misses, first_event,
}

module _ (json : Json) (outside : Outside) (catalog : Catalog) where
  -- The event of a row belongs to the prefix.
  unfoldable pub check_prefix_event : Question → Walk → ℕ → Value → Dict → Check (Unit {0})
  unfolding get py_eq
  check_prefix_event question walk expected previous_hash event =
      fail_if
        (not (py_eq (get event "task_id") (text question.task_id))
          || not (py_eq (get event "project_id") question.project_id)
          || not (py_eq (get event "generation") (int walk.generation))
          || not (py_eq (get event "sequence") (int (pos expected)))
          || not (py_eq (get event "previous_event_hash") previous_hash))
        audit_corrupt "audit_event" "audit prefix identity or hash chain mismatch"

  -- The events up to the expected head, and whether it was found.
  unfoldable pub read_prefix :
      Question → Walk → ℕ → Value → List (Row json.Text) → Check (List Fields × Bool)
  unfolding event_in_row check_prefix_event get py_eq pairs
  read_prefix question walk expected previous_hash [] = ok ([], false)
  read_prefix question walk expected previous_hash (row ∷ rows) =
      fail_if (not (nat_eq row.sequence expected)) audit_corrupt "sequence"
        "authoritative audit sequence is not contiguous"
      >>= λ _. event_in_row json outside catalog row.event_json >>= λ event.
          check_prefix_event question walk expected previous_hash (pairs event) >>= λ _.
          (let rest =
              read_prefix question walk (expected + 1) (get (pairs event) "event_hash") rows in
            if py_eq (get (pairs event) "event_hash") walk.head_hash
            then ok (event ∷ [], true)
            else rest >>= λ read. ok (event ∷ read.0, read.1))

  -- The head is the one that was expected, and in the current generation it is the last row.
  unfoldable pub check_walk_head : Question → Walk → List Fields → ℕ → Check (Unit {0})
  unfolding get py_eq pairs
  check_walk_head question walk prefix rows =
      let head = last prefix in
      fail_if (misses walk.head_event_id (get head "event_id")) audit_corrupt "audit_head_event_id"
        "trusted audit head event identity mismatch"
      >>= λ _.
          fail_if (misses walk.head_sequence (get head "sequence")) audit_corrupt
            "audit_head_sequence" "trusted audit head sequence mismatch"
          >>= λ _.
              fail_if
                (int_eq walk.generation question.current_generation
                  && not (nat_eq (length prefix) rows))
                audit_corrupt "audit_head_hash" "current audit head is not the authoritative tail"
    where
      last : List Fields → Dict
      last [] = []
      last (event ∷ []) = pairs event
      last (event ∷ next ∷ events) = last (next ∷ events)

  -- The generation before this one.
  abbrev pub earlier : Walk → Bool → Dict → Dict → ℤ → Walk
  earlier walk found trusted started predecessor = record {
    generation = predecessor;
    head_event_id = get trusted "event_id";
    head_sequence = get trusted "sequence";
    head_hash = get started "predecessor_valid_head_hash";
    visited = walk.generation ∷ walk.visited;
    found = found;
  }

  -- The lineage ends in another generation than the first, or with a predecessor's hash.
  abbrev pub ends_early : Walk → Dict → Bool
  ends_early walk started =
      not (int_eq walk.generation (pos 1))
      || not (is_null (get started "predecessor_valid_head_hash"))

  -- The trusted prefix of the details is not the predecessor that the start record names.
  abbrev pub is_untrusted : Dict → Dict → ℤ → Bool
  is_untrusted details started predecessor =
      let trusted = mapping_of (get details "previous_trusted_prefix") in
      not (is_dict (get details "previous_trusted_prefix"))
      || not (py_eq (get trusted "generation") (int predecessor))
      || not (py_eq (get trusted "event_hash") (get started "predecessor_valid_head_hash"))

  -- The generation that came before.
  unfoldable pub step_back : Walk → Bool → Dict → Dict → Value → Check Turn
  unfolding get py_eq
  step_back walk found details started null =
      fail_if (ends_early walk started) audit_corrupt "audit_generation"
        "audit lineage ended before generation one"
      >>= λ _. ok (finished found)
  step_back walk found details started (int predecessor) =
      fail_if (not (int_below predecessor walk.generation)) audit_corrupt
        "audit_generation.predecessor_generation" "audit predecessor is invalid"
      >>= λ _.
          fail_if (is_untrusted details started predecessor) audit_corrupt "previous_trusted_prefix"
            "audit predecessor binding mismatch"
          >>= λ _. ok (
              further (
                earlier walk found (mapping_of (get details "previous_trusted_prefix")) started
                  predecessor))
  step_back walk found details started v =
      store_error audit_corrupt "audit_generation.predecessor_generation"
        "audit predecessor is invalid"

  -- The details hold no start record of the generation.
  abbrev pub is_unstarted : Walk → Dict → Bool
  is_unstarted walk details =
      not (is_dict (get details "audit_generation"))
      || not (
          py_eq (get (mapping_of (get details "audit_generation")) "generation")
            (int walk.generation))

  -- The start record of the generation, in its first event.
  unfoldable pub check_start : Question → Walk → List Fields → Check Turn
  unfolding get py_eq pairs step_back
  check_start question walk prefix =
      let details = mapping_of (get (first_event prefix) "details") in
      fail_if (is_unstarted walk details) audit_corrupt "audit_generation"
        "audit generation start record is missing"
      >>= λ _.
          step_back walk (walk.found || any (carries question.resolution) prefix) details
            (mapping_of (get details "audit_generation"))
            (get (mapping_of (get details "audit_generation")) "predecessor_generation")

  -- `generation in visited or generation < 1 or generation > current_generation`
  abbrev pub out_of_line : Question → Walk → Bool
  out_of_line question walk =
      any (int_eq walk.generation) walk.visited
      || int_below walk.generation (pos 1)
      || int_below question.current_generation walk.generation

  -- The body of the loop.
  unfoldable pub turn : Question → Tables json.Text → Walk → Check Turn
  unfolding of_task of_generation by_sequence read_prefix check_walk_head check_start
  turn question tables walk =
      fail_if (out_of_line question walk) audit_corrupt "audit_generation"
        "audit generation lineage is cyclic or invalid"
      >>= λ _.
          (let rows = by_sequence (
              of_generation (natural walk.generation)
                (of_task question.task_id tables.audit_events)) in
            read_prefix question walk 1 null rows >>= λ read.
            fail_if (not read.1) audit_corrupt "audit_head_hash" "trusted audit head is missing"
            >>= λ _. check_walk_head question walk read.0 (length rows) >>= λ _.
                check_start question walk read.0)

  -- `while True`, on fuel: `none` where the fuel runs out.
  unfoldable pub walk_back : ℕ → Question → Tables json.Text → Walk → Option (Check Bool)
  unfolding turn
  walk_back zero question tables walk = none
  walk_back (suc fuel) question tables walk = elim (turn question tables walk) [
    | raise stop ↦ some (raise stop)
    | ok (finished found) ↦ some (ok found)
    | ok (further next) ↦ walk_back fuel question tables next
  ]

  -- Where the walk starts: the head that the task's state names.
  abbrev pub walk_start : Dict → Walk
  unfolding get
  walk_start state = record {
    generation = generation_in (get state "audit_generation");
    head_event_id = get state "audit_head_event_id";
    head_sequence = null;
    head_hash = get state "audit_head_hash";
    visited = [];
    found = false;
  }
    where
      generation_in : Value → ℤ
      generation_in (int n) = n
      generation_in v = pos 0

  -- The state of the task, and what the walk asks.
  unfoldable pub prepare : Dict → Tables json.Text → Check (Question × Walk)
  unfolding get require_safe_id read_task_state item pairs
  prepare resolution tables = item (dict_of resolution) "task_id" >>= λ task_id.
      require_safe_id task_id "task_id" >>= λ _.
      read_task_state json outside (column_text task_id) tables >>= λ state.
      (let walk = walk_start (pairs state) in
        ok (
          record {
            task_id = column_text task_id;
            project_id = get (pairs state) "project_id";
            current_generation = walk.generation;
            resolution = dict_of resolution;
          },
          walk,
        ))

  -- The number of generations from this one back.
  abbrev pub generations : ℤ → ℕ
  generations (pos n) = n
  generations (negsuc n) = 0

  -- `has_committed_decision_resolution`, with fuel for each generation and one turn more
  unfoldable pub has_committed_decision_resolution : Dict → Tables json.Text → Option (Check Bool)
  unfolding prepare walk_back
  has_committed_decision_resolution resolution tables = elim (prepare resolution tables) [
    | raise stop ↦ some (raise stop)
    | ok (question, walk) ↦ walk_back (suc (generations walk.generation)) question tables walk
  ]
