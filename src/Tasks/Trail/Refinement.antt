-- ===== src/Tasks/Trail/Refinement.antt =====
-- The commits of acgps/workflow_store.py as steps of a specification: the path of each task.
use acgps_public.Prelude.{
  ◌≡◌, refl, ap, ap₂, sym, subst, ◌∙◌, String, Bool, true, false, Option, some, List, [], ◌∷◌, ◌==◌,
}
use acgps_public.Py.Result.{ok}
use acgps_public.Py.Value.{Value, text, dict, Dict, Fields, pairs, get, lookup}
use acgps_public.Workflow.Outcome.{Outside}
use acgps_public.Workflow.Binding.{is_the_text}
use acgps_public.Workflow.Catalog.{Catalog}
use acgps_public.Workflow.Passed.{not-eq-false, is_the_text-eq-true}
use acgps_public.Tasks.Json.{Json}
use acgps_public.Tasks.Tables.{Row, Tables, of_task, upsert}
use acgps_public.Tasks.Tables.Laws.{of_task-same, of_task-other, lookup-upsert}
use acgps_public.Tasks.Commit.{
  inserted, first_differences, check_first, validate_authoritative_predecessor,
  commit_task_state_and_audit,
}
use acgps_public.Tasks.PairCheck.{task_of}
use acgps_public.Tasks.Pair.{IsEntry, fail_if-eq-ok, Moves, creates, advances}
use acgps_public.Tasks.Accepted.{commit-Accepted}
use acgps_public.Tasks.Written.{Written, replayed, inserted_new, write_pair-Written}
use acgps_public.Tasks.Trail.{RoundTrip, row_of, Stored, absent, present, IsConsistent, Run}
use acgps_public.Tasks.Trail.Head.{some_of-eq-false}
use acgps_public.Tasks.Trail.Consistent.{task_of-pair, Run-IsConsistent}
use acgps_public.Tasks.Trail.Kept.{followed}
use acgps_public.Workflow.Request.{mapping_of}
use acgps_public.Tasks.Trail.History.{history, paths, target_of, Trail-current}

-- One step of the specification, by an event: its task, which has no path, is opened in DRAFT, or it
-- moves on from its last state, which the event comes from, to the state that the event names; the
-- paths of the other tasks stay.
pub data Step (event : Dict) (before after : String → List Value) : Type 0 where
  opened :
      get event "event_type" ≡ text "TASK_CREATED"
      → before (task_of event) ≡ []
      → after (task_of event) ≡ text "DRAFT" ∷ []
      → ((j : String) → (task_of event == j) ≡ false → after j ≡ before j)
      → Step event before after
  moved :
      (path : List Value)
      → get event "event_type" ≡ text "TRANSITION_ACCEPTED"
      → before (task_of event) ≡ get event "from_state" ∷ path
      → after (task_of event) ≡ get event "to_state" ∷ get event "from_state" ∷ path
      → ((j : String) → (task_of event == j) ≡ false → after j ≡ before j)
      → Step event before after

not_both : {v : Value} → v ≡ text "TASK_CREATED" → v ≡ text "TRANSITION_ACCEPTED" → ⊥
not_both p q = clash (ap (is_the_text "TASK_CREATED") (sym p ∙ q))
  where
    clash : true ≡ false → ⊥
    clash e = cc

module _ (json : Json) (law : RoundTrip json) (outside : Outside) (catalog : Catalog) where
  created_type :
      (e : Fields) (tables : Tables json.Text)
      → check_first json outside catalog (pairs e) tables ≡ ok tt
      → get (pairs e) "event_type" ≡ text "TASK_CREATED"
  unfolding check_first
  created_type e tables h =
      let (_, (type, _)) =
        some_of-eq-false (first_differences json outside catalog (pairs e) tables)
          (fail_if-eq-ok _ _ _ _ h) in
      is_the_text-eq-true _ _ (not-eq-false _ type)

  -- What an event says of the path before it, and of its state: it creates its task in DRAFT, or it
  -- comes from the last state and leads to its target.
  data Leads (e s : Fields) (path : List Value) : Type 0 where
    creation :
        get (pairs e) "event_type" ≡ text "TASK_CREATED"
        → path ≡ []
        → get (pairs s) "current_state" ≡ text "DRAFT"
        → Leads e s path
    transition :
        (earlier : List Value)
        → get (pairs e) "event_type" ≡ text "TRANSITION_ACCEPTED"
        → path ≡ get (pairs e) "from_state" ∷ earlier
        → get (pairs s) "current_state" ≡ get (pairs e) "to_state"
        → Leads e s path

  draft :
      (event state : Dict)
      → Moves event state
      → get event "event_type" ≡ text "TASK_CREATED"
      → get state "current_state" ≡ text "DRAFT"
  draft event state (creates type to) first = to
  draft event state (advances type to) first = absurd (not_both first type)

  arrives :
      (event state : Dict)
      → Moves event state
      → get event "event_type" ≡ text "TRANSITION_ACCEPTED"
      → get state "current_state" ≡ get event "to_state"
  arrives event state (creates type to) later = absurd (not_both type later)
  arrives event state (advances type to) later = to

  entry-Leads :
      {k : String} {o : Option json.Text} {rows : List (Row json.Text)}
      → Stored json outside k o rows
      → (e s : Fields) (tables : Tables json.Text) → IsEntry outside e s
      → of_task k tables.audit_events ≡ rows
      → task_of (pairs e) ≡ k
      → validate_authoritative_predecessor json outside catalog (pairs e) (pairs s) o tables ≡ ok tt
      → Leads e s (history json rows)
  unfolding validate_authoritative_predecessor history
  entry-Leads absent e s tables entry has of_k h =
      let type = created_type e tables h in creation type refl (draft _ _ entry.is_pair.moves type)
  entry-Leads (present trail) e s tables entry has of_k h =
      let (follows, _, _) = followed json law outside catalog trail e s tables entry has of_k h in
      let (earlier, current) = Trail-current json law outside trail in
      transition earlier follows.is_transition
        (current ∙ ap (λ v. v ∷ earlier) (sym follows.from_state))
        (arrives _ _ entry.is_pair.moves follows.is_transition)

  inserted-Step :
      (e s : Fields) (tables : Tables json.Text)
      → IsEntry outside e s
      → IsConsistent json outside tables
      → validate_authoritative_predecessor json outside catalog
          (pairs e)
          (pairs s)
          (lookup (task_of (pairs s)) tables.task_states)
          tables
        ≡ ok tt
      → Step (pairs e) (paths json tables) (
          paths json (
            inserted json outside catalog
              (pairs e)
              (pairs s)
              (json.dumps (dict e))
              (json.dumps (dict s))
              tables))
  unfolding inserted history
  inserted-Step e s tables entry consistent passed =
      let k = task_of (pairs e) in
      let here : paths json tables' k ≡ get (pairs s) "current_state" ∷ paths json tables k =
        ap (history json) (of_task-same k (row_of json e) tables.audit_events refl)
        ∙ ap (λ v. v ∷ paths json tables k) (target_of json law outside e s entry) in
      let others : (j : String) → (k == j) ≡ false → paths json tables' j ≡ paths json tables j =
        λ j other. ap (history json) (of_task-other j (row_of json e) tables.audit_events other) in
      let leads = entry-Leads (consistent.of k) e s tables entry refl refl (
        subst
          (λ t.
            validate_authoritative_predecessor json outside catalog (pairs e) (pairs s)
              (lookup t tables.task_states) tables
            ≡ ok tt)
          (task_of-pair outside e s entry) passed) in
      elim leads [
        | creation type none_yet to ↦
            opened type none_yet (here ∙ ap₂ (λ v vs. v ∷ vs) to none_yet) others
        | transition earlier type from to ↦
            moved earlier type from (here ∙ ap₂ (λ v vs. v ∷ vs) to from) others
      ]
    where
      tables' : Tables json.Text
      tables' =
          inserted json outside catalog (pairs e) (pairs s) (json.dumps (dict e))
            (json.dumps (dict s)) tables

  -- A commit makes the step of its event, and stores its state, or it changes nothing.
  pub data Refines (event state : Value) (tables : Tables json.Text)
      : Bool → Tables json.Text → Type 0 where
    stays : Refines event state tables false tables
    steps :
        {after : Tables json.Text}
        → Step (mapping_of event) (paths json tables) (paths json after)
        → lookup (task_of (mapping_of event)) after.task_states ≡ some (json.dumps state)
        → Refines event state tables true after

  Written-Refines :
      (e s : Fields) (tables : Tables json.Text) {b : Bool} {after : Tables json.Text}
      → IsEntry outside e s
      → IsConsistent json outside tables
      → Written json outside catalog
          (pairs e)
          (pairs s)
          (json.dumps (dict e))
          (json.dumps (dict s))
          tables
          b
          after
      → Refines (dict e) (dict s) tables b after
  unfolding inserted
  Written-Refines e s tables entry consistent (replayed found) = stays
  Written-Refines e s tables entry consistent (inserted_new missing passed) =
      steps (inserted-Step e s tables entry consistent passed) (
        subst
          (λ t.
            lookup t (upsert (task_of (pairs s)) (json.dumps (dict s)) tables.task_states)
            ≡ some (json.dumps (dict s)))
          (task_of-pair outside e s entry)
          (lookup-upsert (task_of (pairs s)) (json.dumps (dict s)) tables.task_states))

  -- A commit on the tables of any run refines the specification of a task's path. One that returns
  -- true makes the step of its event: it opens the path of the event's task in DRAFT, or adds the
  -- event's target after the last state of the path, which is the state the event comes from; the
  -- paths of the other tasks stay, and the state is the task's state row. One that returns false
  -- leaves the tables as they are.
  pub commit-Refines :
      {tables : Tables json.Text}
      → Run json outside catalog tables
      → (event state : Value) {b : Bool} {after : Tables json.Text}
      → commit_task_state_and_audit json outside catalog event state tables ≡ ok (b, after)
      → Refines event state tables b after
  commit-Refines {tables} run event state {b} {after} h =
      let accepted = commit-Accepted json outside catalog event state tables h in
      subst (λ v. Refines v state tables b after) (sym accepted.is_event)
        (subst (λ v. Refines (dict accepted.event_fields) v tables b after) (sym accepted.is_state)
          (Written-Refines accepted.event_fields accepted.state_fields tables accepted.entry
            (Run-IsConsistent json law outside catalog run)
            (write_pair-Written json outside catalog _ _ _ _ tables accepted.written)))
