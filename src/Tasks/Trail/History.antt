-- ===== src/Tasks/Trail/History.antt =====
-- The path of states that the audit trail of a task records.
use acgps_public.Prelude.{
  ◌≡◌, refl, ap, sym, subst, ◌∙◌, ℕ, String, true, List, [], ◌∷◌, if◌then◌else◌,
}
use acgps_public.Py.Result.{Py, ok}
use acgps_public.Py.Value.{Value, null, text, dict, Dict, Fields, pairs, get}
use acgps_public.Workflow.Outcome.{Outside}
use acgps_public.Workflow.Binding.{is_the_text}
use acgps_public.Workflow.TaskState.Scalars.{is_scalar}
use acgps_public.Tasks.Json.{Json}
use acgps_public.Tasks.Tables.{Row, Tables, of_task}
use acgps_public.Tasks.Pair.{IsEntry, Moves, creates, advances}
use acgps_public.Tasks.Trail.{RoundTrip, Trail, created, advanced}

module _ (json : Json) where
  -- The state that an event leads to.
  abbrev pub target : Dict → Value
  target event =
      if is_the_text "TASK_CREATED" (get event "event_type")
      then text "DRAFT"
      else get event "to_state"

  abbrev pub target_read : Py String Value → Value
  target_read (ok (dict fields)) = target (pairs fields)
  target_read _ = null

  -- The states of a task, the last one first, as its rows record them.
  unfoldable pub history : List (Row json.Text) → List Value
  unfolding get
  history [] = []
  history (r ∷ rs) = target_read (json.loads r.event_json) ∷ history rs

  -- The path of each task.
  abbrev pub paths : Tables json.Text → String → List Value
  paths tables k = history (of_task k tables.audit_events)

module _ (json : Json) (law : RoundTrip json) (outside : Outside) where
  pub target_of :
      (e s : Fields)
      → IsEntry outside e s
      → target_read json (json.loads (json.dumps (dict e))) ≡ get (pairs s) "current_state"
  target_of e s entry = go entry.is_pair.moves
    where
      type_read :
          {t : String}
          → get (pairs e) "event_type" ≡ text t
          → get (pairs (law.normal e)) "event_type" ≡ text t
      type_read h =
          (law.looks e).same_scalars "event_type" (subst (λ v. is_scalar v ≡ true) (sym h) refl) ∙ h

      go :
          Moves (pairs e) (pairs s)
          → target_read json (json.loads (json.dumps (dict e))) ≡ get (pairs s) "current_state"
      go (creates type draft) = rw (law.reads e, type_read type) (sym draft)
      go (advances type to) =
          let t = entry.state_passed.shape.current_state in
          rw (law.reads e, type_read type)
            ((law.looks e).same_scalars "to_state"
                (subst (λ v. is_scalar v ≡ true) (sym (sym to ∙ t.is_text)) refl)
              ∙ sym to)

  -- The current state of a task with a trail is the last state of its path.
  pub Trail-current :
      {k : String} {n : ℕ} {rows : List (Row json.Text)} {s : Fields}
      → Trail json outside k n rows s
      → (path : List Value) × (history json rows ≡ get (pairs s) "current_state" ∷ path)
  unfolding history
  Trail-current (created e s entry k type generation sequence) =
      ([], ap (λ v. v ∷ []) (target_of e s entry))
  Trail-current (advanced {rows = rows} trail e s entry k generation sequence follows) =
      (history json rows, ap (λ v. v ∷ history json rows) (target_of e s entry))
