-- ===== src/Tasks/Written.antt =====
-- The outcomes of a commit: the event and the state are there already, or they are new.
use acgps_public.Prelude.{
  ◌≡◌, subst, inl, inr, Bool, true, false, not, ◌||◌, Option, none, some, Option-cases,
}
use acgps_public.Py.Result.{ok, >>=-eq-ok, ok-injective}
use acgps_public.Py.Value.{Dict, lookup}
use acgps_public.Workflow.Outcome.{Outside}
use acgps_public.Workflow.Catalog.{Catalog}
use acgps_public.Tasks.Json.{Json, fail_if}
use acgps_public.Tasks.Tables.{Tables, event_at}
use acgps_public.Tasks.Commit.{
  inserted, is_stored, replay, validate_authoritative_predecessor, write_pair,
}
use acgps_public.Tasks.PairCheck.{task_of, generation_of, sequence_of}

module _ (json : Json) (outside : Outside) (catalog : Catalog) where
  -- A commit leaves the tables as they are, or inserts a row that was not there.
  pub data Written (event state : Dict) (event_json state_json : json.Text)
      (tables : Tables json.Text) : Bool → Tables json.Text → Type 0 where
    replayed :
        {existing : json.Text}
        → event_at (task_of event) (generation_of event) (sequence_of event) tables.audit_events
          ≡ some existing
        → Written event state event_json state_json tables false tables
    inserted_new :
        event_at (task_of event) (generation_of event) (sequence_of event) tables.audit_events
          ≡ none
        → validate_authoritative_predecessor json outside catalog event state
            (lookup (task_of state) tables.task_states)
            tables
          ≡ ok tt
        → Written event state event_json state_json tables true
            (inserted json outside catalog event state event_json state_json tables)

  replay-eq-ok :
      (existing : json.Text) (o : Option json.Text) (event_json state_json : json.Text)
      (tables : Tables json.Text) {out : Bool × Tables json.Text}
      → replay json outside catalog existing o event_json state_json tables ≡ ok out
      → (false, tables) ≡ out
  unfolding replay
  replay-eq-ok existing o event_json state_json tables h =
      let (_, _, h₁) =
        >>=-eq-ok
          (fail_if
            (not (json.same existing event_json)
              || not (is_stored json outside catalog o state_json))
            _ _ _)
          _ h in
      ok-injective h₁

  pub write_pair-Written :
      (event state : Dict) (event_json state_json : json.Text) (tables : Tables json.Text)
      {out : Bool × Tables json.Text}
      → write_pair json outside catalog event state event_json state_json tables ≡ ok out
      → Written event state event_json state_json tables out.0 out.1
  unfolding write_pair
  write_pair-Written event state event_json state_json tables {out} h =
      elim (Option-cases
        (event_at (task_of event) (generation_of event) (sequence_of event) tables.audit_events)) [
          | inr (existing, found) ↦
              subst
                (λ (q : Bool × Tables json.Text).
                  Written event state event_json state_json tables q.0 q.1)
                (replay-eq-ok existing _ event_json state_json tables (rw (found, write_pair) at h))
                (replayed found)
          | inl missing ↦
              let (_, passed, h₁) =
                >>=-eq-ok
                  (validate_authoritative_predecessor json outside catalog event state
                    (lookup (task_of state) tables.task_states) tables)
                  _ (rw (missing, write_pair) at h) in
              subst
                (λ (q : Bool × Tables json.Text).
                  Written event state event_json state_json tables q.0 q.1)
                (ok-injective h₁) (inserted_new missing passed)
        ]
