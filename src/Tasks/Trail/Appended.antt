-- ===== src/Tasks/Trail/Appended.antt =====
-- A commit repeated, and the rows that a commit leaves in place.
use acgps_public.Prelude.{◌≡◌, refl, sym, ◌∙◌, ℕ, String, Bool, true, false, some, ◌∷◌}
use acgps_public.Py.Result.{ok}
use acgps_public.Py.Value.{Value, Dict, lookup}
use acgps_public.Workflow.Outcome.{Outside}
use acgps_public.Workflow.Catalog.{Catalog}
use acgps_public.Workflow.Request.{mapping_of}
use acgps_public.Tasks.Json.{Json}
use acgps_public.Tasks.Tables.{Tables, event_at, upsert}
use acgps_public.Tasks.Tables.Laws.{lookup-upsert, event_at-here, event_at-kept}
use acgps_public.Tasks.Commit.{inserted, replay, write_pair, commit_task_state_and_audit}
use acgps_public.Tasks.PairCheck.{task_of, generation_of, sequence_of}
use acgps_public.Tasks.Accepted.{commit-written}
use acgps_public.Tasks.Written.{Written, replayed, inserted_new, write_pair-Written}

module _ (json : Json) (outside : Outside) (catalog : Catalog) where
  -- The event and the state that an insertion has written are found again.
  write_pair-again :
      (event state : Dict) (event_json state_json : json.Text) (tables : Tables json.Text)
      → json.same event_json event_json ≡ true
      → json.same state_json state_json ≡ true
      → write_pair json outside catalog event state event_json state_json
          (inserted json outside catalog event state event_json state_json tables)
        ≡ ok (false, inserted json outside catalog event state event_json state_json tables)
  unfolding write_pair inserted replay lookup upsert
  write_pair-again event state event_json state_json tables e s =
      rw
        (
          found,
          lookup-upsert (task_of state) state_json tables.task_states,
          e,
          s,
          write_pair,
          replay,
        )
        refl
    where
      found :
          event_at (task_of event) (generation_of event) (sequence_of event) (
            record {
              task_id = task_of event;
              generation = generation_of event;
              sequence = sequence_of event;
              event_json = event_json;
            }
            ∷ tables.audit_events)
          ≡ some event_json
      found =
          event_at-here
            (record {
              task_id = task_of event;
              generation = generation_of event;
              sequence = sequence_of event;
              event_json = event_json;
            })
            tables.audit_events

  -- The same write, once it has been made.
  Written-again :
      (event state : Dict) (event_json state_json : json.Text) (tables : Tables json.Text)
      {b : Bool} {after : Tables json.Text}
      → json.same event_json event_json ≡ true
      → json.same state_json state_json ≡ true
      → Written json outside catalog event state event_json state_json tables b after
      → write_pair json outside catalog event state event_json state_json tables ≡ ok (b, after)
      → write_pair json outside catalog event state event_json state_json after ≡ ok (false, after)
  Written-again event state event_json state_json tables e s (replayed found) h = h
  Written-again event state event_json state_json tables e s (inserted_new missing passed) h =
      write_pair-again event state event_json state_json tables e s

  -- A commit that has returned can be repeated: the same event and state return false and leave the
  -- tables as they are, where a text is `==` to itself.
  pub commit-again :
      (event state : Value) (tables : Tables json.Text) {b : Bool} {after : Tables json.Text}
      → ((t : json.Text) → json.same t t ≡ true)
      → commit_task_state_and_audit json outside catalog event state tables ≡ ok (b, after)
      → commit_task_state_and_audit json outside catalog event state after ≡ ok (false, after)
  commit-again event state tables {b} {after} reflexive h =
      let written = sym (commit-written json outside catalog event state tables tables h) ∙ h in
      commit-written json outside catalog event state tables after h
      ∙ Written-again (mapping_of event) (mapping_of state) (json.dumps event) (json.dumps state)
          tables (reflexive _) (reflexive _)
          (write_pair-Written json outside catalog _ _ _ _ tables written) written

  Written-appends :
      (event state : Dict) (event_json state_json : json.Text) (tables : Tables json.Text)
      {b : Bool} {after : Tables json.Text}
      → Written json outside catalog event state event_json state_json tables b after
      → (k : String) (g n : ℕ) {t : json.Text} → event_at k g n tables.audit_events ≡ some t
      → event_at k g n after.audit_events ≡ some t
  unfolding inserted
  Written-appends event state event_json state_json tables (replayed found) k g n h = h
  Written-appends event state event_json state_json tables (inserted_new missing passed) k g n h =
      event_at-kept k g n
        (record {
          task_id = task_of event;
          generation = generation_of event;
          sequence = sequence_of event;
          event_json = event_json;
        })
        tables.audit_events missing h

  -- The audit trail is append-only: the event at a coordinate of a task, a generation and a sequence
  -- is the same after every commit that returns.
  pub commit-appends :
      (event state : Value) (tables : Tables json.Text) {b : Bool} {after : Tables json.Text}
      → commit_task_state_and_audit json outside catalog event state tables ≡ ok (b, after)
      → (k : String) (g n : ℕ) {t : json.Text} → event_at k g n tables.audit_events ≡ some t
      → event_at k g n after.audit_events ≡ some t
  commit-appends event state tables h k g n found =
      let written = sym (commit-written json outside catalog event state tables tables h) ∙ h in
      Written-appends (mapping_of event) (mapping_of state) (json.dumps event) (json.dumps state)
        tables (write_pair-Written json outside catalog _ _ _ _ tables written) k g n found
