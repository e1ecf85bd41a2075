-- ===== src/Tasks/Accepted.antt =====
-- What a commit of acgps/workflow_store.py has accepted and written.
use acgps_public.Prelude.{◌≡◌, ap₂, sym, subst, String, Bool}
use acgps_public.Py.Result.{ok, >>=-eq-ok, ok-injective}
use acgps_public.Py.Value.{Value, dict, Fields, pairs}
use acgps_public.Workflow.Outcome.{Outside, first_of}
use acgps_public.Workflow.Catalog.{Catalog}
use acgps_public.Workflow.AuditEvent.Shape.{PassedEvent, validate_audit_event-inv}
use acgps_public.Workflow.TaskState.Shape.{PassedState, validate_task_state-inv}
use acgps_public.Workflow.Request.{mapping_of}
use acgps_public.Workflow.Passed.{first_of-eq-ok}
use acgps_public.Tasks.Json.{Json, sqlite_json_text, validate_sqlite_json_text}
use acgps_public.Tasks.Tables.{Tables}
use acgps_public.Tasks.Commit.{commit_task_state_and_audit, pair_checks, write_pair}
use acgps_public.Tasks.PairCheck.{validate_state_event_pair}
use acgps_public.Tasks.Pair.{IsEntry, validate_state_event_pair-inv}

module _ (json : Json) (outside : Outside) (catalog : Catalog) where
  -- A commit that returns has accepted its event and its state, and wrote them.
  pub record Accepted (event state : Value) (tables : Tables json.Text)
      (out : Bool × Tables json.Text) : Type 0 where
    pub event_fields : Fields
    pub state_fields : Fields
    pub is_event : event ≡ dict event_fields
    pub is_state : state ≡ dict state_fields
    pub entry : IsEntry outside event_fields state_fields
    pub written :
        write_pair json outside catalog
          (pairs event_fields)
          (pairs state_fields)
          (json.dumps (dict event_fields))
          (json.dumps (dict state_fields))
          tables
        ≡ ok out

  sqlite_json_text-eq-ok :
      (v : Value) (code path : String) {t : json.Text}
      → sqlite_json_text json v code path ≡ ok t
      → json.dumps v ≡ t
  unfolding sqlite_json_text
  sqlite_json_text-eq-ok v code path h =
      let (_, _, h₁) = >>=-eq-ok (validate_sqlite_json_text json (json.dumps v) code path) _ h in
      ok-injective h₁

  accept :
      (event state : Value) (e s : Fields) (tables : Tables json.Text)
      {out : Bool × Tables json.Text}
      → event ≡ dict e
      → state ≡ dict s
      → PassedEvent outside e
      → PassedState outside s
      → validate_state_event_pair (mapping_of event) (mapping_of state) ≡ ok tt
      → write_pair json outside catalog
          (mapping_of event)
          (mapping_of state)
          (json.dumps event)
          (json.dumps state)
          tables
        ≡ ok out
      → Accepted event state tables out
  accept event state e s tables {out} is_event is_state ep sp pair written =
      let pair' : validate_state_event_pair (pairs e) (pairs s) ≡ ok tt =
        subst (λ q. validate_state_event_pair (pairs e) (mapping_of q) ≡ ok tt) is_state
          (subst (λ q. validate_state_event_pair (mapping_of q) (mapping_of state) ≡ ok tt) is_event
            pair) in
      record {
        event_fields = e;
        state_fields = s;
        is_event = is_event;
        is_state = is_state;
        entry = record {
          event_passed = ep;
          state_passed = sp;
          is_pair = validate_state_event_pair-inv (pairs e) (pairs s) ep.shape sp.shape pair';
        };
        written =
            subst
              (λ q.
                write_pair json outside catalog (pairs e) (mapping_of q) (json.dumps (dict e))
                  (json.dumps q) tables
                ≡ ok out)
              is_state
              (subst
                (λ q.
                  write_pair json outside catalog (mapping_of q) (mapping_of state) (json.dumps q)
                    (json.dumps state) tables
                  ≡ ok out)
                is_event written);
      }

  pub commit-Accepted :
      (event state : Value) (tables : Tables json.Text) {out : Bool × Tables json.Text}
      → commit_task_state_and_audit json outside catalog event state tables ≡ ok out
      → Accepted event state tables out
  unfolding commit_task_state_and_audit
  commit-Accepted event state tables {out} h =
      let (_, checked, h₁) =
        >>=-eq-ok (first_of (pair_checks json outside catalog event state)) _ h in
      let (event_ok, (state_ok, (pair_ok, _))) =
        first_of-eq-ok (pair_checks json outside catalog event state) checked in
      let (event_json, is_json, h₂) =
        >>=-eq-ok (sqlite_json_text json event "WORKFLOW_AUDIT_CORRUPT" "audit_event") _ h₁ in
      let (state_json, is_state_json, h₃) =
        >>=-eq-ok (sqlite_json_text json state "WORKFLOW_STATE_CORRUPT" "task_state") _ h₂ in
      let (e, is_event, ep) = validate_audit_event-inv outside catalog event event_ok in
      let (s, is_state, sp) = validate_task_state-inv outside state state_ok in
      accept event state e s tables is_event is_state ep sp pair_ok (
        subst
          (λ q.
            write_pair json outside catalog (mapping_of event) (mapping_of state) (json.dumps event)
              q tables
            ≡ ok out)
          (sym (sqlite_json_text-eq-ok state _ _ is_state_json))
          (subst
            (λ q.
              write_pair json outside catalog (mapping_of event) (mapping_of state) q state_json
                tables
              ≡ ok out)
            (sym (sqlite_json_text-eq-ok event _ _ is_json)) h₃))

  -- What a commit writes depends on the tables alone, once its checks have passed.
  pub commit-written :
      (event state : Value) (tables after : Tables json.Text) {out : Bool × Tables json.Text}
      → commit_task_state_and_audit json outside catalog event state tables ≡ ok out
      → commit_task_state_and_audit json outside catalog event state after
        ≡ write_pair json outside catalog
            (mapping_of event)
            (mapping_of state)
            (json.dumps event)
            (json.dumps state)
            after
  unfolding commit_task_state_and_audit
  commit-written event state tables after {out} h =
      let (_, checked, h₁) =
        >>=-eq-ok (first_of (pair_checks json outside catalog event state)) _ h in
      let (event_json, is_json, h₂) =
        >>=-eq-ok (sqlite_json_text json event "WORKFLOW_AUDIT_CORRUPT" "audit_event") _ h₁ in
      let (state_json, is_state_json, h₃) =
        >>=-eq-ok (sqlite_json_text json state "WORKFLOW_STATE_CORRUPT" "task_state") _ h₂ in
      let same_event = sqlite_json_text-eq-ok event _ _ is_json in
      let same_state = sqlite_json_text-eq-ok state _ _ is_state_json in
      rw (checked, is_json, is_state_json)
        (ap₂
          (λ x y. write_pair json outside catalog (mapping_of event) (mapping_of state) x y after)
          (sym same_event) (sym same_state))
