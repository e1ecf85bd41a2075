-- ===== src/Tasks/Planned.antt =====
-- A transaction that acgps/workflow_contracts.py accepts, and the commit of acgps/workflow_store.py
-- that it plans.
use acgps_public.Prelude.{◌≡◌, refl, ap, sym, subst, ◌∙◌, String, true, false}
use acgps_public.Py.Result.{ok, >>=-eq-ok}
use acgps_public.Py.Value.{Value, null, bool, int, text, seq, dict, Dict, get, py_eq, is_text}
use acgps_public.Workflow.Outcome.{Outside, first_of, require_mapping}
use acgps_public.Workflow.Passed.{
  first_of-eq-ok, with_code-eq-ok, require_mapping-eq-ok, py_eq-text, IsTextThat, text-py_eq,
}
use acgps_public.Workflow.Request.{mapping_of}
use acgps_public.Workflow.Request.Authorized.{IsAuthorized}
use acgps_public.Workflow.AuditEvent.Shape.{IsAuditEvent}
use acgps_public.Workflow.TaskState.Shape.{IsTaskState}
use acgps_public.Workflow.Catalog.{Catalog}
use acgps_public.Workflow.Graph.{incomplete}
use acgps_public.Workflow.Transaction.{is_initialization}
use acgps_public.Workflow.Plan.{
  request_of, event_of, state_of, planned_names, planned_move, check_planned_names,
  check_planned_move, transaction_checks, validate_transition_transaction,
}
use acgps_public.Tasks.Takes.{IsMove, validate_state_event_pair-ok}
use acgps_public.Tasks.Evaluation.{same_evaluation, validate_policy-evaluation}
use acgps_public.Tasks.PairCheck.{validate_state_event_pair}
use acgps_public.Tasks.Pair.{IsPair, advances, equal_to_text, text_equal_to, equal_numbers}
use acgps_public.Tasks.PlannedParts.{
  not_refused, check_planned_hash-eq-ok, chosen, check_records-IsAuthorized, event_shape, IsBound,
  event-IsBound, check_records-from, planned_target, state_shape,
}

-- The transaction plans an authorized move: the store accepts its event and its state as a pair.
pub record IsPlan (outside : Outside) (d : Dict) : Type 0 where
  pub authorized : IsAuthorized (request_of d)
  pub is_pair : IsPair (event_of d) (state_of d)
  pub is_move : IsMove (event_of d) (state_of d)
  pub store_accepts : validate_state_event_pair (event_of d) (state_of d) ≡ ok tt
  pub target : get (state_of d) "current_state" ≡ get (request_of d) "to_state"
  pub of_task : get (state_of d) "task_id" ≡ get d "task_id"
  pub event_hash :
      get d "planned_audit_event_hash" ≡ text (outside.sha (get d "planned_audit_event"))
  pub state_hash : get d "planned_state_hash" ≡ text (outside.sha (get d "planned_state"))

planned-IsPair :
    (d : Dict)
    → IsAuditEvent (event_of d)
    → IsTaskState (state_of d)
    → IsAuthorized (request_of d)
    → check_planned_names d ≡ ok tt
    → check_planned_move d ≡ ok tt
    → IsPair (event_of d) (state_of d)
      × (get (state_of d) "current_state" ≡ get (request_of d) "to_state")
      × (get (state_of d) "task_id" ≡ get d "task_id")
unfolding check_planned_names check_planned_move
planned-IsPair d event state request names move =
    let (of_event, (_, (of_state, _))) = first_of-eq-ok (planned_names d) names in
    let (type, (_, (_, (to, (current, (_, (_, (_, (_, (id, (hash, (generation, _)))))))))))) =
      first_of-eq-ok (planned_move d) move in
    let task = equal_to_text _ _ event.task_id (not_refused _ _ _ _ of_event) in
    let task' = equal_to_text _ _ state.task_id (not_refused _ _ _ _ of_state) in
    let target = equal_to_text _ _ state.current_state (not_refused _ _ _ _ current) in
    (
      record {
        same_task = task ∙ sym task';
        same_generation =
            equal_numbers _ _ state.audit_generation event.generation
              (not_refused _ _ _ _ generation);
        head_id = equal_to_text _ _ state.audit_head_event_id (not_refused _ _ _ _ id);
        head_hash = equal_to_text _ _ state.audit_head_hash (not_refused _ _ _ _ hash);
        moves =
            advances (py_eq-text _ _ (not_refused _ _ _ _ type))
              (target ∙ sym (text_equal_to _ _ request.target (not_refused _ _ _ _ to)));
      },
      target,
      task',
    )

is_text-eq-true : (v : Value) → is_text v ≡ true → (s : String) × (v ≡ text s)
is_text-eq-true (text s) h = (s, refl)
is_text-eq-true null h = absurd (cc)
is_text-eq-true (bool b) h = absurd (cc)
is_text-eq-true (int n) h = absurd (cc)
is_text-eq-true (seq vs) h = absurd (cc)
is_text-eq-true (dict d) h = absurd (cc)

-- Two values that are `==` to one third value, the first of them a text.
same_text :
    (v w u : Value) (s : String) → v ≡ text s → py_eq v u ≡ true → py_eq w u ≡ true → w ≡ text s
same_text v w u s is_s p q =
    let is_u : u ≡ text s = text-py_eq u s (subst (λ x. py_eq x u ≡ true) is_s p) in
    py_eq-text w s (subst (λ x. py_eq w x ≡ true) is_u q)

planned-IsMove :
    (outside : Outside) (d : Dict) {P : String → Type 0}
    → IsAuditEvent (event_of d)
    → IsTaskState (state_of d)
    → IsBound outside (event_of d)
    → IsTextThat P (get (request_of d) "from_state")
    → (get (state_of d) "current_state" ≡ get (event_of d) "to_state")
    → check_planned_names d ≡ ok tt
    → check_planned_move d ≡ ok tt
    → IsMove (event_of d) (state_of d)
unfolding check_planned_names check_planned_move
planned-IsMove outside d event state bound from target names move =
    let (_, (project, (_, (project', _)))) = first_of-eq-ok (planned_names d) names in
    let (
      type,
      (
        transition,
        (
          event_from,
          (_, (_, (state_from, (last, (evaluation, (_, (_, (_, (_, (binding, _)))))))))),
        ),
      ),
    ) =
      first_of-eq-ok (planned_move d) move in
    let is_type = py_eq-text _ _ (not_refused _ _ _ _ type) in
    let (id, is_id) = is_text-eq-true _ (bound.transition is_type) in
    let (ev, is_ev, item_ev) = validate_policy-evaluation outside _ (bound.policy is_type) in
    let named = same_evaluation _ _ ev (not_refused _ _ _ _ binding) is_ev in
    record {
      is_transition = is_type;
      same_project =
          event.project_id.is_text
          ∙ sym (
              same_text _ _ _ event.project_id.content event.project_id.is_text
                (not_refused _ _ _ _ project) (not_refused _ _ _ _ project'));
      target = target;
      previous = from.content;
      is_previous = py_eq-text _ _ (
          subst (λ x. py_eq (get (state_of d) "previous_state") x ≡ true) from.is_text
            (not_refused _ _ _ _ state_from));
      from = py_eq-text _ _ (
          subst (λ x. py_eq (get (event_of d) "from_state") x ≡ true) from.is_text
            (not_refused _ _ _ _ event_from));
      transition = id;
      is_last =
          same_text _ _ _ id is_id (not_refused _ _ _ _ transition) (not_refused _ _ _ _ last);
      names = is_id;
      evaluation = ev;
      is_evaluation = py_eq-text _ _ (
          subst (λ x. py_eq (get (state_of d) "policy_evaluation_id") x ≡ true) named
            (not_refused _ _ _ _ evaluation));
      by_policy = item_ev;
    }

transaction_checks-IsPlan :
    (outside : Outside) (loaded : Catalog) (v : Value) (d : Dict)
    → first_of (transaction_checks outside loaded v d) ≡ ok tt
    → is_initialization d ≡ false
    → IsPlan outside d
transaction_checks-IsPlan outside loaded v d h transition =
    let (
      _,
      (_, (_, (_, (records, (_, (_, (event, (state, (names, (move, (_, (eh, (sh, _))))))))))))),
    ) =
      first_of-eq-ok (transaction_checks outside loaded v d) h in
    let authorized = check_records-IsAuthorized outside d records transition in
    let e = event_shape outside loaded _ (with_code-eq-ok _ _ event) in
    let s = state_shape outside _ (with_code-eq-ok _ _ state) in
    let moves = chosen (is_initialization d) _ _ move transition in
    let (is_pair, target, task) = planned-IsPair d e s authorized names moves in
    let is_move =
      planned-IsMove outside d e s (event-IsBound outside loaded _ (with_code-eq-ok _ _ event))
        (check_records-from outside d records transition)
        (target ∙ sym (text_equal_to _ _ authorized.target (planned_target d moves))) names moves in
    record {
      authorized = authorized;
      is_pair = is_pair;
      is_move = is_move;
      store_accepts = validate_state_event_pair-ok (event_of d) (state_of d) e s is_pair is_move;
      target = target;
      of_task = task;
      event_hash = check_planned_hash-eq-ok outside d _ _ eh;
      state_hash = check_planned_hash-eq-ok outside d _ _ sh;
    }

-- An accepted transaction that is no initialization has a request whose target its policy binding
-- authorizes, and plans, for its task and with their digests, an event and a state that agree: the
-- state has the task, the project and the generation of the event, names it as its audit head, is
-- in the target of the request, and has as its previous state, its last transition and its policy
-- evaluation those of the event; and the check of pairs of the store accepts them.
pub validate_transition_transaction-IsPlan :
    (outside : Outside) (loaded : Catalog) (v : Value)
    → validate_transition_transaction outside loaded v ≡ ok tt
    → is_initialization (mapping_of v) ≡ false
    → IsPlan outside (mapping_of v)
unfolding validate_transition_transaction
validate_transition_transaction-IsPlan outside loaded v h transition =
    let (d, is_mapping, passed) = >>=-eq-ok (require_mapping v incomplete "$" _) _ h in
    let (fields, is_dict, same) = require_mapping-eq-ok v incomplete "$" _ is_mapping in
    let of_v : mapping_of v ≡ d = ap mapping_of is_dict ∙ same in
    subst (IsPlan outside) (sym of_v) (
      transaction_checks-IsPlan outside loaded v d passed
        (subst (λ e. is_initialization e ≡ false) of_v transition))
