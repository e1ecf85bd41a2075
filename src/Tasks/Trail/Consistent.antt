-- ===== src/Tasks/Trail/Consistent.antt =====
-- The tables of acgps/workflow_store.py stay consistent in any run of commits.
use acgps_public.Prelude.{
  ◌≡◌, refl, ap, sym, subst, ◌∙◌, inl, inr, String, Bool, true, false, some, ◌∷◌, ◌==◌, Bool-cases,
  eq_refl,
}
use acgps_public.Py.Result.{ok}
use acgps_public.Py.Laws.{eq_of_==}
use acgps_public.Py.Value.{Value, Fields, pairs, dict, lookup}
use acgps_public.Workflow.Outcome.{Outside}
use acgps_public.Workflow.Catalog.{Catalog}
use acgps_public.Tasks.Pair.{IsEntry}
use acgps_public.Tasks.Json.{Json}
use acgps_public.Tasks.Tables.{Tables, of_task, upsert}
use acgps_public.Tasks.Tables.Laws.{lookup-upsert, lookup-upsert-other, of_task-same, of_task-other}
use acgps_public.Tasks.Commit.{
  inserted, validate_authoritative_predecessor, commit_task_state_and_audit,
}
use acgps_public.Tasks.PairCheck.{task_of, column_text}
use acgps_public.Tasks.Accepted.{commit-Accepted}
use acgps_public.Tasks.Written.{Written, replayed, inserted_new, write_pair-Written}
use acgps_public.Tasks.Trail.{RoundTrip, row_of, Stored, absent, IsConsistent, Run, start, next}
use acgps_public.Tasks.Trail.Kept.{extended}

pub task_of-pair :
    (outside : Outside) (e s : Fields) → IsEntry outside e s → task_of (pairs s) ≡ task_of (pairs e)
unfolding task_of
task_of-pair outside e s entry = ap column_text (sym entry.is_pair.same_task)

module _ (json : Json) (law : RoundTrip json) (outside : Outside) (catalog : Catalog) where
  -- The tables after an insertion, at a task.
  inserted-Stored :
      (e s : Fields) (tables : Tables json.Text)
      → IsEntry outside e s
      → IsConsistent json outside tables
      → validate_authoritative_predecessor json outside catalog
          (pairs e)
          (pairs s)
          (lookup (task_of (pairs s)) tables.task_states)
          tables
        ≡ ok tt
      → (k : String)
      → Stored json outside k
          (lookup k (upsert (task_of (pairs s)) (json.dumps (dict s)) tables.task_states))
          (of_task k (row_of json e ∷ tables.audit_events))
  inserted-Stored e s tables entry consistent passed k =
      let same : task_of (pairs s) ≡ task_of (pairs e) = task_of-pair outside e s entry in
      elim (Bool-cases (task_of (pairs e) == k)) [
        | inl here ↦
            let of_k : task_of (pairs e) ≡ k = eq_of_== _ k here in
            let of_s : task_of (pairs s) ≡ k = same ∙ of_k in
            let stored =
              extended json law outside catalog (consistent.of k) e s tables entry refl of_k (
                subst
                  (λ t.
                    validate_authoritative_predecessor json outside catalog (pairs e) (pairs s)
                      (lookup t tables.task_states) tables
                    ≡ ok tt)
                  of_s passed) in
            subst (λ o. Stored json outside k o (of_task k (row_of json e ∷ tables.audit_events)))
              (sym (
                ap (λ t. lookup k (upsert t (json.dumps (dict s)) tables.task_states)) of_s
                ∙ lookup-upsert k (json.dumps (dict s)) tables.task_states))
              (subst (λ rows. Stored json outside k (some (json.dumps (dict s))) rows)
                (sym (of_task-same k (row_of json e) tables.audit_events of_k)) stored)
        | inr other ↦
            let differs : (k == task_of (pairs s)) ≡ false =
              subst (λ t. (k == t) ≡ false) (sym same) (flip (task_of (pairs e)) k other) in
            subst (λ o. Stored json outside k o (of_task k (row_of json e ∷ tables.audit_events)))
              (sym (
                lookup-upsert-other k (task_of (pairs s)) (json.dumps (dict s)) tables.task_states
                  differs))
              (subst (λ rows. Stored json outside k (lookup k tables.task_states) rows)
                (sym (of_task-other k (row_of json e) tables.audit_events other)) (consistent.of k))
      ]
    where
      flip : (s t : String) → (s == t) ≡ false → (t == s) ≡ false
      flip s t h = elim (Bool-cases (t == s)) [
        | inl same ↦
            absurd (
              clash (s == t) h (subst (λ q. (s == q) ≡ true) (sym (eq_of_== t s same)) (eq_refl s)))
        | inr other ↦ other
      ]
        where
          clash : (b : Bool) → b ≡ false → b ≡ true → ⊥
          clash b p q = cc

  Written-IsConsistent :
      (e s : Fields) (tables : Tables json.Text) {b : Bool} {after : Tables json.Text}
      → IsEntry outside e s
      → IsConsistent json outside tables
      → Written json outside catalog
          (pairs e)
          (pairs s)
          (json.dumps (dict e))
          (json.dumps (dict s))
          tables
          b
          after
      → IsConsistent json outside after
  unfolding inserted
  Written-IsConsistent e s tables entry consistent (replayed found) = consistent
  Written-IsConsistent e s tables entry consistent (inserted_new missing passed) = record {
    of = inserted-Stored e s tables entry consistent passed;
  }

  -- A commit that returns keeps the tables consistent.
  pub commit-IsConsistent :
      (event state : Value) (tables : Tables json.Text) {b : Bool} {after : Tables json.Text}
      → IsConsistent json outside tables
      → commit_task_state_and_audit json outside catalog event state tables ≡ ok (b, after)
      → IsConsistent json outside after
  commit-IsConsistent event state tables consistent h =
      let accepted = commit-Accepted json outside catalog event state tables h in
      Written-IsConsistent accepted.event_fields accepted.state_fields tables accepted.entry
        consistent (write_pair-Written json outside catalog _ _ _ _ tables accepted.written)

  -- After any number of commits from empty tables, every task has no row at all, or a trail: its
  -- events are numbered from 1 without a gap in generation 1, the first one creates it in DRAFT,
  -- each other one comes from the state before it and names that state's audit head, and the state
  -- row is the state of the last event.
  pub Run-IsConsistent :
      {tables : Tables json.Text}
      → Run json outside catalog tables
      → IsConsistent json outside tables
  unfolding lookup of_task
  Run-IsConsistent start = record { of = λ k. absent }
  Run-IsConsistent (next event state run committed) =
      commit-IsConsistent event state _ (Run-IsConsistent run) committed
