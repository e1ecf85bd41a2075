-- ===== src/Tasks/Tests.antt =====
-- Tests and examples of the store's tables.
use acgps_public.Prelude.{◌≡◌, refl, Bool, true, false, ◌&&◌, some, [], ◌∷◌, ◌==◌, eq_refl, arith}
use acgps_public.Py.Result.{ok}
use acgps_public.Py.Value.{
  ℤ, pos, negsuc, int_eq, Value, null, bool, int, text, dict, seq, Items, nil, cons, Fields, end,
  field, Dict, pairs,
}
use acgps_public.Workflow.TaskState.{optional_safe_id}
use acgps_public.Workflow.TaskState.Scalars.{LooksLike}
use acgps_public.Workflow.Examples.{
  here, loaded, created_event, draft_state, ready_event, ready_state,
}
use acgps_public.Tasks.Json.{Json}
use acgps_public.Tasks.Tables.{Tables, event_at}
use acgps_public.Tasks.Commit.{commit_task_state_and_audit}
use acgps_public.Tasks.PairCheck.{task_of}
use acgps_public.Py.Text.{is_some}
use acgps_public.Workflow.Exact.{IsIteration}
use acgps_public.Tasks.Read.{read_task_state}
use acgps_public.Tasks.ReadBack.{commit-read_back}
use acgps_public.Tasks.Bounds.{IsBounded, Run-IsBounded}
use acgps_public.Tasks.Lineage.{has_committed_decision_resolution}
use acgps_public.Tasks.Lineage.Ends.{has_committed_decision_resolution-ends}
use acgps_public.Tasks.Trail.{RoundTrip, Run, start, next, IsConsistent}
use acgps_public.Tasks.Trail.Consistent.{Run-IsConsistent}
use acgps_public.Tasks.Trail.Appended.{commit-again, commit-appends}
use acgps_public.Tasks.Trail.Refinement.{Refines, commit-Refines}

same_bool : Bool → Bool → Bool
same_bool true b = b
same_bool false true = false
same_bool false false = true

-- Two values written in the same way.
mutual
  same_value : Value → Value → Bool
  same_value null w = elim w [ null ↦ true | _ ↦ false ]
  same_value (bool b) w = elim w [ bool c ↦ same_bool b c | _ ↦ false ]
  same_value (int m) w = elim w [ int n ↦ int_eq m n | _ ↦ false ]
  same_value (text s) w = elim w [ text t ↦ s == t | _ ↦ false ]
  same_value (seq vs) w = elim w [ seq ws ↦ same_items vs ws | _ ↦ false ]
  same_value (dict fs) w = elim w [ dict gs ↦ same_fields fs gs | _ ↦ false ]

  same_items : Items → Items → Bool
  same_items nil ws = elim ws [ nil ↦ true | _ ↦ false ]
  same_items (cons v vs) ws = elim ws [
    | nil ↦ false
    | cons w us ↦ same_value v w && same_items vs us
  ]

  same_fields : Fields → Fields → Bool
  same_fields end gs = elim gs [ end ↦ true | _ ↦ false ]
  same_fields (field k v fs) gs = elim gs [
    | end ↦ false
    | field j w hs ↦ k == j && (same_value v w && same_fields fs hs)
  ]

int_eq_refl : (n : ℤ) → int_eq n n ≡ true
int_eq_refl (pos n) = ground arith
int_eq_refl (negsuc n) = ground arith

both : (a b : Bool) → a ≡ true → b ≡ true → (a && b) ≡ true
both a b p q = cc

mutual
  unfolding same_bool same_value same_items same_fields

  same_value_refl : (v : Value) → same_value v v ≡ true
  same_value_refl null = refl
  same_value_refl (bool true) = refl
  same_value_refl (bool false) = refl
  same_value_refl (int n) = int_eq_refl n
  same_value_refl (text s) = eq_refl s
  same_value_refl (seq vs) = same_items_refl vs
  same_value_refl (dict fs) = same_fields_refl fs

  same_items_refl : (vs : Items) → same_items vs vs ≡ true
  same_items_refl nil = refl
  same_items_refl (cons v vs) = both _ _ (same_value_refl v) (same_items_refl vs)

  same_fields_refl : (fs : Fields) → same_fields fs fs ≡ true
  same_fields_refl end = refl
  same_fields_refl (field k v fs) =
      both _ _ (eq_refl k) (both _ _ (same_value_refl v) (same_fields_refl fs))

-- A column that keeps the value itself.
abbrev plain : Json
plain = record {
  Text = Value;
  chars = λ v. "";
  utf8_size = λ v. ok 0;
  dumps = λ v. v;
  loads = λ v. ok v;
  same = same_value;
}

itself : (d : Fields) → LooksLike (pairs d) (pairs d)
itself d = record { same_keys = λ k. refl; same_scalars = λ k h. refl }

abbrev plain_law : RoundTrip plain
plain_law = record { normal = λ d. d; reads = λ d. refl; looks = λ d. itself d }

abbrev no_rows : Tables Value
no_rows = record { task_states = []; audit_events = [] }

abbrev one_row : Tables Value
one_row = record {
  task_states = ("t1", draft_state) ∷ [];
  audit_events =
      record { task_id = "t1"; generation = 1; sequence = 1; event_json = created_event } ∷ [];
}

abbrev two_rows : Tables Value
two_rows = record {
  task_states = ("t1", ready_state) ∷ [];
  audit_events =
      record { task_id = "t1"; generation = 1; sequence = 2; event_json = ready_event }
      ∷ record { task_id = "t1"; generation = 1; sequence = 1; event_json = created_event }
      ∷ [];
}

commit_created :
    commit_task_state_and_audit plain here loaded created_event draft_state no_rows
    ≡ ok (true, one_row)
unfolding commit_task_state_and_audit optional_safe_id
commit_created = refl

commit_ready :
    commit_task_state_and_audit plain here loaded ready_event ready_state one_row
    ≡ ok (true, two_rows)
unfolding commit_task_state_and_audit optional_safe_id
commit_ready = refl

run : Run plain here loaded two_rows
run =
    next ready_event ready_state (next created_event draft_state start commit_created) commit_ready

Run-IsConsistent_example : IsConsistent plain here two_rows
Run-IsConsistent_example = Run-IsConsistent plain plain_law here loaded run

commit-Refines_example :
    Refines plain plain_law here loaded ready_event ready_state one_row true two_rows
commit-Refines_example =
    commit-Refines plain plain_law here loaded (next created_event draft_state start commit_created)
      ready_event ready_state commit_ready

commit-again_example :
    commit_task_state_and_audit plain here loaded ready_event ready_state two_rows
    ≡ ok (false, two_rows)
commit-again_example =
    commit-again plain here loaded ready_event ready_state one_row same_value_refl commit_ready

found_first : event_at "t1" 1 1 one_row.audit_events ≡ some created_event
unfolding event_at
found_first = refl

commit-appends_example : event_at "t1" 1 1 two_rows.audit_events ≡ some created_event
commit-appends_example =
    commit-appends plain here loaded ready_event ready_state one_row commit_ready "t1" 1 1
      found_first

abbrev ready_fields : Fields
ready_fields = fields_of ready_state
  where
    fields_of : Value → Fields
    fields_of (dict d) = d
    fields_of v = end

as_written : IsIteration here
as_written = record { members = λ names s. refl }

commit-read_back_example :
    (read_task_state plain here (task_of (pairs ready_fields)) two_rows ≡ ok ready_fields)
    × LooksLike (pairs ready_fields) (pairs ready_fields)
commit-read_back_example =
    commit-read_back plain plain_law here loaded ready_event ready_fields one_row as_written
      commit_ready

Run-IsBounded_example : IsBounded plain two_rows
Run-IsBounded_example = Run-IsBounded plain here loaded run

abbrev asked : Dict
asked = ("task_id", text "t1") ∷ []

has_committed_decision_resolution-ends_example :
    is_some (has_committed_decision_resolution plain here loaded asked two_rows) ≡ true
has_committed_decision_resolution-ends_example =
    has_committed_decision_resolution-ends plain here loaded asked two_rows

not_resolved : has_committed_decision_resolution plain here loaded asked one_row ≡ some (ok false)
unfolding has_committed_decision_resolution optional_safe_id
not_resolved = refl
