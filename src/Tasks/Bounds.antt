-- ===== src/Tasks/Bounds.antt =====
-- The bounds on the JSON texts in the tables of acgps/workflow_store.py.
use Prim.Native.String as S
use acgps_public.Prelude.{
  ◌≡◌, refl, ap, ◌∙◌, subst, ℕ, ◌≤◌, String, Bool, false, arith, ltb, List, [], ◌∷◌, All, inl, inr,
  Bool-cases, ◌==◌,
}
use acgps_public.Py.Result.{Py, ok, raise, >>=-eq-ok, ok-injective}
use acgps_public.Py.Value.{Value, Dict, dict, pairs}
use acgps_public.Workflow.Outcome.{Outside, Check, Stop, first_of}
use acgps_public.Workflow.Catalog.{Catalog}
use acgps_public.Tasks.Json.{
  Json, json_nesting_depth, max_sqlite_json_bytes, fail_if, utf8_length, validate_sqlite_json_text,
  sqlite_json_text,
}
use acgps_public.Tasks.Tables.{Row, Tables, upsert}
use acgps_public.Tasks.Commit.{commit_task_state_and_audit, pair_checks, inserted}
use acgps_public.Tasks.Json.Nesting.{Doc, write, depth, json_nesting_depth-write}
use acgps_public.Tasks.PairCheck.{task_of}
use acgps_public.Tasks.Accepted.{commit-Accepted}
use acgps_public.Tasks.Written.{Written, replayed, inserted_new, write_pair-Written}
use acgps_public.Tasks.Trail.{Run, start, next}
use acgps_public.Tasks.Pair.{fail_if-eq-ok}

module _ (json : Json) where
  -- A text that the store writes: at most 262144 bytes of UTF-8, and where it is written from a
  -- document, one that is nested at most 256 deep.
  pub record IsWritable (text : json.Text) : Type 0 where
    pub bytes : ℕ
    pub size : json.utf8_size text ≡ ok bytes
    pub size_bound : bytes ≤ 262144
    pub depth_bound : (d : Doc) → json.chars text ≡ write d S.[] → depth d ≤ 256

  utf8_length-eq-ok :
      (text : json.Text) (r : Py String ℕ) (code path : String) {n : ℕ}
      → json.utf8_size text ≡ r
      → utf8_length json text code path ≡ ok n
      → json.utf8_size text ≡ ok n
  unfolding utf8_length
  utf8_length-eq-ok text (ok m) code path e h = e ∙ ap ok (ok-injective (rw (e, utf8_length) at h))
  utf8_length-eq-ok text (raise reason) code path e h = absurd (refused (rw (e, utf8_length) at h))
    where
      refused : {stop : Stop} {m : ℕ} → ◌≡◌ {A = Check ℕ} (raise stop) (ok m) → ⊥
      refused p = cc

  not-above : (m n : ℕ) → ltb m n ≡ false → n ≤ m
  not-above m n h = ground arith

  sqlite_json_text-IsWritable :
      (v : Value) (code path : String) {t : json.Text}
      → sqlite_json_text json v code path ≡ ok t
      → IsWritable (json.dumps v)
  unfolding sqlite_json_text validate_sqlite_json_text
  sqlite_json_text-IsWritable v code path h =
      let (_, valid, _) = >>=-eq-ok (validate_sqlite_json_text json (json.dumps v) code path) _ h in
      let (n, size, h₁) = >>=-eq-ok (utf8_length json (json.dumps v) code path) _ valid in
      let (_, small, deep) = >>=-eq-ok (fail_if (ltb max_sqlite_json_bytes n) _ _ _) _ h₁ in
      record {
        bytes = n;
        size = utf8_length-eq-ok (json.dumps v) _ code path refl size;
        size_bound = not-above 262144 n (fail_if-eq-ok _ _ _ _ small);
        depth_bound = λ d is_written.
            subst (λ m. m ≤ 256) (ap json_nesting_depth is_written ∙ json_nesting_depth-write d)
              (not-above 256 _ (fail_if-eq-ok _ _ _ _ deep));
      }

  -- The texts of an event and of a state that a commit has accepted.
  commit-IsWritable :
      (outside : Outside) (catalog : Catalog) (event state : Value) (tables : Tables json.Text)
      {out : Bool × Tables json.Text}
      → commit_task_state_and_audit json outside catalog event state tables ≡ ok out
      → IsWritable (json.dumps event) × IsWritable (json.dumps state)
  unfolding commit_task_state_and_audit
  commit-IsWritable outside catalog event state tables h =
      let (_, _, h₁) = >>=-eq-ok (first_of (pair_checks json outside catalog event state)) _ h in
      let (_, event_json, h₂) =
        >>=-eq-ok (sqlite_json_text json event "WORKFLOW_AUDIT_CORRUPT" "audit_event") _ h₁ in
      let (_, state_json, _) =
        >>=-eq-ok (sqlite_json_text json state "WORKFLOW_STATE_CORRUPT" "task_state") _ h₂ in
      (
        sqlite_json_text-IsWritable event _ _ event_json,
        sqlite_json_text-IsWritable state _ _ state_json,
      )

  -- The texts of both tables.
  pub record IsBounded (tables : Tables json.Text) : Type 0 where
    pub states : All (λ (p : String × json.Text). IsWritable p.1) tables.task_states
    pub events : All (λ (r : Row json.Text). IsWritable r.event_json) tables.audit_events

  upsert-All :
      (k : String) (v : json.Text) (d : List (String × json.Text))
      → IsWritable v
      → All (λ (p : String × json.Text). IsWritable p.1) d
      → All (λ (p : String × json.Text). IsWritable p.1) (upsert k v d)
  unfolding upsert
  upsert-All k v [] w h = (w, tt)
  upsert-All k v ((j, x) ∷ d) w (first, rest) = elim (Bool-cases (k == j)) [
    | inl same ↦ rw same (w, rest)
    | inr other ↦ rw other (first, upsert-All k v d w rest)
  ]

  module _ (outside : Outside) (catalog : Catalog) where
    Written-IsBounded :
        (e s : Dict) (event_json state_json : json.Text) (tables : Tables json.Text) {b : Bool}
        {after : Tables json.Text}
        → IsWritable event_json
        → IsWritable state_json
        → IsBounded tables
        → Written json outside catalog e s event_json state_json tables b after
        → IsBounded after
    unfolding inserted
    Written-IsBounded e s event_json state_json tables we ws bounded (replayed found) = bounded
    Written-IsBounded e s event_json state_json tables we ws bounded (inserted_new missing passed) =
        record {
          states = upsert-All (task_of s) state_json tables.task_states ws bounded.states;
          events = (we, bounded.events);
        }

    commit-IsBounded :
        (event state : Value) (tables : Tables json.Text) {b : Bool} {after : Tables json.Text}
        → IsBounded tables
        → commit_task_state_and_audit json outside catalog event state tables ≡ ok (b, after)
        → IsBounded after
    commit-IsBounded event state tables bounded h =
        let (we, ws) = commit-IsWritable outside catalog event state tables h in
        let accepted = commit-Accepted json outside catalog event state tables h in
        Written-IsBounded (pairs accepted.event_fields) (pairs accepted.state_fields)
          (json.dumps (dict accepted.event_fields)) (json.dumps (dict accepted.state_fields)) tables
          (subst (λ v. IsWritable (json.dumps v)) accepted.is_event we)
          (subst (λ v. IsWritable (json.dumps v)) accepted.is_state ws) bounded
          (write_pair-Written json outside catalog _ _ _ _ tables accepted.written)

    -- After any number of commits from empty tables, each text of both tables has at most 262144
    -- bytes of UTF-8, and where its characters are those of a document of brackets and quoted texts,
    -- the document is nested at most 256 deep.
    pub Run-IsBounded :
        {tables : Tables json.Text} → Run json outside catalog tables → IsBounded tables
    Run-IsBounded start = record { states = tt; events = tt }
    Run-IsBounded (next {before = before} event state run h) =
        commit-IsBounded event state before (Run-IsBounded run) h
