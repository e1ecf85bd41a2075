-- ===== src/Tasks/Lineage/Ends.antt =====
-- The walk through the generations ends.
use acgps_public.Prelude.{
  ◌≡◌, refl, subst, ℕ, zero, suc, ◌<◌, Bool, true, false, not, ◌||◌, some, List, any, length, arith,
}
use acgps_public.Py.Result.{ok, raise, >>=-eq-ok}
use acgps_public.Py.Text.{is_some}
use acgps_public.Py.Value.{
  ℤ, pos, negsuc, Value, null, bool, int, text, seq, dict, Dict, Fields, get,
}
use acgps_public.Workflow.Outcome.{Check, Outside}
use acgps_public.Workflow.Catalog.{Catalog}
use acgps_public.Workflow.Passed.{not-eq-false}
use acgps_public.Tasks.Json.{Json, fail_if}
use acgps_public.Tasks.Tables.{Tables, of_task, of_generation, by_sequence}
use acgps_public.Workflow.Request.{mapping_of}
use acgps_public.Tasks.Pair.{fail_if-eq-ok}
use acgps_public.Tasks.Lineage.{
  earlier, is_untrusted, ends_early, is_unstarted, step_back, check_start, turn, walk_back, prepare,
  generations, has_committed_decision_resolution, out_of_line, read_prefix, check_walk_head,
}
use acgps_public.Tasks.Walk.{
  first_event, carries, natural, Walk, Turn, finished, further, Question, int_below,
}

further-injective : {a b : Walk} → ◌≡◌ {A = Check Turn} (ok (further a)) (ok (further b)) → a ≡ b
further-injective h = cc

from_one : (a b c : Bool) → (a || b || c) ≡ false → b ≡ false
from_one a b c h = ground arith

module _ (json : Json) (outside : Outside) (catalog : Catalog) where
  step_back-below :
      (walk : Walk) (found : Bool) (details started : Dict) (v : Value) {next : Walk}
      → step_back json outside catalog walk found details started v ≡ ok (further next)
      → int_below next.generation walk.generation ≡ true
  unfolding step_back
  step_back-below walk found details started (int predecessor) {next} h =
      let (_, below, h₁) =
        >>=-eq-ok (fail_if (not (int_below predecessor walk.generation)) _ _ _) _ h in
      let (_, _, h₂) =
        >>=-eq-ok (fail_if (is_untrusted json outside catalog details started predecessor) _ _ _) _
          h₁ in
      subst (λ (w : Walk). int_below w.generation walk.generation ≡ true)
        (further-injective
          {a = earlier json outside catalog walk found
            (mapping_of (get details "previous_trusted_prefix")) started predecessor}
          h₂)
        (not-eq-false _ (fail_if-eq-ok _ _ _ _ below))
  step_back-below walk found details started null h =
      let (_, _, h₁) =
        >>=-eq-ok (fail_if (ends_early json outside catalog walk started) _ _ _) _ h in
      absurd (cc)
  step_back-below walk found details started (bool b) h = absurd (cc)
  step_back-below walk found details started (text s) h = absurd (cc)
  step_back-below walk found details started (seq vs) h = absurd (cc)
  step_back-below walk found details started (dict d) h = absurd (cc)

  check_start-below :
      (question : Question) (walk : Walk) (prefix : List Fields) {next : Walk}
      → check_start json outside catalog question walk prefix ≡ ok (further next)
      → int_below next.generation walk.generation ≡ true
  unfolding check_start
  check_start-below question walk prefix h =
      let details = mapping_of (get (first_event prefix) "details") in
      let (_, _, h₁) =
        >>=-eq-ok (fail_if (is_unstarted json outside catalog walk details) _ _ _) _ h in
      step_back-below walk (walk.found || any (carries question.resolution) prefix) details
        (mapping_of (get details "audit_generation")) _ h₁

  -- A turn that goes on comes from a generation from 1 on, and goes to a lower one.
  turn-below :
      (question : Question) (tables : Tables json.Text) (walk : Walk) {next : Walk}
      → turn json outside catalog question tables walk ≡ ok (further next)
      → (out_of_line json outside catalog question walk ≡ false)
        × (int_below next.generation walk.generation ≡ true)
  unfolding turn
  turn-below question tables walk h =
      let rows =
        by_sequence (
          of_generation (natural walk.generation) (of_task question.task_id tables.audit_events)) in
      let (_, in_line, h₁) =
        >>=-eq-ok (fail_if (out_of_line json outside catalog question walk) _ _ _) _ h in
      let (read, _, h₂) =
        >>=-eq-ok (read_prefix json outside catalog question walk 1 null rows) _ h₁ in
      let (_, _, h₃) = >>=-eq-ok (fail_if (not read.1) _ _ _) _ h₂ in
      let (_, _, h₄) =
        >>=-eq-ok (check_walk_head json outside catalog question walk read.0 (length rows)) _ h₃ in
      (fail_if-eq-ok _ _ _ _ in_line, check_start-below question walk read.0 h₄)

  -- A lower generation has fewer before it, from 1 on.
  fewer :
      (m n : ℤ) {fuel : ℕ}
      → int_below m n ≡ true
      → int_below n (pos 1) ≡ false
      → generations json outside catalog n < suc fuel
      → generations json outside catalog m < fuel
  fewer (pos m) (pos n) b f h = ground arith
  fewer (negsuc m) (pos n) b f h = ground arith
  fewer m (negsuc n) b f h = absurd (cc)

  walk_back-ends :
      (fuel : ℕ) (question : Question) (tables : Tables json.Text) (walk : Walk)
      → generations json outside catalog walk.generation < fuel
      → is_some (walk_back json outside catalog fuel question tables walk) ≡ true
  unfolding walk_back
  walk_back-ends zero question tables walk h = absurd (omega arith)
  walk_back-ends (suc fuel) question tables walk h =
      go (λ next l. walk_back-ends fuel question tables next l)
        (turn json outside catalog question tables walk) refl
    where
      go :
          ((next : Walk)
            → generations json outside catalog next.generation < fuel
            → is_some (walk_back json outside catalog fuel question tables next) ≡ true)
          → (t : Check Turn) → turn json outside catalog question tables walk ≡ t
          → is_some {A = Check Bool} (elim t [
            | raise stop ↦ some (raise stop)
            | ok (finished found) ↦ some (ok found)
            | ok (further next) ↦ walk_back json outside catalog fuel question tables next
          ])
            ≡ true
      go again (raise stop) e = refl
      go again (ok (finished found)) e = refl
      go again (ok (further next)) e =
          let (in_line, below) = turn-below question tables walk e in
          again next (fewer next.generation walk.generation below (from_one _ _ _ in_line) h)

  -- The search for a committed resolution ends: the fuel that it starts with, one turn for each
  -- generation of the task and one more, is enough, whatever the tables hold.
  pub has_committed_decision_resolution-ends :
      (resolution : Dict) (tables : Tables json.Text)
      → is_some (has_committed_decision_resolution json outside catalog resolution tables) ≡ true
  unfolding has_committed_decision_resolution
  has_committed_decision_resolution-ends resolution tables =
      go (prepare json outside catalog resolution tables)
    where
      go :
          (p : Check (Question × Walk))
          → is_some {A = Check Bool} (elim p [
            | raise stop ↦ some (raise stop)
            | ok (question, walk) ↦
                walk_back json outside catalog
                  (suc (generations json outside catalog walk.generation))
                  question
                  tables
                  walk
          ])
            ≡ true
      go (raise stop) = refl
      go (ok (question, walk)) =
          walk_back-ends (suc (generations json outside catalog walk.generation)) question tables
            walk (omega arith)
