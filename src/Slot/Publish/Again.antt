-- ===== src/Slot/Publish/Again.antt =====
-- Publishing the same record a second time.
use acgps_public.Prelude.{
  ◌≡◌, refl, ap, ◌∙◌, String, true, false, not, Option, none, some, List, [], ◌∷◌, ◌++◌, arith,
  ◌==◌, Bool-cases, inl, inr, eq_refl,
}
use acgps_public.Py.Result.{ok, ◌>>=◌}
use acgps_public.Py.Value.{py_eq}
use acgps_public.Slot.State.{ExecutionRecord, Slot, Checks}
use acgps_public.Slot.Validate.{require_safe_id, validate_state}
use acgps_public.Slot.Operations.{load_slot, read_state, find_record}
use acgps_public.Slot.Publish.{with_record, publish_again, publish_to, publish_record}
use acgps_public.Slot.Publish.Effects.{Published, appended, repeated, publish_record-inv}

-- The last record is found under its identity.
find_record-last :
    (r : ExecutionRecord) (xs : List ExecutionRecord)
    → find_record r.execution_id xs ≡ none
    → find_record r.execution_id (xs ++ r ∷ []) ≡ some r
unfolding find_record
find_record-last r [] h = rw (eq_refl r.execution_id) refl
find_record-last r (x ∷ xs) h = elim (Bool-cases (x.execution_id == r.execution_id)) [
  | inl same ↦ absurd (ground arith)
  | inr other ↦ rw other (find_record-last r xs (rw other at h))
]

-- After a publication the record is in the gate, or one that is equal to it.
record Holds (checks : Checks) (r : ExecutionRecord) (task_id : String) (after : Slot)
    : Type 0 where
  existing : ExecutionRecord
  is_found : find_record r.execution_id after.records ≡ some existing
  is_same : py_eq existing.mapping r.mapping ≡ true
  task_kept : after.task_id ≡ task_id
  is_valid : validate_state checks r.gate_id after ≡ ok tt

Published-Holds :
    (checks : Checks) (r : ExecutionRecord) (s : Slot) {after : Slot}
    → py_eq r.mapping r.mapping ≡ true
    → validate_state checks r.gate_id s ≡ ok tt
    → Published checks r s after
    → Holds checks r s.task_id after
unfolding with_record
Published-Holds checks r s reflexive valid (appended binding change missing _ _ v e) = record {
  existing = r;
  is_found =
      ap (λ (q : Slot). find_record r.execution_id q.records) e
      ∙ find_record-last r s.records missing;
  is_same = reflexive;
  task_kept = ap (λ (q : Slot). q.task_id) e;
  is_valid = v;
}
Published-Holds checks r s reflexive valid (repeated existing there same e) = record {
  existing = existing;
  is_found = ap (λ (q : Slot). find_record r.execution_id q.records) e ∙ there;
  is_same = same;
  task_kept = ap (λ (q : Slot). q.task_id) e;
  is_valid = ap (λ (q : Slot). validate_state checks r.gate_id q) e ∙ valid;
}

read_state_lem :
    (checks : Checks) (gate_id : String) (s : Slot)
    → require_safe_id gate_id "gate_id" ≡ ok tt
    → validate_state checks gate_id s ≡ ok tt
    → read_state checks gate_id (some s) ≡ ok s
unfolding read_state load_slot
read_state_lem checks gate_id s safe valid =
    ap (λ m. m >>= λ _. validate_state checks gate_id s >>= λ _. ok s) safe
    ∙ ap (λ m. m >>= λ _. ok s) valid

publish_again_lem :
    (s : Slot) (r existing : ExecutionRecord)
    → py_eq existing.mapping r.mapping ≡ true
    → publish_again s r existing ≡ ok s
unfolding publish_again
publish_again_lem s r existing same = rw same refl

-- A record that is published is published for good: to publish it again returns the same state
-- and changes nothing. (The record's mapping is equal to itself.)
pub publish_record-idempotent :
    (checks : Checks) (r : ExecutionRecord) (file : Option Slot) {after : Slot}
    → py_eq r.mapping r.mapping ≡ true
    → publish_record checks r file ≡ ok after
    → publish_record checks r (some after) ≡ ok after
unfolding publish_record publish_to
publish_record-idempotent checks r file {after} reflexive h =
    let (s, sound, stored, owner, published) = publish_record-inv checks r file h in
    let held = Published-Holds checks r s reflexive stored.is_valid published in
    let read = read_state_lem checks r.gate_id after stored.is_safe held.is_valid in
    let same_owner : not (after.task_id == r.task_id) ≡ false =
      ap (λ t. not (t == r.task_id)) held.task_kept ∙ owner in
    rw (sound, read, same_owner, held.is_found)
      (publish_again_lem after r held.existing held.is_same)
