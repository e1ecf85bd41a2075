-- ===== src/Slot/Publish/Effects.antt =====
-- What a publication that has returned did to the slot.
use acgps_public.Prelude.{
  ◌≡◌, refl, sym, subst, String, Bool, true, false, not, Option, none, some, arith, ◌==◌,
}
use acgps_public.Py.Result.{ok, >>=-eq-ok, ok-injective}
use acgps_public.Py.Value.{Value, py_eq}
use acgps_public.Slot.State.{SlotState, fail_if, ExecutionRecord, Slot, Checks}
use acgps_public.Slot.Validate.{validate_state}
use acgps_public.Slot.Operations.{read_state, find_record}
use acgps_public.Slot.Operations.Inversion.{fail_if-eq-ok, Stored, read_state-inv}
use acgps_public.Slot.Publish.{
  check_contract, bind_gate, change_slot, with_record, publish_new, publish_again, publish_to,
  publish_record,
}

-- A record that is new is put at the end; one that is there already is the same, and nothing changes.
pub data Published (checks : Checks) (r : ExecutionRecord) (s after : Slot) : Type 0 where
  appended :
      (binding : Option Value) (change : SlotState × Option String)
      → find_record r.execution_id s.records ≡ none
      → bind_gate s.gate_binding r ≡ ok binding
      → change_slot s r ≡ ok change
      → validate_state checks r.gate_id after ≡ ok tt
      → after ≡ with_record s r binding change
      → Published checks r s after
  repeated :
      (existing : ExecutionRecord)
      → find_record r.execution_id s.records ≡ some existing
      → py_eq existing.mapping r.mapping ≡ true
      → after ≡ s
      → Published checks r s after

publish_new-inv :
    (checks : Checks) (s : Slot) (r : ExecutionRecord) {after : Slot}
    → find_record r.execution_id s.records ≡ none
    → publish_new checks s r ≡ ok after
    → Published checks r s after
unfolding publish_new
publish_new-inv checks s r {after} missing h =
    let (binding, bound, h₁) = >>=-eq-ok (bind_gate s.gate_binding r) _ h in
    let (change, changed, h₂) = >>=-eq-ok (change_slot s r) _ h₁ in
    let (_, valid, h₃) =
      >>=-eq-ok (validate_state checks r.gate_id (with_record s r binding change)) _ h₂ in
    subst (λ (q : Slot). Published checks r s q) (ok-injective h₃)
      (appended binding change missing bound changed valid refl)

publish_again-inv :
    (checks : Checks) (s : Slot) (r existing : ExecutionRecord) {after : Slot}
    → find_record r.execution_id s.records ≡ some existing
    → publish_again s r existing ≡ ok after
    → Published checks r s after
unfolding publish_again
publish_again-inv checks s r existing {after} there h =
    let (_, same, h₁) = >>=-eq-ok (fail_if (not (py_eq existing.mapping r.mapping)) _ _ _) _ h in
    repeated existing there (not_false _ (fail_if-eq-ok _ _ _ _ same)) (sym (ok-injective h₁))
  where
    not_false : (b : Bool) → not b ≡ false → b ≡ true
    not_false b h = ground arith

publish_to-inv :
    (checks : Checks) (s : Slot) (r : ExecutionRecord) (found : Option ExecutionRecord)
    {after : Slot}
    → find_record r.execution_id s.records ≡ found
    → publish_to checks s r found ≡ ok after
    → Published checks r s after
unfolding publish_to
publish_to-inv checks s r none e h = publish_new-inv checks s r e h
publish_to-inv checks s r (some existing) e h = publish_again-inv checks s r existing e h

pub publish_record-inv :
    (checks : Checks) (r : ExecutionRecord) (file : Option Slot) {after : Slot}
    → publish_record checks r file ≡ ok after
    → (s : Slot) × (check_contract (checks.contract_error r) ≡ ok tt)
      × Stored checks r.gate_id file s
      × (not (s.task_id == r.task_id) ≡ false)
      × Published checks r s after
unfolding publish_record
publish_record-inv checks r file h =
    let (_, sound, h₁) = >>=-eq-ok (check_contract (checks.contract_error r)) _ h in
    let (s, read, h₂) = >>=-eq-ok (read_state checks r.gate_id file) _ h₁ in
    let (_, owner, h₃) = >>=-eq-ok (fail_if (not (s.task_id == r.task_id)) _ _ _) _ h₂ in
    (
      s,
      sound,
      read_state-inv checks r.gate_id file read,
      fail_if-eq-ok _ _ _ _ owner,
      publish_to-inv checks s r (find_record r.execution_id s.records) refl h₃,
    )
