-- ===== src/Slot/Operations/Inversion.antt =====
-- What a call of the store that has returned went through.
use acgps_public.Prelude.{
  ◌≡◌, refl, ap, subst, String, Bool, true, false, not, Option, none, some, ◌==◌,
}
use acgps_public.Py.Result.{ok, >>=-eq-ok, ok-injective}
use acgps_public.Slot.State.{StoreCode, fail_if, Slot, Checks}
use acgps_public.Slot.Validate.{require_safe_id, validate_state}
use acgps_public.Slot.Operations.{
  load_slot, read_state, new_slot, open_slot, initialize_slot, next_reservation, with_reservation,
  check_reserve, reserve_attempt, not_retirable, retired, retire_candidate,
}

-- A test that has let the call pass is false.
pub fail_if-eq-ok :
    (b : Bool) (code : StoreCode) (path message : String) {u : Unit {0}}
    → fail_if b code path message ≡ ok u
    → b ≡ false
fail_if-eq-ok true code path message h = cc
fail_if-eq-ok false code path message h = refl

-- The file of a gate is in order.
pub record Stored (checks : Checks) (gate_id : String) (file : Option Slot) (s : Slot)
    : Type 0 where
  pub is_safe : require_safe_id gate_id "gate_id" ≡ ok tt
  pub is_there : file ≡ some s
  pub is_valid : validate_state checks gate_id s ≡ ok tt

load_slot-eq-ok : (file : Option Slot) {s : Slot} → load_slot file ≡ ok s → file ≡ some s
unfolding load_slot
load_slot-eq-ok none h = cc
load_slot-eq-ok (some s) h = ap some (ok-injective h)

pub read_state-inv :
    (checks : Checks) (gate_id : String) (file : Option Slot) {s : Slot}
    → read_state checks gate_id file ≡ ok s
    → Stored checks gate_id file s
unfolding read_state
read_state-inv checks gate_id file {s} h =
    let (_, safe, h₁) = >>=-eq-ok (require_safe_id gate_id "gate_id") _ h in
    let (t, there, h₂) = >>=-eq-ok (load_slot file) _ h₁ in
    let (_, valid, h₃) = >>=-eq-ok (validate_state checks gate_id t) _ h₂ in
    subst (λ (q : Slot). Stored checks gate_id file q) (ok-injective h₃)
      (record { is_safe = safe; is_there = load_slot-eq-ok file there; is_valid = valid })

-- What a reservation went through.
pub record Reserved (checks : Checks) (gate_id kind : String) (parent : Option String) (at : String)
    (file : Option Slot) (after : Slot) : Type 0 where
  pub before : Slot
  pub stored : Stored checks gate_id file before
  pub checked : check_reserve checks before kind parent at ≡ ok tt
  pub is_valid : validate_state checks gate_id after ≡ ok tt
  pub is_next :
      with_reservation before (next_reservation before.remaining_attempts kind parent at) ≡ after

pub reserve_attempt-inv :
    (checks : Checks) (gate_id kind : String) (parent : Option String) (at : String)
    (file : Option Slot) {after : Slot}
    → reserve_attempt checks gate_id kind parent at file ≡ ok after
    → Reserved checks gate_id kind parent at file after
unfolding reserve_attempt
reserve_attempt-inv checks gate_id kind parent at file {after} h =
    let (s, read, h₁) = >>=-eq-ok (read_state checks gate_id file) _ h in
    let (_, checked, h₂) = >>=-eq-ok (check_reserve checks s kind parent at) _ h₁ in
    let (_, valid, h₃) =
      >>=-eq-ok
        (validate_state checks gate_id
          (with_reservation s (next_reservation s.remaining_attempts kind parent at)))
        _ h₂ in
    subst (λ (q : Slot). Reserved checks gate_id kind parent at file q) (ok-injective h₃)
      (record {
        before = s;
        stored = read_state-inv checks gate_id file read;
        checked = checked;
        is_valid = valid;
        is_next = refl;
      })

-- What a retirement went through.
pub record Retired (checks : Checks) (gate_id candidate_id authorization_id : String)
    (file : Option Slot) (after : Slot) : Type 0 where
  pub before : Slot
  pub stored : Stored checks gate_id file before
  pub allowed : not_retirable before candidate_id ≡ false
  pub is_valid : validate_state checks gate_id after ≡ ok tt
  pub is_next : retired before candidate_id authorization_id ≡ after

pub retire_candidate-inv :
    (checks : Checks) (gate_id candidate_id authorization_id : String) (file : Option Slot)
    {after : Slot}
    → retire_candidate checks gate_id candidate_id authorization_id file ≡ ok after
    → Retired checks gate_id candidate_id authorization_id file after
unfolding retire_candidate
retire_candidate-inv checks gate_id candidate_id authorization_id file {after} h =
    let (_, _, h₁) = >>=-eq-ok (require_safe_id candidate_id "candidate_id") _ h in
    let (_, _, h₂) = >>=-eq-ok (require_safe_id authorization_id "authorization_id") _ h₁ in
    let (s, read, h₃) = >>=-eq-ok (read_state checks gate_id file) _ h₂ in
    let (_, allowed, h₄) = >>=-eq-ok (fail_if (not_retirable s candidate_id) _ _ _) _ h₃ in
    let (_, valid, h₅) =
      >>=-eq-ok (validate_state checks gate_id (retired s candidate_id authorization_id)) _ h₄ in
    subst (λ (q : Slot). Retired checks gate_id candidate_id authorization_id file q)
      (ok-injective h₅)
      (record {
        before = s;
        stored = read_state-inv checks gate_id file read;
        allowed = fail_if-eq-ok _ _ _ _ allowed;
        is_valid = valid;
        is_next = refl;
      })

-- An initialization creates the slot, or finds it.
pub data Opened (checks : Checks) (gate_id task_id : String) (file : Option Slot) (after : Slot)
    : Type 0 where
  created :
      file ≡ none
      → validate_state checks gate_id after ≡ ok tt
      → after ≡ new_slot gate_id task_id
      → Opened checks gate_id task_id file after
  was_there : Stored checks gate_id file after → Opened checks gate_id task_id file after

open_slot-inv :
    (checks : Checks) (gate_id task_id : String) (file : Option Slot) {after : Slot}
    → open_slot checks gate_id task_id file ≡ ok after
    → Opened checks gate_id task_id file after
unfolding open_slot
open_slot-inv checks gate_id task_id none {after} h =
    let (_, valid, h₁) = >>=-eq-ok (validate_state checks gate_id (new_slot gate_id task_id)) _ h in
    subst (λ (q : Slot). Opened checks gate_id task_id none q) (ok-injective h₁)
      (created refl valid refl)
open_slot-inv checks gate_id task_id (some s) {after} h =
    let (t, read, h₁) = >>=-eq-ok (read_state checks gate_id (some s)) _ h in
    let (_, _, h₂) = >>=-eq-ok (fail_if (not (t.task_id == task_id)) _ _ _) _ h₁ in
    subst (λ (q : Slot). Opened checks gate_id task_id (some s) q) (ok-injective h₂)
      (was_there (read_state-inv checks gate_id (some s) read))

pub initialize_slot-inv :
    (checks : Checks) (gate_id task_id : String) (file : Option Slot) {after : Slot}
    → initialize_slot checks gate_id task_id file ≡ ok after
    → Opened checks gate_id task_id file after
unfolding initialize_slot
initialize_slot-inv checks gate_id task_id file h =
    let (_, _, h₁) = >>=-eq-ok (require_safe_id gate_id "gate_id") _ h in
    let (_, _, h₂) = >>=-eq-ok (require_safe_id task_id "task_id") _ h₁ in
    open_slot-inv checks gate_id task_id file h₂
