-- ===== src/Slot/Budget.antt =====
-- The budget of a gate under the operations of `WorkflowStore`: each reservation takes one of the
-- two attempts, and nothing gives one back.
pub mod Runs
pub mod Records
use acgps_public.Prelude.{
  ℕ, ◌+◌, ◌-◌, ◌≤◌, ◌≡◌, refl, sym, ap, subst, String, Bool, true, false, not, ◌&&◌, ◌||◌, Option,
  none, some, List, nat_eq, arith, mem, ◌==◌, Bool-cases, ◌⊎◌, inl, inr,
}
use acgps_public.Py.Result.{ok, >>=-eq-ok}
use acgps_public.Py.Text.{is_some}
use acgps_public.Slot.State.{
  SlotState, empty_for_remediation, StoreCode, fail_if, Reservation, Slot, Checks, state_eq, empty,
}
use acgps_public.Slot.Validate.{completed_attempts, reserved_count, validate_state}
use acgps_public.Slot.Operations.{
  check_kind, check_reserve, next_reservation, with_reservation, reserve_attempt, is_parent,
}
use acgps_public.Slot.Operations.Inversion.{fail_if-eq-ok, Stored, Reserved, reserve_attempt-inv}
use acgps_public.Slot.Valid.{IsValid, validate_state-IsValid}

-- The next attempt of a gate is reserved: the attempt is counted, and its number is its place.
pub record IsReservation (before after : Slot) (r : Reservation) : Type 0 where
  pub was_free : before.reserved_attempt ≡ none
  pub is_reserved : after.reserved_attempt ≡ some r
  pub takes_one : after.remaining_attempts + 1 ≡ before.remaining_attempts
  pub is_next : r.number ≡ completed_attempts before.records + 1
  pub is_counted : r.number + after.remaining_attempts ≡ 2
  pub records_kept : after.records ≡ before.records

-- A reservation found the slot free and some of the budget left.
check_reserve-free :
    (checks : Checks) (s : Slot) (kind : String) (parent : Option String) (at : String)
    → check_reserve checks s kind parent at ≡ ok tt
    → (is_some s.reserved_attempt ≡ false)
      × (nat_eq s.remaining_attempts 0 ≡ false)
      × (check_kind s kind parent ≡ ok tt)
unfolding check_reserve
check_reserve-free checks s kind parent at h =
    let (_, e₁, h₁) = >>=-eq-ok (fail_if (is_some s.reserved_attempt) _ _ _) _ h in
    let (_, e₂, h₂) = >>=-eq-ok (fail_if (nat_eq s.remaining_attempts 0) _ _ _) _ h₁ in
    let (_, e₃, h₃) = >>=-eq-ok (check_kind s kind parent) _ h₂ in
    (fail_if-eq-ok _ _ _ _ e₁, fail_if-eq-ok _ _ _ _ e₂, e₃)

with_reservation-IsReservation :
    (s : Slot) (kind : String) (parent : Option String) (at : String)
    → IsValid s
    → is_some s.reserved_attempt ≡ false
    → nat_eq s.remaining_attempts 0 ≡ false
    → IsReservation s
        (with_reservation s (next_reservation s.remaining_attempts kind parent at))
        (next_reservation s.remaining_attempts kind parent at)
unfolding with_reservation next_reservation
with_reservation-IsReservation s kind parent at v free left =
    let none_yet : s.reserved_attempt ≡ none = is_none s.reserved_attempt free in
    let books : s.remaining_attempts + completed_attempts s.records ≡ 2 =
      count s.remaining_attempts (completed_attempts s.records) s.reserved_attempt v.budget
        none_yet in
    record {
      was_free = none_yet;
      is_reserved = refl;
      takes_one = ground arith;
      is_next = ground arith;
      is_counted = ground arith;
      records_kept = refl;
    }
  where
    is_none : (o : Option Reservation) → is_some o ≡ false → o ≡ none
    is_none none h = refl
    is_none (some r) h = cc

    count :
        (m n : ℕ) (o : Option Reservation) → m + (n + reserved_count o) ≡ 2 → o ≡ none → m + n ≡ 2
    count m n o h e = let k = subst (λ q. m + (n + reserved_count q) ≡ 2) e h in omega arith

-- A reservation that returns takes one attempt of a free slot: the budget goes down by one, the
-- attempt's number is one more than the attempts on record, and with what remains it makes two.
pub reserve_attempt-IsReservation :
    (checks : Checks) (gate_id kind : String) (parent : Option String) (at : String)
    (file : Option Slot) {after : Slot}
    → reserve_attempt checks gate_id kind parent at file ≡ ok after
    → (before : Slot) × (r : Reservation) × (file ≡ some before) × IsReservation before after r
reserve_attempt-IsReservation checks gate_id kind parent at file {after} h =
    let inv = reserve_attempt-inv checks gate_id kind parent at file h in
    let s = inv.before in
    let valid = validate_state-IsValid checks gate_id s inv.stored.is_valid in
    let (free, left, _) = check_reserve-free checks s kind parent at inv.checked in
    let r = next_reservation s.remaining_attempts kind parent at in
    (
      s,
      r,
      inv.stored.is_there,
      subst (λ (q : Slot). IsReservation s q r) inv.is_next
          (with_reservation-IsReservation s kind parent at valid free left),
    )

check_kind-remediation :
    (s : Slot) (parent : Option String)
    → check_kind s "REMEDIATION" parent ≡ ok tt
    → (state_eq s.state empty_for_remediation ≡ true)
      × (s.remaining_attempts ≡ 1)
      × (is_parent parent s.historical_candidate_ids ≡ true)
unfolding check_kind
check_kind-remediation s parent h =
    conditions (state_eq s.state empty_for_remediation) s.remaining_attempts
      (is_parent parent s.historical_candidate_ids) (is_some s.remediation_authorization_id)
      (fail_if-eq-ok _ _ _ _ h)
  where
    conditions :
        (a : Bool) (n : ℕ) (b c : Bool)
        → (not a || not (nat_eq n 1) || not b || not c) ≡ false
        → (a ≡ true) × (n ≡ 1) × (b ≡ true)
    conditions a n b c e = (ground arith, ground arith, ground arith)

-- A reservation for remediation that returns is the second and last attempt of its gate, in the
-- state that waits for one, and its parent is a historical candidate.
pub remediation_is_last :
    (checks : Checks) (gate_id : String) (parent : Option String) (at : String) (file : Option Slot)
    {after : Slot}
    → reserve_attempt checks gate_id "REMEDIATION" parent at file ≡ ok after
    → (r : Reservation) × (after.reserved_attempt ≡ some r)
      × (r.number ≡ 2)
      × (after.remaining_attempts ≡ 0)
      × (state_eq after.state empty_for_remediation ≡ true)
      × (is_parent parent after.historical_candidate_ids ≡ true)
unfolding with_reservation next_reservation
remediation_is_last checks gate_id parent at file {after} h =
    let inv = reserve_attempt-inv checks gate_id "REMEDIATION" parent at file h in
    let s = inv.before in
    let (_, _, kind) = check_reserve-free checks s "REMEDIATION" parent at inv.checked in
    let (waits, one, has_parent) = check_kind-remediation s parent kind in
    subst
      (λ (q : Slot).
        (r : Reservation) × (q.reserved_attempt ≡ some r)
        × (r.number ≡ 2)
        × (q.remaining_attempts ≡ 0)
        × (state_eq q.state empty_for_remediation ≡ true)
        × (is_parent parent q.historical_candidate_ids ≡ true))
      inv.is_next
      (
        next_reservation s.remaining_attempts "REMEDIATION" parent at,
        refl,
        omega arith,
        omega arith,
        waits,
        has_parent,
      )
