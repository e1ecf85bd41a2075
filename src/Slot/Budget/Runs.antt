-- ===== src/Slot/Budget/Runs.antt =====
-- Sequences of operations on the file of one gate. An operation that raises leaves the file as it
-- was, so the steps are the operations that return.
use acgps_public.Prelude.{◌∙◌, ℕ, ◌+◌, ◌≤◌, ◌≡◌, sym, ap, String, Option, none, some, arith}
use acgps_public.Py.Result.{ok}
use acgps_public.Slot.State.{ExecutionRecord, Slot, Checks}
use acgps_public.Slot.Operations.{
  new_slot, initialize_slot, reserve_attempt, retired, retire_candidate,
}
use acgps_public.Slot.Operations.Inversion.{
  retire_candidate-inv, Opened, created, was_there, initialize_slot-inv,
}
use acgps_public.Slot.Publish.{publish_record, with_record}
use acgps_public.Slot.Publish.Effects.{Published, appended, repeated, publish_record-inv}
use acgps_public.Slot.Budget.{reserve_attempt-IsReservation}

-- One operation that returns, with the number of attempts that it reserves.
pub data Step (checks : Checks) (gate_id : String) : ℕ → Option Slot → Option Slot → Type 0 where
  initialize :
      {file : Option Slot} {after : Slot} (task_id : String)
      → initialize_slot checks gate_id task_id file ≡ ok after
      → Step checks gate_id 0 file (some after)
  reserve :
      {file : Option Slot} {after : Slot} (kind : String) (parent : Option String) (at : String)
      → reserve_attempt checks gate_id kind parent at file ≡ ok after
      → Step checks gate_id 1 file (some after)
  retire :
      {file : Option Slot} {after : Slot} (candidate_id authorization_id : String)
      → retire_candidate checks gate_id candidate_id authorization_id file ≡ ok after
      → Step checks gate_id 0 file (some after)
  publish :
      {file : Option Slot} {after : Slot} (r : ExecutionRecord)
      → r.gate_id ≡ gate_id
      → publish_record checks r file ≡ ok after
      → Step checks gate_id 0 file (some after)

-- A sequence of operations, with the number of attempts that it reserves.
pub data Run (checks : Checks) (gate_id : String) (file : Option Slot)
    : ℕ → Option Slot → Type 0 where
  start : Run checks gate_id file 0 file
  next :
      {m n : ℕ} {g h : Option Slot}
      → Run checks gate_id file m g
      → Step checks gate_id n g h
      → Run checks gate_id file (m + n) h

-- What the file leaves of the budget; a gate without a file has all of it.
abbrev pub budget : Option Slot → ℕ
budget none = 2
budget (some s) = s.remaining_attempts

budget-eq : {file : Option Slot} {s : Slot} → file ≡ some s → budget file ≡ s.remaining_attempts
budget-eq e = ap budget e

publish-budget :
    (checks : Checks) (r : ExecutionRecord) (s : Slot) {after : Slot}
    → Published checks r s after
    → after.remaining_attempts ≡ s.remaining_attempts
unfolding with_record
publish-budget checks r s (appended binding change _ _ _ _ e) =
    ap (λ (q : Slot). q.remaining_attempts) e
publish-budget checks r s (repeated existing _ _ e) = ap (λ (q : Slot). q.remaining_attempts) e

Opened-budget :
    {checks : Checks} {gate_id task_id : String} {file : Option Slot} {after : Slot}
    → Opened checks gate_id task_id file after
    → after.remaining_attempts ≡ budget file
unfolding new_slot
Opened-budget (created e _ same) = ap (λ (q : Slot). q.remaining_attempts) same ∙ sym (ap budget e)
Opened-budget (was_there s) = sym (ap budget s.is_there)

-- A step takes from the budget what it reserves.
Step-budget :
    {checks : Checks} {gate_id : String} {n : ℕ} {file after : Option Slot}
    → Step checks gate_id n file after
    → budget after + n ≡ budget file
unfolding retired
Step-budget {checks} {gate_id} {file = file} (initialize task_id h) =
    let e = Opened-budget (initialize_slot-inv checks gate_id task_id file h) in omega arith
Step-budget {checks} {gate_id} {file = file} (reserve kind parent at h) =
    let (s, r, there, effect) =
      reserve_attempt-IsReservation checks gate_id kind parent at file h in
    effect.takes_one ∙ sym (budget-eq there)
Step-budget {checks} {gate_id} {file = file} (retire candidate_id authorization_id h) =
    let inv = retire_candidate-inv checks gate_id candidate_id authorization_id file h in
    let e = ap (λ (q : Slot). q.remaining_attempts) inv.is_next in
    let there = budget-eq inv.stored.is_there in omega arith
Step-budget {checks} {gate_id} {file = file} (publish r same h) =
    let (s, _, stored, _, published) = publish_record-inv checks r file h in
    let e = publish-budget checks r s published in
    let there = budget-eq stored.is_there in omega arith

-- A run takes from the budget what it reserves.
pub Run-budget :
    {checks : Checks} {gate_id : String} {file : Option Slot} {n : ℕ} {after : Option Slot}
    → Run checks gate_id file n after
    → budget after + n ≡ budget file
Run-budget start = omega arith
Run-budget (next run step) = let e = Run-budget run in let k = Step-budget step in omega arith

-- Whatever sequence of operations works on a gate from its first use, with arbitrary arguments, at
-- most two attempts are reserved in it, and the last state holds what is left of the two.
pub two_attempts :
    (checks : Checks) (gate_id : String) {n : ℕ} {after : Slot}
    → Run checks gate_id none n (some after)
    → (n ≤ 2) × (after.remaining_attempts + n ≡ 2)
two_attempts checks gate_id run = let e = Run-budget run in (omega arith, e)
