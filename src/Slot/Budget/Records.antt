-- ===== src/Slot/Budget/Records.antt =====
-- The records and the binding of a gate under sequences of operations.
use acgps_public.Prelude.{
  ℕ, ◌≡◌, sym, subst, ◌∙◌, String, not, Option, none, some, List, [], ◌∷◌, ◌++◌, arith, ◌==◌,
  Bool-cases, inl, inr,
}
use acgps_public.Py.Result.{ok, >>=-eq-ok, ok-injective}
use acgps_public.Py.Value.{Value, py_eq}
use acgps_public.Slot.State.{fail_if, ExecutionRecord, Slot, Checks, is_hold}
use acgps_public.Slot.Operations.{with_reservation, retired, find_record}
use acgps_public.Slot.Operations.Inversion.{
  reserve_attempt-inv, retire_candidate-inv, Opened, created, was_there, initialize_slot-inv,
}
use acgps_public.Slot.Publish.{with_record, bind_attempt, bind_gate}
use acgps_public.Slot.Publish.Effects.{Published, appended, repeated, publish_record-inv}
use acgps_public.Slot.Budget.Runs.{Step, Run}
use acgps_public.Slot.Budget.Runs.Step.{initialize, reserve, retire, publish}
use acgps_public.Slot.Budget.Runs.Run.{start, next}

pub find_record-append :
    (id : String) (xs ys : List ExecutionRecord) {r : ExecutionRecord}
    → find_record id xs ≡ some r
    → find_record id (xs ++ ys) ≡ some r
unfolding find_record
find_record-append id [] ys h = cc
find_record-append id (x ∷ xs) ys h = elim (Bool-cases (x.execution_id == id)) [
  | inl same ↦ ground arith
  | inr other ↦ let k = find_record-append id xs ys (rw other at h) in rw other k
]

-- The records and the binding of `s` are still there in `t`.
pub record Keeps (s t : Slot) : Type 0 where
  pub records :
      (id : String) (r : ExecutionRecord)
      → find_record id s.records ≡ some r
      → find_record id t.records ≡ some r
  pub binding : (b : Value) → s.gate_binding ≡ some b → t.gate_binding ≡ some b

Keeps-refl : (s : Slot) → Keeps s s
Keeps-refl s = record { records = λ id r h. h; binding = λ b h. h }

Keeps-trans : {s t u : Slot} → Keeps s t → Keeps t u → Keeps s u
Keeps-trans h k = record {
  records = λ id r e. k.records id r (h.records id r e);
  binding = λ b e. k.binding b (h.binding b e);
}

bind_attempt-kept :
    (b binding : Value) {after : Option Value}
    → bind_attempt (some b) binding ≡ ok after
    → after ≡ some b
unfolding bind_attempt
bind_attempt-kept b binding h =
    let (_, _, k) = >>=-eq-ok (fail_if (not (py_eq b binding)) _ _ _) _ h in sym (ok-injective k)

bind_gate-kept :
    (bound : Option Value) (r : ExecutionRecord) (b : Value) {after : Option Value}
    → bind_gate bound r ≡ ok after
    → bound ≡ some b
    → after ≡ some b
unfolding bind_gate
bind_gate-kept bound r b {after} h e = elim (Bool-cases (is_hold r.outcome)) [
  | inl hold ↦ sym (ok-injective (rw hold at h)) ∙ e
  | inr attempt ↦ bind_attempt-kept b r.binding (rw (attempt, e) at h)
]

Published-Keeps :
    (checks : Checks) (r : ExecutionRecord) (s : Slot) {after : Slot}
    → Published checks r s after
    → Keeps s after
unfolding with_record
Published-Keeps checks r s (appended binding change _ bound _ _ e) =
    subst (λ (q : Slot). Keeps s q) (sym e)
      (record {
        records = λ id x h. find_record-append id s.records (r ∷ []) h;
        binding = λ b h. bind_gate-kept s.gate_binding r b bound h;
      })
Published-Keeps checks r s (repeated existing _ _ e) =
    subst (λ (q : Slot). Keeps s q) (sym e) (Keeps-refl s)

-- What a file holds is still there in another file, when it is there at all.
abbrev KeepsFile : Option Slot → Option Slot → Type 0
KeepsFile none g = Unit
KeepsFile (some s) none = ⊥
KeepsFile (some s) (some t) = Keeps s t

KeepsFile-of :
    {file : Option Slot} {s t : Slot} → file ≡ some s → Keeps s t → KeepsFile file (some t)
KeepsFile-of {t = t} e h = subst (λ (f : Option Slot). KeepsFile f (some t)) (sym e) h

KeepsFile-trans : (f g h : Option Slot) → KeepsFile f g → KeepsFile g h → KeepsFile f h
KeepsFile-trans none g h k l = tt
KeepsFile-trans (some s) none h k l = absurd k
KeepsFile-trans (some s) (some t) none k l = absurd l
KeepsFile-trans (some s) (some t) (some u) k l = Keeps-trans k l

KeepsFile-refl : (f : Option Slot) → KeepsFile f f
KeepsFile-refl none = tt
KeepsFile-refl (some s) = Keeps-refl s

Opened-Keeps :
    {checks : Checks} {gate_id task_id : String} {file : Option Slot} {after : Slot}
    → Opened checks gate_id task_id file after
    → KeepsFile file (some after)
Opened-Keeps {after = after} (created e _ same) =
    subst (λ (f : Option Slot). KeepsFile f (some after)) (sym e) tt
Opened-Keeps {after = after} (was_there s) = KeepsFile-of s.is_there (Keeps-refl after)

Step-Keeps :
    {checks : Checks} {gate_id : String} {n : ℕ} {file after : Option Slot}
    → Step checks gate_id n file after
    → KeepsFile file after
unfolding retired with_reservation
Step-Keeps {checks} {gate_id} {file = file} (initialize task_id h) =
    Opened-Keeps (initialize_slot-inv checks gate_id task_id file h)
Step-Keeps {checks} {gate_id} {file = file} (reserve kind parent at h) =
    let inv = reserve_attempt-inv checks gate_id kind parent at file h in
    KeepsFile-of inv.stored.is_there (
      subst (λ (q : Slot). Keeps inv.before q) inv.is_next
        (record { records = λ id r e. e; binding = λ b e. e }))
Step-Keeps {checks} {gate_id} {file = file} (retire candidate_id authorization_id h) =
    let inv = retire_candidate-inv checks gate_id candidate_id authorization_id file h in
    KeepsFile-of inv.stored.is_there (
      subst (λ (q : Slot). Keeps inv.before q) inv.is_next
        (record { records = λ id r e. e; binding = λ b e. e }))
Step-Keeps {checks} {gate_id} {file = file} (publish r same h) =
    let (s, _, stored, _, published) = publish_record-inv checks r file h in
    KeepsFile-of stored.is_there (Published-Keeps checks r s published)

Run-Keeps :
    {checks : Checks} {gate_id : String} {file : Option Slot} {n : ℕ} {after : Option Slot}
    → Run checks gate_id file n after
    → KeepsFile file after
Run-Keeps {file = file} start = KeepsFile-refl file
Run-Keeps {file = file} (next run step) = KeepsFile-trans _ _ _ (Run-Keeps run) (Step-Keeps step)

-- Whatever sequence of operations follows on a gate, a record that it holds stays under its identity
-- as it is, and a binding that it has stays the same.
pub records_stay :
    (checks : Checks) (gate_id : String) {s t : Slot} {n : ℕ}
    → Run checks gate_id (some s) n (some t)
    → ((id : String) (r : ExecutionRecord)
        → find_record id s.records ≡ some r
        → find_record id t.records ≡ some r)
      × ((b : Value) → s.gate_binding ≡ some b → t.gate_binding ≡ some b)
records_stay checks gate_id run = let k = Run-Keeps run in (k.records, k.binding)
