-- ===== src/Slot/Valid.antt =====
-- What `_validate_coding_execution_state` of acgps/workflow_store.py ensures of a state it accepts.
use acgps_public.Prelude.{
  ℕ, ◌+◌, ◌≡◌, String, Bool, true, not, ◌&&◌, Option, some, List, [], ◌∷◌, nat_eq, ltb, arith, any,
  mem, ◌==◌, inl, inr, Bool-cases, sym, subst, ap, refl, none, if◌then◌else◌, eq_refl, ◌||◌, false,
}
use acgps_public.Py.Result.{ok, >>=-eq-ok, for_enumerate}
use acgps_public.Py.Text.{is_some, optional_eq}
use acgps_public.Py.Laws.{eq_of_==}
use acgps_public.Slot.State.{
  fail_if, Slot, Checks, ExecutionRecord, Outcome, Reservation, prelaunch_hold, attempt_failed,
  attempt_hold, candidate_ready, is_ready,
}
use acgps_public.Slot.Validate.{
  check_candidates, check_reservation, check_record, completed_attempts, reserved_count,
  execution_ids, candidate_ids, mem_optional, repeats, repeats_optional, check_records,
  validate_state, require_safe_id,
}
use acgps_public.Slot.Operations.Inversion.{fail_if-eq-ok}
use acgps_public.Slot.Records.{
  In, here, there, Delivers, IsDelivered, Counted, nothing, numbered, held, AllDiffer, Reserved,
  free, taken,
}

-- The records of a state, its budget and its candidates agree.
pub record IsValid (s : Slot) : Type 0 where
  pub budget :
      s.remaining_attempts + (completed_attempts s.records + reserved_count s.reserved_attempt) ≡ 2
  pub counted : Counted (completed_attempts s.records) s.records
  pub reserved : Reserved s.reserved_attempt (reserved_count s.reserved_attempt)
  pub all_differ : AllDiffer s.records
  pub active_delivered : (c : String) → s.active_candidate_id ≡ some c → IsDelivered s.records c
  pub historical_delivered :
      (c : String) → mem c s.historical_candidate_ids ≡ true → IsDelivered s.records c

completed_attempts-Counted : (rs : List ExecutionRecord) → Counted (completed_attempts rs) rs
unfolding completed_attempts
completed_attempts-Counted [] = nothing
completed_attempts-Counted (r ∷ rs) = count r.attempt.number refl (completed_attempts-Counted rs)
  where
    plus_none : (m : ℕ) → m ≡ 0 + m
    plus_none m = omega arith

    count :
        {n : ℕ} (o : Option ℕ)
        → r.attempt.number ≡ o
        → Counted n rs
        → Counted ((if is_some r.attempt.number then 1 else 0) + n) (r ∷ rs)
    count {n} none e c =
        subst (λ q. Counted ((if is_some q then 1 else 0) + n) (r ∷ rs)) (sym e)
          (subst (λ m. Counted m (r ∷ rs)) (plus_none n) (held e c))
    count {n} (some k) e c =
        subst (λ q. Counted ((if is_some q then 1 else 0) + n) (r ∷ rs)) (sym e) (numbered e c)

reserved_count-Reserved : (o : Option Reservation) → Reserved o (reserved_count o)
reserved_count-Reserved none = free
reserved_count-Reserved (some r) = taken r

ready_outcome : (o : Outcome) → is_ready o ≡ true → o ≡ candidate_ready
ready_outcome candidate_ready h = refl
ready_outcome prelaunch_hold h = absurd (cc)
ready_outcome attempt_hold h = absurd (cc)
ready_outcome attempt_failed h = absurd (cc)

optional_eq-some : (c : String) (o : Option String) → optional_eq (some c) o ≡ true → o ≡ some c
optional_eq-some c none h = absurd (cc)
optional_eq-some c (some d) h = ap (λ q. some q) (sym (eq_of_== c d h))

later :
    {r : ExecutionRecord} {rs : List ExecutionRecord} {c : String}
    → IsDelivered rs c
    → IsDelivered (r ∷ rs) c
later d = record { by = d.by; is_there = there d.is_there; delivers = d.delivers }

candidate_ids-IsDelivered :
    (rs : List ExecutionRecord) (c : String)
    → mem_optional (some c) (candidate_ids rs) ≡ true
    → IsDelivered rs c
unfolding candidate_ids mem_optional
candidate_ids-IsDelivered [] c h = absurd (cc)
candidate_ids-IsDelivered (r ∷ rs) c h = elim (Bool-cases (is_ready r.outcome)) [
  | inr not_ready ↦ later (candidate_ids-IsDelivered rs c (rw not_ready at h))
  | inl ready ↦ elim (Bool-cases (optional_eq (some c) r.candidate_id)) [
    | inl same ↦ record {
      by = r;
      is_there = here;
      delivers = record {
        is_candidate_ready = ready_outcome r.outcome ready;
        its_candidate = optional_eq-some c r.candidate_id same;
      };
    }
    | inr other ↦ later (candidate_ids-IsDelivered rs c (rw (ready, other) at h))
  ]
]

or_right : (a : Bool) {b : Bool} → b ≡ true → (a || b) ≡ true
or_right a h = ground arith

neither : (a b : Bool) → (a || b) ≡ false → (a ≡ false) × (b ≡ false)
neither a b h = (ground arith, ground arith)

clash : {b : Bool} → b ≡ true → b ≡ false → ⊥
clash p q = cc

-- A candidate that a record delivers is among the candidates.
Delivers-mem :
    (rs : List ExecutionRecord) (q : ExecutionRecord) (c : String)
    → In q rs
    → Delivers q c
    → mem_optional (some c) (candidate_ids rs) ≡ true
unfolding candidate_ids mem_optional
Delivers-mem [] q c i d = elim i [ ]
Delivers-mem (r ∷ rs) q c here d =
    rw (ap is_ready d.is_candidate_ready, d.its_candidate, eq_refl c) refl
Delivers-mem (r ∷ rs) q c (there i) d = elim (Bool-cases (is_ready r.outcome)) [
  | inl ready ↦
      let rest = Delivers-mem rs q c i d in
      rw ready (or_right (optional_eq (some c) r.candidate_id) rest)
  | inr not_ready ↦ rw not_ready (Delivers-mem rs q c i d)
]

mem-execution_ids :
    (rs : List ExecutionRecord) (q : ExecutionRecord)
    → In q rs
    → mem q.execution_id (execution_ids rs) ≡ true
unfolding execution_ids mem
mem-execution_ids [] q i = elim i [ ]
mem-execution_ids (r ∷ rs) q here = rw (eq_refl q.execution_id) refl
mem-execution_ids (r ∷ rs) q (there i) =
    or_right (q.execution_id == r.execution_id) (mem-execution_ids rs q i)

-- What stands after a record that is not repeated.
candidates_after :
    (r : ExecutionRecord) (rs : List ExecutionRecord)
    → repeats_optional (candidate_ids (r ∷ rs)) ≡ false
    → (repeats_optional (candidate_ids rs) ≡ false)
      × ((c : String) → Delivers r c → mem_optional (some c) (candidate_ids rs) ≡ false)
unfolding candidate_ids repeats_optional
candidates_after r rs h = elim (Bool-cases (is_ready r.outcome)) [
  | inl ready ↦
      let (absent, rest) = neither _ _ (rw ready at h) in
      (rest, λ c d. subst (λ o. mem_optional o (candidate_ids rs) ≡ false) d.its_candidate absent)
  | inr not_ready ↦
      (rw not_ready at h, λ c d. absurd (clash (ap is_ready d.is_candidate_ready) not_ready))
]

repeats-AllDiffer :
    (rs : List ExecutionRecord)
    → repeats (execution_ids rs) ≡ false
    → repeats_optional (candidate_ids rs) ≡ false
    → AllDiffer rs
unfolding repeats execution_ids
repeats-AllDiffer [] h k = tt
repeats-AllDiffer (r ∷ rs) h k =
    let (absent, rest) = neither (mem r.execution_id (execution_ids rs)) _ h in
    let (candidates, undelivered) = candidates_after r rs k in
    (
      λ q i. (
        λ same.
            clash (subst (λ x. mem x (execution_ids rs) ≡ true) same (mem-execution_ids rs q i))
              absent,
        λ c by_r by_q. clash (Delivers-mem rs q c i by_q) (undelivered c by_r),
      ),
      repeats-AllDiffer rs rest candidates,
    )

nat_eq-eq : (m n : ℕ) → not (nat_eq m n) ≡ false → m ≡ n
nat_eq-eq m n h = ground arith

delivered_of_active :
    (active : Option String) (candidates : List (Option String)) (c : String)
    → (is_some active && not (mem_optional active candidates)) ≡ false
    → active ≡ some c
    → mem_optional (some c) candidates ≡ true
delivered_of_active active candidates c h e =
    let k = subst (λ a. (is_some a && not (mem_optional a candidates)) ≡ false) e h in ground arith

delivered_of_historical :
    (historical : List String) (candidates : List (Option String)) (c : String)
    → any (λ d. not (mem_optional (some d) candidates)) historical ≡ false
    → mem c historical ≡ true
    → mem_optional (some c) candidates ≡ true
unfolding mem
delivered_of_historical [] candidates c h m = absurd (cc)
delivered_of_historical (d ∷ ds) candidates c h m = elim (Bool-cases (c == d)) [
  | inl same ↦
      subst (λ x. mem_optional (some x) candidates ≡ true) (sym (eq_of_== c d same)) (ground arith)
  | inr other ↦ delivered_of_historical ds candidates c (ground arith) (ground arith)
]

check_records-IsValid : (s : Slot) → check_records s ≡ ok tt → IsValid s
unfolding check_records
check_records-IsValid s h =
    let (_, _, h₁) = >>=-eq-ok (fail_if (ltb 2 (completed_attempts s.records)) _ _ _) _ h in
    let (_, e₂, h₂) = >>=-eq-ok (fail_if (repeats (execution_ids s.records)) _ _ _) _ h₁ in
    let (_, e₃, h₃) =
      >>=-eq-ok
        (fail_if
          (not (
            nat_eq
              (s.remaining_attempts
                + (completed_attempts s.records + reserved_count s.reserved_attempt))
              2))
          _ _ _)
        _ h₂ in
    let (_, e₄, h₄) = >>=-eq-ok (fail_if (repeats_optional (candidate_ids s.records)) _ _ _) _ h₃ in
    let (_, e₅, e₆) =
      >>=-eq-ok
        (fail_if
          (is_some s.active_candidate_id
            && not (mem_optional s.active_candidate_id (candidate_ids s.records)))
          _ _ _)
        _ h₄ in
    record {
      budget = nat_eq-eq _ _ (fail_if-eq-ok _ _ _ _ e₃);
      counted = completed_attempts-Counted s.records;
      reserved = reserved_count-Reserved s.reserved_attempt;
      all_differ =
          repeats-AllDiffer s.records (fail_if-eq-ok _ _ _ _ e₂) (fail_if-eq-ok _ _ _ _ e₄);
      active_delivered = λ c e. candidate_ids-IsDelivered s.records c (
          delivered_of_active s.active_candidate_id (candidate_ids s.records) c
            (fail_if-eq-ok _ _ _ _ e₅) e);
      historical_delivered = λ c m. candidate_ids-IsDelivered s.records c (
          delivered_of_historical s.historical_candidate_ids (candidate_ids s.records) c
            (fail_if-eq-ok _ _ _ _ e₆) m);
    }

-- A state that the validation accepts keeps its books: what remains of the budget, the attempts
-- that are recorded and the one that is reserved are two together; no execution identity and no
-- candidate stands in two records; and the active candidate and the historical ones are candidates
-- that a record of the gate has delivered. Recorded attempts are the records whose attempt has a
-- number, and a record that delivers a candidate is one with the outcome of a ready candidate.
pub validate_state-IsValid :
    (checks : Checks) (gate_id : String) (s : Slot)
    → validate_state checks gate_id s ≡ ok tt
    → IsValid s
unfolding validate_state
validate_state-IsValid checks gate_id s h =
    let (_, _, h₁) = >>=-eq-ok (require_safe_id s.gate_id _) _ h in
    let (_, _, h₂) = >>=-eq-ok (require_safe_id s.task_id _) _ h₁ in
    let (_, _, h₃) = >>=-eq-ok (fail_if (not (s.gate_id == gate_id)) _ _ _) _ h₂ in
    let (_, _, h₄) = >>=-eq-ok (fail_if (ltb 2 s.remaining_attempts) _ _ _) _ h₃ in
    let (_, _, h₅) = >>=-eq-ok (check_candidates s) _ h₄ in
    let (_, _, h₆) = >>=-eq-ok (check_reservation s.remaining_attempts s.reserved_attempt) _ h₅ in
    let (_, _, h₇) = >>=-eq-ok (for_enumerate 0 s.records (check_record checks s)) _ h₆ in
    check_records-IsValid s h₇
