-- ===== src/Slot/Records.antt =====
-- The records of a gate: which deliver candidates, and how many were attempts.
use acgps_public.Prelude.{Option, ℕ, ◌+◌, ◌≡◌, String, some, List, [], ◌∷◌, none, ◌≢◌}
use acgps_public.Slot.State.{ExecutionRecord, Reservation, candidate_ready}

-- The record is in the list.
pub data In (r : ExecutionRecord) : List ExecutionRecord → Type 0 where
  here : {rs : List ExecutionRecord} → In r (r ∷ rs)
  there : {q : ExecutionRecord} {rs : List ExecutionRecord} → In r rs → In r (q ∷ rs)

-- A record that is ready delivers its candidate.
pub record Delivers (r : ExecutionRecord) (c : String) : Type 0 where
  pub is_candidate_ready : r.outcome ≡ candidate_ready
  pub its_candidate : r.candidate_id ≡ some c

-- The candidate is one that a record of the list has delivered.
pub record IsDelivered (records : List ExecutionRecord) (c : String) : Type 0 where
  pub by : ExecutionRecord
  pub is_there : In by records
  pub delivers : Delivers by c

-- The number of records whose attempt has a number.
pub data Counted : ℕ → List ExecutionRecord → Type 0 where
  nothing : Counted 0 []
  numbered :
      {n k : ℕ} {r : ExecutionRecord} {rs : List ExecutionRecord}
      → r.attempt.number ≡ some k
      → Counted n rs
      → Counted (1 + n) (r ∷ rs)
  held :
      {n : ℕ} {r : ExecutionRecord} {rs : List ExecutionRecord}
      → r.attempt.number ≡ none
      → Counted n rs
      → Counted n (r ∷ rs)

-- The number of attempts that are reserved.
pub data Reserved : Option Reservation → ℕ → Type 0 where
  free : Reserved none 0
  taken : (r : Reservation) → Reserved (some r) 1

-- No two records have one identity, and no two deliver one candidate.
abbrev pub AllDiffer : List ExecutionRecord → Type 0
AllDiffer [] = Unit {0}
AllDiffer (r ∷ rs) =
    ((q : ExecutionRecord)
      → In q rs
      → (q.execution_id ≢ r.execution_id) × ((c : String) → Delivers r c → Delivers q c → ⊥))
    × AllDiffer rs
