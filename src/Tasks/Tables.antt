-- ===== src/Tasks/Tables.antt =====
-- The tables of the store and the SQL statements on them.
pub mod Laws
use acgps_public.Prelude.{
  ℕ, String, Bool, true, false, ◌&&◌, Option, none, some, List, [], ◌∷◌, ◌==◌, nat_eq, ltb,
  if◌then◌else◌,
}
use acgps_public.Py.Value.{lookup}

-- A row of audit_events; `Text` is the type of its column event_json.
pub record Row (Text : Type 0) : Type 0 where
  pub task_id : String
  pub generation : ℕ
  pub sequence : ℕ
  pub event_json : Text

-- The rows of audit_events, the last inserted one first, and the column state_json by task_id.
pub record Tables (Text : Type 0) : Type 0 where
  pub task_states : List (String × Text)
  pub audit_events : List (Row Text)

module _ {Text : Type 0} where
  -- `WHERE task_id = ?`
  unfoldable pub of_task : String → List (Row Text) → List (Row Text)
  of_task k [] = []
  of_task k (r ∷ rs) = let rest = of_task k rs in if r.task_id == k then r ∷ rest else rest

  -- `WHERE generation = ?`
  unfoldable pub of_generation : ℕ → List (Row Text) → List (Row Text)
  of_generation g [] = []
  of_generation g (r ∷ rs) =
      let rest = of_generation g rs in if nat_eq r.generation g then r ∷ rest else rest

  -- `WHERE sequence = ?`: the text of the row.
  unfoldable pub of_sequence : ℕ → List (Row Text) → Option Text
  of_sequence n [] = none
  of_sequence n (r ∷ rs) = if nat_eq r.sequence n then some r.event_json else of_sequence n rs

  -- `SELECT event_json FROM audit_events WHERE task_id = ? AND generation = ? AND sequence = ?`
  unfoldable pub event_at : String → ℕ → ℕ → List (Row Text) → Option Text
  unfolding of_task of_generation of_sequence
  event_at k g n rows = of_sequence n (of_generation g (of_task k rows))

  -- `ORDER BY sequence DESC LIMIT 1`
  unfoldable pub latest : List (Row Text) → Option (Row Text)
  latest [] = none
  latest (r ∷ rs) = elim (latest rs) [
    | none ↦ some r
    | some q ↦ if ltb r.sequence q.sequence then some q else some r
  ]

  -- `ORDER BY sequence`
  unfoldable pub insert_by_sequence : Row Text → List (Row Text) → List (Row Text)
  insert_by_sequence r [] = r ∷ []
  insert_by_sequence r (q ∷ qs) =
      let rest = insert_by_sequence r qs in
      if ltb q.sequence r.sequence then q ∷ rest else r ∷ q ∷ qs

  unfoldable pub by_sequence : List (Row Text) → List (Row Text)
  unfolding insert_by_sequence
  by_sequence [] = []
  by_sequence (r ∷ rs) = insert_by_sequence r (by_sequence rs)

  -- `INSERT ... ON CONFLICT(task_id) DO UPDATE SET state_json = excluded.state_json`
  unfoldable pub upsert : String → Text → List (String × Text) → List (String × Text)
  upsert k v [] = (k, v) ∷ []
  upsert k v ((j, w) ∷ d) = let rest = upsert k v d in if k == j then (k, v) ∷ d else (j, w) ∷ rest
