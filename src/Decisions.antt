-- ===== src/Decisions.antt =====
-- `DecisionQueue` of acgps/human_decisions.py: the files of pending requests and of resolutions,
-- each written once, and the list of the requests that wait.
pub mod Once
pub mod Resolved
pub mod Waiting
mod Tests
use acgps_public.Prelude.{
  String, Bool, true, false, not, ◌&&◌, Option, none, some, List, [], ◌∷◌, ◌++◌, ◌==◌, length, map,
  nat_eq, all, if◌then◌else◌, mem,
}
use acgps_public.Py.Result.{Py, ok, raise, ◌>>=◌, ◌>>◌, raise_if, require}
use acgps_public.Py.Text.{fmt, sorted}
use acgps_public.Py.Value.{lookup, keys}

-- A call that returns or raises `DecisionQueueError` with its message.
abbrev pub Queue : Type 0 → Type 0
Queue A = Py String A

-- The fields of a request that the queue reads.
pub record Request : Type 0 where
  pub decision_id : String
  pub project_id : String
  pub task_id : String
  pub stage : String
  pub status : String
  pub option_ids : List String

-- The fields of a resolution that the queue reads.
pub record Resolution : Type 0 where
  pub decision_id : String
  pub project_id : String
  pub task_id : String
  pub resume_state : String
  pub selected_option : String

-- The contents of the files of a directory, by name.
abbrev pub Files : Type 0
Files = List (String × String)

-- What the queue takes from elsewhere: JSON, the contract checks, and the tests on paths.
pub record Formats : Type 0 where
  pub request_json : Request → String
  pub read_request : String → Option Request
  pub resolution_json : Resolution → String
  pub read_resolution : String → Option Resolution
  pub request_error : Request → Option String
  pub resolution_error : Resolution → Option String
  pub path_error : String → Option String

-- The workflow store that a queue may have: which resolutions are committed, and the decisions that
-- tasks wait for, by task.
pub record Workflow : Type 0 where
  pub has_committed : Resolution → Queue Bool
  pub waiting : Queue (List (String × String))

pub record DecisionQueue : Type 0 where
  pub pending : Files
  pub resolved : Files

abbrev pub refuse : Option String → Queue (Unit {0})
refuse none = ok tt
refuse (some message) = raise message

abbrev pub refuse_if : Bool → String → Queue (Unit {0})
refuse_if test message = raise_if test message

-- `_write_once`: the same payload is accepted again, another one is refused.
unfoldable pub write_once : Files → String → String → Queue Files
write_once files name payload = elim (lookup name files) [
  | none ↦ ok ((name, payload) ∷ files)
  | some there ↦
      if there == payload
      then ok files
      else raise (fmt ("decision record already exists: " ∷ name ∷ []))
]

-- `f"{decision_id}.json"`
abbrev pub file_name : String → String
file_name decision_id = fmt (decision_id ∷ ".json" ∷ [])

-- `_read_mapping`
abbrev pub read_mapping : {A : Type 0} → Option A → String → Queue A
read_mapping parsed name = require parsed (fmt ("decision record is unreadable: " ∷ name ∷ []))

-- `_validate_request`
unfoldable pub validate_request : Formats → Request → Queue (Unit {0})
validate_request formats request = do
  refuse (formats.request_error request)
  refuse_if (not (request.status == "PENDING")) "pending decision request status must be PENDING"

-- `_validate_resolution_against_request`
unfoldable pub validate_against : Formats → Resolution → Request → Queue (Unit {0})
validate_against formats resolution request = do
  refuse (formats.resolution_error resolution)
  refuse_if (not (resolution.decision_id == request.decision_id))
      "resolution decision_id does not match pending request"
  refuse_if (not (resolution.project_id == request.project_id))
      "resolution project_id does not match pending request"
  refuse_if (not (resolution.task_id == request.task_id))
      "resolution task_id does not match pending request"
  refuse_if (not (resolution.resume_state == request.stage))
      "resolution resume_state does not match the approved target stage"
  refuse_if (not (mem resolution.selected_option request.option_ids))
      "selected_option is not offered by the pending request"

-- `create`
unfoldable pub create : Formats → Request → DecisionQueue → Queue DecisionQueue
create formats request q = do
  validate_request formats request
  refuse (formats.path_error request.decision_id)
  pending ← write_once q.pending (file_name request.decision_id) (formats.request_json request)
  ok (record { pending = pending; resolved = q.resolved })

-- `validate_resolution`
unfoldable pub validate_resolution : Formats → Resolution → DecisionQueue → Queue Request
validate_resolution formats resolution q = do
  refuse (formats.resolution_error resolution)
  refuse (formats.path_error resolution.decision_id)
  content ←
      require (lookup (file_name resolution.decision_id) q.pending)
        "matching pending decision request is missing"
  request ← read_mapping (formats.read_request content) (file_name resolution.decision_id)
  validate_request formats request
  validate_against formats resolution request
  ok request

-- `resolve`
unfoldable pub resolve : Formats → Resolution → DecisionQueue → Queue DecisionQueue
resolve formats resolution q = do
  validate_resolution formats resolution q
  resolved ←
      write_once q.resolved (file_name resolution.decision_id) (formats.resolution_json resolution)
  ok (record { pending = q.pending; resolved = resolved })

-- `_resolution_is_committed`
abbrev pub is_committed : Option Workflow → Resolution → Queue Bool
is_committed none resolution = ok true
is_committed (some workflow) resolution = workflow.has_committed resolution

-- Is a request resolved? `content` is what its resolution file holds, none without one.
unfoldable pub is_settled : Formats → Option Workflow → Request → Option String → Queue Bool
is_settled formats workflow request none = ok false
is_settled formats workflow request (some content) = do
  resolution ← read_mapping (formats.read_resolution content) (file_name request.decision_id)
  validate_against formats resolution request
  is_committed workflow resolution

-- The request of one pending file, and whether it is settled.
unfoldable pub read_pending :
    Formats → Option Workflow → DecisionQueue → String → Queue (Request × Bool)
read_pending formats workflow q name = do
  content ← require (lookup name q.pending) (fmt ("decision record is unreadable: " ∷ name ∷ []))
  request ← read_mapping (formats.read_request content) name
  validate_request formats request
  refuse (formats.path_error request.decision_id)
  settled ← is_settled formats workflow request (lookup (file_name request.decision_id) q.resolved)
  ok (request, settled)

-- The loop over the names of the pending files.
unfoldable pub waiting_from :
    Formats → Option Workflow → DecisionQueue → List String → Queue (List Request)
waiting_from formats workflow q [] = ok []
waiting_from formats workflow q (name ∷ names) = do
  entry ← read_pending formats workflow q name
  rest ← waiting_from formats workflow q names
  ok (if entry.1 then rest else entry.0 ∷ rest)

-- `set` on the tasks of the records: no task stands twice.
unfoldable pub distinct_tasks : List Request → Bool
distinct_tasks [] = true
distinct_tasks (r ∷ rs) = not (mem r.task_id (map (λ s. s.task_id) rs)) && distinct_tasks rs

abbrev waits_for : List (String × String) → Request → Bool
waits_for waiting r = elim (lookup r.task_id waiting) [
  | none ↦ false
  | some decision_id ↦ decision_id == r.decision_id
]

-- `_require_authoritative_pending_match`: the mapping from tasks to decisions is the store's.
unfoldable pub require_match : Option Workflow → List Request → Queue (Unit {0})
require_match none records = ok tt
require_match (some workflow) records = do
  waiting ← workflow.waiting
  refuse_if
      (not (
        distinct_tasks records
        && nat_eq (length records) (length waiting)
        && all (waits_for waiting) records))
      "pending decision records do not match authoritative WAITING_HUMAN tasks"

-- `list_pending`
unfoldable pub list_pending : Formats → Option Workflow → DecisionQueue → Queue (List Request)
list_pending formats workflow q = do
  records ← waiting_from formats workflow q (sorted (keys q.pending))
  require_match workflow records
  ok records
