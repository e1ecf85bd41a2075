-- ===== src/Decisions/Tests.antt =====
-- The theorems on the decision queue at one request and its resolution.
use acgps_public.Prelude.{◌≡◌, refl, none, some, [], ◌∷◌, ◌==◌, mem, if◌then◌else◌, All}
use acgps_public.Py.Result.{ok}
use acgps_public.Py.Text.{fmt, sorted, insert_sorted}
use acgps_public.Py.Value.{lookup, keys}
use acgps_public.Decisions.{
  Formats, Request, Resolution, DecisionQueue, write_once, file_name, create, resolve,
  validate_request, validate_resolution, validate_against, is_settled, read_pending, waiting_from,
  require_match, list_pending,
}
use acgps_public.Decisions.Once.{Stays, files_stay}
use acgps_public.Decisions.Once.Step.{created, resolved}
use acgps_public.Decisions.Once.Run.{start, next}
use acgps_public.Decisions.Resolved.{Answers, resolve-Answers}
use acgps_public.Decisions.Waiting.{IsCovered, IsWaiting, list_pending-exact}

abbrev question : Request
question = record {
  decision_id = "D1";
  project_id = "P1";
  task_id = "T1";
  stage = "PLAN_READY";
  status = "PENDING";
  option_ids = "A" ∷ "B" ∷ [];
}

abbrev answer : Resolution
answer = record {
  decision_id = "D1";
  project_id = "P1";
  task_id = "T1";
  resume_state = "PLAN_READY";
  selected_option = "B";
}

abbrev formats : Formats
formats = record {
  request_json = λ r. "question";
  read_request = λ s. if s == "question" then some question else none;
  resolution_json = λ r. "answer";
  read_resolution = λ s. if s == "answer" then some answer else none;
  request_error = λ r. none;
  resolution_error = λ r. none;
  path_error = λ s. none;
}

abbrev nothing : DecisionQueue
nothing = record { pending = []; resolved = [] }

abbrev asked : DecisionQueue
asked = record { pending = ("D1.json", "question") ∷ []; resolved = [] }

abbrev answered : DecisionQueue
answered = record { pending = ("D1.json", "question") ∷ []; resolved = ("D1.json", "answer") ∷ [] }

create_run : create formats question nothing ≡ ok asked
unfolding create validate_request write_once lookup fmt
create_run = refl

resolve_run : resolve formats answer asked ≡ ok answered
unfolding resolve validate_resolution validate_request validate_against write_once lookup fmt mem
resolve_run = refl

list_run : list_pending formats none asked ≡ ok (question ∷ [])
unfolding list_pending waiting_from read_pending validate_request is_settled require_match lookup
    keys sorted insert_sorted fmt
list_run = refl

files_stay_example : Stays [] asked.pending × Stays [] answered.resolved
files_stay_example =
    files_stay {formats = formats} {q = nothing} {after = answered}
      (next (next start (created question create_run)) (resolved answer resolve_run))

resolve-Answers_example :
    Answers formats asked answer × (lookup (file_name "D1") answered.resolved ≡ some "answer")
resolve-Answers_example = resolve-Answers formats answer asked resolve_run

list_pending-exact_example :
    All (IsCovered formats none asked (question ∷ [])) (sorted (keys asked.pending))
    × All (IsWaiting formats none asked (sorted (keys asked.pending))) (question ∷ [])
list_pending-exact_example = list_pending-exact formats none asked list_run
