-- ===== src/Decisions/Resolved.antt =====
-- What a resolution that is accepted answers.
use acgps_public.Prelude.{◌∙◌, ◌≡◌, refl, sym, ap, String, Bool, true, false, not, some, ◌==◌, mem}
use acgps_public.Py.Result.{ok, require, >>=-eq-ok, ok-injective, require-eq-ok}
use acgps_public.Py.Laws.{eq_of_==}
use acgps_public.Py.Value.{lookup}
use acgps_public.Decisions.{
  Formats, Request, Resolution, DecisionQueue, write_once, file_name, refuse, refuse_if,
  validate_request, validate_against, validate_resolution, resolve,
}
use acgps_public.Decisions.Once.{write_once-Stays}

-- The request is pending in the queue, and the resolution takes one of its options.
pub record Answers (formats : Formats) (q : DecisionQueue) (r : Resolution) : Type 0 where
  pub request : Request
  pub content : String
  pub is_pending : lookup (file_name r.decision_id) q.pending ≡ some content
  pub is_read : formats.read_request content ≡ some request
  pub same_decision : r.decision_id ≡ request.decision_id
  pub same_project : r.project_id ≡ request.project_id
  pub same_task : r.task_id ≡ request.task_id
  pub same_stage : r.resume_state ≡ request.stage
  pub is_offered : mem r.selected_option request.option_ids ≡ true

pub passed : (b : Bool) (m : String) {u : Unit {0}} → refuse_if (not b) m ≡ ok u → b ≡ true
passed true m h = refl
passed false m h = cc

pub same_text : (s t m : String) {u : Unit {0}} → refuse_if (not (s == t)) m ≡ ok u → s ≡ t
same_text s t m h = eq_of_== s t (passed (s == t) m h)

-- A resolution fits a request: the same decision, project, task and stage, and an offered option.
pub record Fits (r : Resolution) (request : Request) : Type 0 where
  pub same_decision : r.decision_id ≡ request.decision_id
  pub same_project : r.project_id ≡ request.project_id
  pub same_task : r.task_id ≡ request.task_id
  pub same_stage : r.resume_state ≡ request.stage
  pub is_offered : mem r.selected_option request.option_ids ≡ true

pub validate_against-Fits :
    (formats : Formats) (r : Resolution) (request : Request) {u : Unit {0}}
    → validate_against formats r request ≡ ok u
    → Fits r request
unfolding validate_against
validate_against-Fits formats r request h =
    let (_, _, h₁) = >>=-eq-ok (refuse (formats.resolution_error r)) _ h in
    let (_, e₁, h₂) = >>=-eq-ok (refuse_if (not (r.decision_id == request.decision_id)) _) _ h₁ in
    let (_, e₂, h₃) = >>=-eq-ok (refuse_if (not (r.project_id == request.project_id)) _) _ h₂ in
    let (_, e₃, h₄) = >>=-eq-ok (refuse_if (not (r.task_id == request.task_id)) _) _ h₃ in
    let (_, e₄, e₅) = >>=-eq-ok (refuse_if (not (r.resume_state == request.stage)) _) _ h₄ in
    record {
      same_decision = same_text _ _ _ e₁;
      same_project = same_text _ _ _ e₂;
      same_task = same_text _ _ _ e₃;
      same_stage = same_text _ _ _ e₄;
      is_offered = passed (mem r.selected_option request.option_ids) _ e₅;
    }

answers :
    (formats : Formats) (q : DecisionQueue) (r : Resolution) (request : Request) (content : String)
    → lookup (file_name r.decision_id) q.pending ≡ some content
    → formats.read_request content ≡ some request
    → Fits r request
    → Answers formats q r
answers formats q r request content pending is_read fits = record {
  request = request;
  content = content;
  is_pending = pending;
  is_read = is_read;
  same_decision = fits.same_decision;
  same_project = fits.same_project;
  same_task = fits.same_task;
  same_stage = fits.same_stage;
  is_offered = fits.is_offered;
}

validate_resolution-Answers :
    (formats : Formats) (r : Resolution) (q : DecisionQueue) {request : Request}
    → validate_resolution formats r q ≡ ok request
    → Answers formats q r
unfolding validate_resolution
validate_resolution-Answers formats r q h =
    let (_, _, h₁) = >>=-eq-ok (refuse (formats.resolution_error r)) _ h in
    let (_, _, h₂) = >>=-eq-ok (refuse (formats.path_error r.decision_id)) _ h₁ in
    let (content, e₁, h₃) =
      >>=-eq-ok (require (lookup (file_name r.decision_id) q.pending) _) _ h₂ in
    let (request, e₂, h₄) = >>=-eq-ok (require (formats.read_request content) _) _ h₃ in
    let (_, _, h₅) = >>=-eq-ok (validate_request formats request) _ h₄ in
    let (_, e₃, _) = >>=-eq-ok (validate_against formats r request) _ h₅ in
    answers formats q r request content (require-eq-ok _ _ e₁) (require-eq-ok _ _ e₂)
      (validate_against-Fits formats r request e₃)

-- A resolution that is written answers a pending request: it has the request's decision, project,
-- task and stage, it takes one of the options that are offered, and its file holds it.
pub resolve-Answers :
    (formats : Formats) (r : Resolution) (q : DecisionQueue) {after : DecisionQueue}
    → resolve formats r q ≡ ok after
    → Answers formats q r
      × (lookup (file_name r.decision_id) after.resolved ≡ some (formats.resolution_json r))
unfolding resolve
resolve-Answers formats r q h =
    let (request, e, h₁) = >>=-eq-ok (validate_resolution formats r q) _ h in
    let (written, e₁, h₂) =
      >>=-eq-ok (write_once q.resolved (file_name r.decision_id) (formats.resolution_json r)) _
        h₁ in
    let is_resolved =
      ap (λ (d : DecisionQueue). lookup (file_name r.decision_id) d.resolved) (ok-injective h₂) in
    (
      validate_resolution-Answers formats r q e,
      sym is_resolved ∙ (write_once-Stays q.resolved _ _ e₁).1,
    )
