-- ===== src/Engine.antt =====
-- The actor that a transition of a task needs, and the kind of its evidence: two functions of
-- `WorkflowEngine`, acgps/workflow_engine.py.
pub mod Actors
mod Tests
use acgps_public.Prelude.{
  String, Bool, ◌&&◌, ◌||◌, Option, none, some, List, [], ◌∷◌, ◌==◌, if◌then◌else◌,
}
use acgps_public.Py.Value.{lookup}

-- `d.get((from_state, target))`
unfoldable pub pair_lookup : String → String → List ((String × String) × String) → Option String
pair_lookup from target [] = none
pair_lookup from target (((f, t), v) ∷ d) =
    if from == f && target == t then some v else pair_lookup from target d

-- The actors of particular transitions.
unfoldable pub transition_actors : List ((String × String) × String)
transition_actors =
    (("CLASSIFIED", "SPEC_READY"), "PLANNER")
    ∷ (("SPEC_READY", "PLAN_READY"), "PLANNER")
    ∷ (("PLAN_READY", "IMPLEMENTING"), "CODER")
    ∷ (("FIX_REQUIRED", "IMPLEMENTING"), "CODER")
    ∷ (("INTEGRATING", "FIX_REQUIRED"), "VERIFIER")
    ∷ (("VERIFIED", "CLOSED"), "CONTROLLER")
    ∷ (("RC_READY", "CLOSED"), "CONTROLLER")
    ∷ []

-- The actors of target states.
unfoldable pub target_actors : List (String × String)
target_actors =
    ("FIX_REQUIRED", "REVIEWER")
    ∷ ("INTEGRATING", "REVIEWER")
    ∷ ("TASK_REVIEW", "CODER")
    ∷ ("VERIFIED", "VERIFIER")
    ∷ ("RC_READY", "VERIFIER")
    ∷ []

-- `a or b`; the texts of the first mapping are not empty.
abbrev pub or_else : Option String → Option String → Option String
or_else none b = b
or_else (some a) b = some a

-- `_required_transition_actor`
unfoldable pub required_transition_actor : String → String → Option String
required_transition_actor from target =
    or_else (pair_lookup from target transition_actors) (lookup target target_actors)

abbrev is_step : String → String → String → String → Bool
is_step from target f t = from == f && target == t

-- The kinds of evidence that depend on the target alone.
unfoldable pub target_evidence_kind : String → String
target_evidence_kind target =
    if target == "FIX_REQUIRED"
    then "FIX_REQUIRED_FINDINGS"
    else if target == "INTEGRATING"
    then "INTEGRATING_FINDINGS"
    else if target == "TASK_REVIEW"
    then "CODER_RESULT"
    else if target == "VERIFIED"
    then "VERIFIER_RESULT"
    else if target == "RC_READY"
    then "RELEASE_CANDIDATE_MANIFEST"
    else "GENERIC_EVIDENCE"

-- `_gate_evidence_kind`
unfoldable pub gate_evidence_kind : String → String → String
gate_evidence_kind from target =
    if is_step from target "CLASSIFIED" "SPEC_READY"
      || is_step from target "SPEC_READY" "PLAN_READY"
    then "PLANNER_RESULT"
    else if is_step from target "PLAN_READY" "IMPLEMENTING"
    then "CODER_HANDOFF"
    else if is_step from target "FIX_REQUIRED" "IMPLEMENTING"
    then "CODER_REMEDIATION_HANDOFF"
    else if is_step from target "INTEGRATING" "FIX_REQUIRED"
    then "VERIFIER_RESULT"
    else if is_step from target "VERIFIED" "CLOSED"
    then "VERIFIED_CLOSURE_EVIDENCE"
    else if is_step from target "RC_READY" "CLOSED"
    then "RELEASE_CANDIDATE_MANIFEST"
    else if from == "TASK_REVIEW" && (target == "FIX_REQUIRED" || target == "INTEGRATING")
    then "REVIEWER_RESULT"
    else target_evidence_kind target
