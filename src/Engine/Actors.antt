-- ===== src/Engine/Actors.antt =====
-- The actor of a transition against the kind of its evidence.
use acgps_public.Prelude.{
  ◌≡◌, refl, String, Bool, true, false, not, ◌&&◌, ◌||◌, none, some, ◌==◌, if◌then◌else◌,
}
use acgps_public.Py.Text.{is_some}
use acgps_public.Py.Value.{lookup}
use acgps_public.Engine.{
  pair_lookup, or_else, transition_actors, target_actors, required_transition_actor,
  target_evidence_kind, gate_evidence_kind,
}

-- The two decision tables, with their tests as Booleans.
by_tests :
    (a b c d e f g review fix int task ver rc : Bool)
    → is_some (
        or_else
          (if a
            then some "PLANNER"
            else if b
            then some "PLANNER"
            else if c
            then some "CODER"
            else if d
            then some "CODER"
            else if e
            then some "VERIFIER"
            else if f
            then some "CONTROLLER"
            else if g
            then some "CONTROLLER"
            else none)
          (if fix
            then some "REVIEWER"
            else if int
            then some "REVIEWER"
            else if task
            then some "CODER"
            else if ver
            then some "VERIFIER"
            else if rc
            then some "VERIFIER"
            else none))
      ≡ not (
          (if a || b
            then "PLANNER_RESULT"
            else if c
            then "CODER_HANDOFF"
            else if d
            then "CODER_REMEDIATION_HANDOFF"
            else if e
            then "VERIFIER_RESULT"
            else if f
            then "VERIFIED_CLOSURE_EVIDENCE"
            else if g
            then "RELEASE_CANDIDATE_MANIFEST"
            else if review && (fix || int)
            then "REVIEWER_RESULT"
            else if fix
            then "FIX_REQUIRED_FINDINGS"
            else if int
            then "INTEGRATING_FINDINGS"
            else if task
            then "CODER_RESULT"
            else if ver
            then "VERIFIER_RESULT"
            else if rc
            then "RELEASE_CANDIDATE_MANIFEST"
            else "GENERIC_EVIDENCE")
          == "GENERIC_EVIDENCE")
by_tests true b c d e f g review fix int task ver rc = refl
by_tests false true c d e f g review fix int task ver rc = refl
by_tests false false true d e f g review fix int task ver rc = refl
by_tests false false false true e f g review fix int task ver rc = refl
by_tests false false false false true f g review fix int task ver rc = refl
by_tests false false false false false true g review fix int task ver rc = refl
by_tests false false false false false false true review fix int task ver rc = refl
by_tests false false false false false false false true true int task ver rc = refl
by_tests false false false false false false false false true int task ver rc = refl
by_tests false false false false false false false true false true task ver rc = refl
by_tests false false false false false false false false false true task ver rc = refl
by_tests false false false false false false false true false false true ver rc = refl
by_tests false false false false false false false false false false true ver rc = refl
by_tests false false false false false false false true false false false true rc = refl
by_tests false false false false false false false false false false false true rc = refl
by_tests false false false false false false false true false false false false true = refl
by_tests false false false false false false false false false false false false true = refl
by_tests false false false false false false false true false false false false false = refl
by_tests false false false false false false false false false false false false false = refl

-- A transition needs a particular actor exactly when its evidence is of a particular kind: the table
-- of actors and the table of evidence kinds cover the same transitions.
pub actor_iff_evidence :
    (from target : String)
    → is_some (required_transition_actor from target)
      ≡ not (gate_evidence_kind from target == "GENERIC_EVIDENCE")
unfolding required_transition_actor pair_lookup transition_actors target_actors lookup
    gate_evidence_kind target_evidence_kind
actor_iff_evidence from target =
    by_tests (from == "CLASSIFIED" && target == "SPEC_READY")
      (from == "SPEC_READY" && target == "PLAN_READY")
      (from == "PLAN_READY" && target == "IMPLEMENTING")
      (from == "FIX_REQUIRED" && target == "IMPLEMENTING")
      (from == "INTEGRATING" && target == "FIX_REQUIRED") (from == "VERIFIED" && target == "CLOSED")
      (from == "RC_READY" && target == "CLOSED") (from == "TASK_REVIEW") (target == "FIX_REQUIRED")
      (target == "INTEGRATING") (target == "TASK_REVIEW") (target == "VERIFIED")
      (target == "RC_READY")
