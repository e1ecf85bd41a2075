-- ===== src/Engine/Tests.antt =====
-- The theorem on actors and evidence at a transition of a review.
use acgps_public.Prelude.{◌≡◌, not, ◌==◌}
use acgps_public.Py.Text.{is_some}
use acgps_public.Engine.{required_transition_actor, gate_evidence_kind}
use acgps_public.Engine.Actors.{actor_iff_evidence}

actor_iff_evidence_example :
    is_some (required_transition_actor "TASK_REVIEW" "FIX_REQUIRED")
    ≡ not (gate_evidence_kind "TASK_REVIEW" "FIX_REQUIRED" == "GENERIC_EVIDENCE")
actor_iff_evidence_example = actor_iff_evidence "TASK_REVIEW" "FIX_REQUIRED"
