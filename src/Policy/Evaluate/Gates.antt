-- ===== src/Policy/Evaluate/Gates.antt =====
-- The human gate of a decision and the transitions that it authorizes.
use acgps_public.Prelude.{
  ℕ, ◌≤◌, ◌≡◌, ◌≢◌, ◌↔◌, refl, subst, ◌⊎◌, inl, inr, String, Bool, true, false, not, ◌&&◌, ◌||◌,
  List, [], ◌∷◌, arith, mem,
}
use acgps_public.Py.Result.{ok}
use acgps_public.Py.Laws.{mem-keep}
use acgps_public.Py.Value.{Value, null, bool, int, text, seq, dict, Dict, get, py_eq}
use acgps_public.Policy.Vocabulary.{rank}
use acgps_public.Policy.Input.{Bundle, Input}
use acgps_public.Policy.Routing.{mapping_at}
use acgps_public.Policy.Evaluate.{PolicyResult, evaluate_normalized, decision, authorize, is_gated}
use acgps_public.Policy.Evaluate.Inversion.{evaluate_normalized-inv}
use acgps_public.Policy.Evaluate.Levels.{profile_never_lowers}

-- The states that a gated task may still go to.
abbrev pub pause_states : List String
pause_states = "WAITING_HUMAN" ∷ "ABANDONED" ∷ []

mem-authorize :
    (gate : Bool) (legal : List String) (s : String)
    → mem s (authorize gate legal) ≡ (mem s legal && (not gate || mem s pause_states))
unfolding authorize
mem-authorize true legal s = mem-keep s (λ state. mem state pause_states) legal
mem-authorize false legal s = ground arith

is_gated_iff :
    (triggers : List String) (level : Value)
    → (is_gated triggers level ≡ true) ↔ ((triggers ≢ []) ⊎ (py_eq level (text "R3") ≡ true))
unfolding is_gated
is_gated_iff [] level = (λ h. inr h, λ h. ground arith)
is_gated_iff (t ∷ ts) level = (λ h. inl (λ e. cc), λ h. refl)

-- A decision that returns is gated exactly when a human trigger is left or its level is R3.
human_gate_iff :
    (input : Input) (bundle : Bundle) {r : PolicyResult}
    → evaluate_normalized input bundle ≡ ok r
    → (r.human_gate ≡ true)
      ↔ ((r.required_human_triggers ≢ []) ⊎ (py_eq r.risk_level (text "R3") ≡ true))
unfolding decision
human_gate_iff input bundle h =
    let (climbed, routed, _, _, same) = evaluate_normalized-inv input bundle h in
    subst
      (λ (q : PolicyResult).
        (q.human_gate ≡ true)
        ↔ ((q.required_human_triggers ≢ []) ⊎ (py_eq q.risk_level (text "R3") ≡ true)))
      same (is_gated_iff routed.human_triggers climbed.level)

-- A state is authorized exactly when it is legal and, behind a human gate, a pause state.
authorized_iff :
    (input : Input) (bundle : Bundle) (s : String) {r : PolicyResult}
    → evaluate_normalized input bundle ≡ ok r
    → mem s r.authorized_transitions
      ≡ (mem s r.legal_transitions && (not r.human_gate || mem s pause_states))
unfolding decision
authorized_iff input bundle s h =
    let (climbed, routed, _, _, same) = evaluate_normalized-inv input bundle h in
    subst
      (λ (q : PolicyResult).
        mem s q.authorized_transitions
        ≡ (mem s q.legal_transitions && (not q.human_gate || mem s pause_states)))
      same (mem-authorize (is_gated routed.human_triggers climbed.level) routed.legal s)

-- R3 is the only level with rank 3.
rank-top : (v : Value) (n : ℕ) → rank v ≡ ok n → 3 ≤ n → py_eq v (text "R3") ≡ true
unfolding rank py_eq
rank-top null n h le = absurd (cc)
rank-top (bool b) n h le = absurd (cc)
rank-top (int k) n h le = absurd (cc)
rank-top (seq vs) n h le = absurd (cc)
rank-top (dict fs) n h le = absurd (cc)
rank-top (text s) n h le = ground arith

-- A task with a trigger that the risk policy puts at R3 can only be paused or abandoned: whatever
-- the project profile says, each state that its decision authorizes is one of these two.
pub critical_trigger_pauses :
    (input : Input) (bundle : Bundle) (global : Dict) (t s : String) {r : PolicyResult}
    → evaluate_normalized input bundle ≡ ok r
    → mapping_at bundle.risk "triggers" ≡ ok global
    → mem t input.risk_triggers ≡ true
    → get global t ≡ text "R3"
    → mem s r.authorized_transitions ≡ true
    → mem s pause_states ≡ true
critical_trigger_pauses input bundle global t s {r} h declared m critical authorized =
    let k : rank (get global t) ≡ ok 3 = rw critical (unfold rank in refl) in
    let above = profile_never_lowers input bundle global t 3 h declared m k in
    let top =
      rank-top r.risk_level above.high above.high_rank
        (level_le above.low above.high k above.low_rank above.le) in
    let gated = (human_gate_iff input bundle h).1 (inr top) in
    ground (arith, authorized_iff input bundle s h)
  where
    level_le : (l u : ℕ) → rank (get global t) ≡ ok 3 → rank (get global t) ≡ ok l → l ≤ u → 3 ≤ u
    level_le l u e e₁ le = ground arith
