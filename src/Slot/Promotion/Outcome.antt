-- ===== src/Slot/Promotion/Outcome.antt =====
-- The outcome that the sections of a record imply, against the promotion predicates.
use acgps_public.Prelude.{◌≡◌, refl, sym, subst, String, true, false, some, arith, ◌==◌}
use acgps_public.Py.Laws.{eq_of_==}
use acgps_public.Py.Value.{
  pos, Value, null, bool, int, text, seq, dict, Dict, get, py_eq, is_null, number,
}
use acgps_public.Slot.Promotion.{
  is_true, is_false, is_attempt, Sections, launch_ready, process_ready, result_ready,
  promotion_ready, exit_fails, process_failed, expected_outcome,
}

not-text :
    (v : Value) (s t : String)
    → (s == t) ≡ false
    → py_eq v (text s) ≡ true
    → py_eq v (text t) ≡ false
unfolding py_eq
not-text (text u) s t other same = subst (λ q. (q == t) ≡ false) (sym (eq_of_== u s same)) other
not-text null s t other same = refl
not-text (bool b) s t other same = refl
not-text (int n) s t other same = refl
not-text (seq vs) s t other same = refl
not-text (dict fs) s t other same = refl

zero-exit : (v : Value) → py_eq v (int (pos 0)) ≡ true → exit_fails (number v) ≡ false
unfolding py_eq
zero-exit null h = refl
zero-exit (text s) h = refl
zero-exit (bool true) h = ground arith
zero-exit (bool false) h = refl
zero-exit (int n) h = ground arith
zero-exit (seq vs) h = refl
zero-exit (dict fs) h = refl

not-true : (v : Value) → is_false v ≡ true → is_true v ≡ false
not-true (bool false) h = refl
not-true (bool true) h = absurd (ground arith)
not-true null h = refl
not-true (int n) h = refl
not-true (text s) h = refl
not-true (seq vs) h = refl
not-true (dict fs) h = refl

-- A process that is ready for promotion and has an identity has not failed.
process_ready-ok :
    (process : Dict)
    → process_ready process ≡ true
    → is_null (get process "pid") ≡ false
    → process_failed process ≡ false
unfolding process_ready process_failed
process_ready-ok process h pid = ground (
  arith,
  zero-exit (get process "exit_code"),
  not-true (get process "timed_out"),
  not-true (get process "cancelled"),
)

launch_ready-facts :
    (s : Sections)
    → launch_ready s ≡ true
    → (py_eq (get s.prelaunch "state") (text "PASS") ≡ true)
      × (is_attempt (get s.attempt "number") ≡ true)
unfolding launch_ready
launch_ready-facts s h = (ground arith, ground arith)

result_ready-done :
    (s : Sections)
    → result_ready s ≡ true
    → py_eq (get s.agent_result "claimed_status") (text "DONE") ≡ true
unfolding result_ready
result_ready-done s h = ground arith

promotion_ready-parts :
    (s : Sections)
    → promotion_ready s ≡ true
    → (launch_ready s ≡ true) × (process_ready s.process ≡ true) × (result_ready s ≡ true)
unfolding promotion_ready
promotion_ready-parts s h = (ground arith, ground arith, ground arith)

-- When the promotion predicates hold of a record and its process has an identity, the outcome that
-- its sections imply is a ready candidate: none of the earlier outcomes takes its place.
pub promotion_ready-candidate :
    (s : Sections)
    → promotion_ready s ≡ true
    → is_null (get s.process "pid") ≡ false
    → expected_outcome s.prelaunch s.attempt s.process s.agent_result (promotion_ready s)
      ≡ some "CANDIDATE_READY"
unfolding expected_outcome
promotion_ready-candidate s ready pid =
    let (launch, process, result) = promotion_ready-parts s ready in
    let (pass, attempt) = launch_ready-facts s launch in
    let no_hold = not-text (get s.prelaunch "state") "PASS" "HOLD" refl pass in
    let no_failure =
      not-text (get s.agent_result "claimed_status") "DONE" "FAILED" refl
        (result_ready-done s result) in
    let no_fault = process_ready-ok s.process process pid in
    rw (ready, no_hold, attempt, no_failure, no_fault) refl
