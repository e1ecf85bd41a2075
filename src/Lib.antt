-- ===== src/Lib.antt =====
-- A model of the policy evaluator, the workflow records, the task store, the coding execution gate
-- and the decision queue of ACGPS.
--
-- The evaluator (acgps/policy.py) reads six policy files and the project profiles, validates them,
-- and gives every task a decision: a risk level, a human gate, the required skills and roles, and
-- the state transitions that are legal and authorized. The workflow store (acgps/workflow_store.py)
-- keeps the file of each coding execution gate: a budget of two attempts, the candidate under
-- review, and the records of what was executed. It also keeps the tables of task states and audit
-- events: a commit checks an event and a state (acgps/workflow_contracts.py), compares them with the
-- head of the task's audit trail, and writes both rows in one transaction. The decision queue
-- (acgps/human_decisions.py) keeps the requests that a human gate makes and their resolutions. The
-- evaluator keeps no state; the store's operations read the gate's file, check it, and write it back
-- under a lock.
--
-- The files:
-- - Prelude: library names and Boolean tests that all modules share.
-- - Py: the Python the code is written in. Py/Value has the values that YAML and JSON give (`None`,
--   booleans, integers, texts, lists, mappings) with `==` and `dict.get`; Py/Result the calls that
--   return or raise; Py/Text f-strings, `sorted`, `set`, `split`; Py/Laws lemmas on these.
-- - Policy/Error, Policy/Vocabulary: PolicyEvaluationError, POLICY_ERROR_CODES
--   (acgps/policy_errors.py), and the identifier sets of acgps/contracts.py and acgps/policy.py.
-- - Policy/Fields: the helpers `_require_exact_fields`, `_require_string_list`, `_duplicate_item`
--   and their like. Policy/Fields/Exact and Policy/Fields/Lists say what they accept.
-- - Policy/Schema and its children Workflow, Risk, Human, Skills, Models, Routing: one
--   `_validate_*_policy` each, `_validate_policy_schemas` and `_validate_cross_file_references`.
--   Policy/Schema/Workflow/Table and Policy/Schema/Risk/Rules say what accepted policies are.
-- - Policy/Profile: `_validate_project_profile`, `_load_project_profiles`, `_is_safe_relative_path`,
--   with Policy/Profile/Downgrade and Policy/Profile/Paths.
-- - Policy/Input: PolicyBundle, `_normalize_input`, `_prevalidate_input`.
-- - Policy/Load: `load_policy_bundle`, over what the files hold.
-- - Policy/Routing: `_derive_routing_features`, `_derive_required_skills`, `_derive_model_roles`,
--   `_canonical_order`, `_canonical_provenance`.
-- - Policy/Climb: the loop of `_evaluate_normalized` over the risk triggers; Policy/Evaluate the rest
--   of `_evaluate_normalized` in the stages `assess_risk`, `route_task` and `decision`, with
--   Policy/Evaluate/Inversion, Levels, Gates, Rules, Skills and Legal.
-- - Policy/Public: `evaluate_policy`, the contract of results and the envelope of public records, with
--   Policy/Public/Closed.
-- - Slot/State, Slot/Validate: the file of a gate and `_validate_coding_execution_state`.
-- - Slot/Operations, Slot/Publish: `initialize_coding_execution_slot`,
--   `read_coding_execution_record`, `reserve_coding_execution_attempt`,
--   `retire_coding_execution_candidate_for_remediation` and `publish_coding_execution_record`.
--   Slot/Records, Slot/Valid, Slot/Budget, Slot/Budget/Runs, Slot/Budget/Records and
--   Slot/Publish/Again hold what is proved of them; sequences of operations are the relation `Run` of
--   Slot/Budget/Runs.
-- - Slot/Promotion: `_coding_promotion_ready` and `_coding_expected_outcome` of acgps/contracts.py,
--   with Slot/Promotion/Outcome.
-- - Decisions: `DecisionQueue` of acgps/human_decisions.py, the files of requests and resolutions by
--   name; Decisions/Once, Decisions/Resolved and Decisions/Waiting hold what is proved of it.
-- - Engine: `_required_transition_actor` and `_gate_evidence_kind` of acgps/workflow_engine.py, with
--   Engine/Actors.
-- - Workflow/Outcome: outcomes and the helpers `_require_*`, `_validate_utc`, `_validate_exact_mapping`
--   of acgps/workflow_contracts.py, and `Outside`, what they use of other code; Workflow/Vocabulary
--   its vocabularies and field sets. A `for check in (...)` of the source is `first_of` over a list.
-- - Workflow/Binding with PolicyResult and Decision: evidence, policy and decision bindings;
--   Workflow/Request, Workflow/Result, Workflow/TaskState, Workflow/Generation: the check of a
--   request, a result, a task state, the start of a generation; Workflow/AuditEvent and
--   Workflow/EventFields the check of an event, and Workflow/Catalog the rules of
--   config/wp3_task1_invariants.yaml for it. Workflow/Transaction and Workflow/Plan are the check of
--   a transaction, `validate_transition_transaction`, and Workflow/Graph the rules of the catalog for
--   it. Workflow/Passed and Workflow/Exact say what single checks accept; Workflow/Request/Authorized,
--   Workflow/TaskState/Shape and Scalars, Workflow/AuditEvent/Shape and Content the whole ones.
-- - Tasks/Json: `_sqlite_json_text`, `_loads_json_mapping`, `_json_nesting_depth`, with
--   Tasks/Json/Nesting on bracketed texts. Tasks/Tables: the tables and the SQL statements on them.
--   Tasks/PairCheck: `_validate_state_event_pair`. Tasks/Commit: `commit_task_state_and_audit`,
--   `append_audit_event`, `write_task_state`; Tasks/Read the reads; Tasks/Walk and Tasks/Lineage
--   `has_committed_decision_resolution`.
-- - Tasks/Pair, Tasks/Accepted and Tasks/Written: what a commit that returns went through.
--   Tasks/Trail: the trail of a task as an indexed data type and sequences of commits as the relation
--   `Run`, with its children Head, Kept, Consistent, Appended, History and Refinement. Tasks/ReadBack,
--   Tasks/Bounds and Tasks/Lineage/Ends are on reading back, on the size of the texts and on the end
--   of the walk. Tasks/Planned is on the commit that an accepted transaction plans, with
--   Tasks/PlannedParts, Tasks/Evaluation and Tasks/Takes on the single checks.
-- - Workflow/Tests, Tasks/Tests, Tasks/PlannedTests, Tasks/Json/Tests, Policy/Tests and its children,
--   Slot/Tests, Decisions/Tests and Engine/Tests apply the theorems to small policies, gates and queues; the
--   records that they share are in Workflow/Examples and Workflow/Planned.
--
-- Bounds and choices. Every loop is a recursion on its list, but for two on fuel: Py/Text `show` gives a
-- number one unit more than it has digits, and the walk of Tasks/Lineage gets one unit for each
-- generation of the task and one more, enough since the predecessor of a generation is lower.
-- Mapping keys are texts; floats and dates are not among the values. Integers are unbounded, as in Python. A Python exception that the code does not
-- raise itself is a constructor of `Exn`, and the evaluator runs on mappings of the shape that the
-- loader validates: where a mapping is asked for and something else stands there, the model raises.
-- The set INPUT_FIELDS and the field sets of the records are walked in an order that is a parameter.
--
-- Not modelled. Reading and writing files, YAML and JSON, digests, locks and processes: what a file
-- holds is an argument, and each operation of a gate is one step, since it runs under the gate's lock.
-- `validate_contract` and the tests by `re.fullmatch` on timestamps are parameters of the model
-- (`Environment`, `Checks`, `Formats`, `Outside`). The json module and a TEXT column are the parameter
-- `Json`, with what `RoundTrip` says of them, and the catalog that `_load_task1_invariants` loads is
-- a parameter of the checks on events and transactions. The files that the store exports next to its
-- tables, task locks, the authority marker, idempotency records, and the recovery records, journal
-- entries and catalog checks of acgps/workflow_contracts.py are not modelled, nor are the rest of the
-- workflow engine, the command line and the adapters.
mod Prelude
pub mod Py
pub mod Policy
pub mod Slot
pub mod Decisions
pub mod Engine
pub mod Workflow
pub mod Tasks
