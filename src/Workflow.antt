-- ===== src/Workflow.antt =====
-- The workflow records of acgps/workflow_contracts.py: the checks that every request, binding,
-- audit event, task state and result passes before the store or the engine uses it.
pub mod EventFields
pub mod AuditEvent
pub mod Binding
pub mod Catalog
pub mod Graph
pub mod Transaction
pub mod Plan
pub mod Outcome
pub mod Request
pub mod Result
pub mod TaskState
pub mod Generation
pub mod Vocabulary
pub mod Passed
pub mod Exact
pub mod Examples
pub mod Planned
mod Tests
