-- ===== src/Tasks.antt =====
-- The tables task_states and audit_events of acgps/workflow_store.py and the operations of
-- `WorkflowStore` that read and write them.
pub mod Json
pub mod Tables
pub mod PairCheck
pub mod Commit
pub mod Read
pub mod Walk
pub mod Lineage
pub mod Bounds
pub mod ReadBack
pub mod Pair
pub mod Accepted
pub mod Takes
pub mod Evaluation
pub mod PlannedParts
pub mod Planned
pub mod Trail
mod Tests
mod PlannedTests
pub mod Written
