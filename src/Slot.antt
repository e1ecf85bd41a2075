-- ===== src/Slot.antt =====
-- The coding-execution slot of acgps/workflow_store.py: one gate's state file, its validation and
-- the operations on it. Each operation runs under the gate's lock, so operations are atomic here.
mod Tests
pub mod State
pub mod Validate
pub mod Operations
pub mod Records
pub mod Valid
pub mod Budget
pub mod Publish
pub mod Promotion
