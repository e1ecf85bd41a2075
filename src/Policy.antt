-- ===== src/Policy.antt =====
-- acgps/policy.py: the schema of the policy files, project profiles, and the evaluator.
mod Tests
pub mod Error
pub mod Vocabulary
pub mod Fields
pub mod Schema
pub mod Profile
pub mod Input
pub mod Routing
pub mod Climb
pub mod Evaluate
pub mod Public
pub mod Load
