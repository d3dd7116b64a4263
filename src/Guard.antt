-- ===== src/Guard.antt =====
-- driftdriver/drift_task_guard.py: the one path by which lanes create follow-up tasks.
pub mod Tasks
pub mod Findings
pub mod Outcome
pub mod Add
pub mod Created
pub mod Rate
pub mod Refused
pub mod Repeated
pub mod Tallied
pub mod Rows
pub mod Taken
pub mod Threshold
