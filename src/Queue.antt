-- ===== src/Queue.antt =====
-- The queue of decisions that wait for a human: driftdriver/decision_queue.py.
pub mod Record
pub mod Store
pub mod Spec
pub mod Refine
pub mod Kept
pub mod Drained
pub mod Command
