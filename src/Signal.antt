-- ===== src/Signal.antt =====
-- The gate that keeps a model from being called twice on the same input: driftdriver/signal_gate.py.
pub mod Hash
pub mod Gate
pub mod Agent
pub mod Changes
pub mod Recorded
