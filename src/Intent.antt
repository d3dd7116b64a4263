-- ===== src/Intent.antt =====
-- The continuation intent in control.json: driftdriver/continuation_intent.py.
pub mod Store
pub mod Kept
