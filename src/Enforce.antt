-- ===== src/Enforce.antt =====
-- The verdict on the findings of a drift check: driftdriver/policy_enforcement.py.
pub mod Findings
pub mod Evaluate
pub mod Judged
