-- ===== src/Budget.antt =====
-- driftdriver/actor.py, authority.py, budget_ledger.py and the modifier of quality_signal.py: what an
-- actor may do, and how much of it.
pub mod Actor
pub mod Policy
pub mod Quality
pub mod Ledger
pub mod Check
