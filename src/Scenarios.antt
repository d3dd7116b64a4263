-- ===== src/Scenarios.antt =====
-- Concrete runs of the modelled code.
mod Autopilot
pub mod Toy
pub mod Leases
mod Stops
mod Verdicts
mod Workers
mod Directives
mod Desk
mod Findings
mod Routing
