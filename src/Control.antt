-- ===== src/Control.antt =====
-- driftdriver/speedriftd_state.py: the control state of a repository and its dispatch lease.
pub mod State
pub mod Normalize
pub mod Authority
pub mod Write
pub mod Rules
pub mod Renew
pub mod Lease
pub mod Gate
pub mod Total
pub mod Release
