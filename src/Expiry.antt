-- ===== src/Expiry.antt =====
-- driftdriver/speedriftd_state.py and driftdriver/speedriftd.py: the stop of the coordinator at the
-- end of a lease.
pub mod Decision
pub mod Record
pub mod Service
pub mod Handle
pub mod Effect
pub mod Once
pub mod Again
pub mod Cycle
pub mod Cycles
