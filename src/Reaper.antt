-- ===== src/Reaper.antt =====
-- The reaper of stale workers: driftdriver/reaper.py.
pub mod Elapsed
pub mod Process
pub mod Reap
pub mod Spared
pub mod Status
