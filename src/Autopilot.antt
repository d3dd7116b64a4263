-- ===== src/Autopilot.antt =====
-- driftdriver/project_autopilot.py and driftdriver/worker_monitor.py: the loop that dispatches ready tasks
-- to workers and peers, checks them for drift, and goes on until nothing is ready.
pub mod Text
pub mod State
pub mod Tasks
pub mod Talk
pub mod Drift
pub mod Health
pub mod Dispatch
pub mod Peers
pub mod Loop
pub mod Dispatched
pub mod Batch
pub mod Walk
pub mod Ids
pub mod Sent
pub mod Still
pub mod Turn
pub mod Phase
pub mod Turns
pub mod Start
pub mod Ends
pub mod Once
pub mod License
pub mod Launch
pub mod Guarded
pub mod Unheld
pub mod Endless
pub mod Command
