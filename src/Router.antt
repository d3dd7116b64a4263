-- ===== src/Router.antt =====
-- driftdriver/task_router.py and driftdriver/manual_owner.py: which tasks are ready, which executor takes
-- a task, the claim and the dispatch under the lease, and the check of completions.
pub mod Match
pub mod Choice
pub mod Act
pub mod Ready
pub mod Schedule
pub mod Dispatch
pub mod Loop
pub mod License
pub mod Post
pub mod Guarded
pub mod Picks
pub mod Evidence
pub mod Completion
pub mod Vouched
pub mod Config
pub mod Ecosystem
