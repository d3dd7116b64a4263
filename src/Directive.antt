-- ===== src/Directive.antt =====
-- driftdriver/directives.py, directive_schemas.py and executor_shim.py: the directives by which every
-- effect on the workgraph passes.
pub mod Action
pub mod Schema
pub mod Log
pub mod Command
pub mod Shim
pub mod Lease
pub mod Lifecycle
pub mod Valid
pub mod Buildable
pub mod Runs
