-- ===== src/Loop.antt =====
-- The detection of an agent that repeats itself: driftdriver/loop_detection.py.
pub mod Detect
pub mod Table
pub mod Common
