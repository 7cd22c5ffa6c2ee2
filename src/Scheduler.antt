-- ===== src/Scheduler.antt =====
-- features/scheduler/runner.py, part by part.
pub mod Config
pub mod Timeout
pub mod Fetch
pub mod Lock
pub mod Tick
pub mod Loop
