-- ===== src/Flow.antt =====
-- features/flow/runner.py: the full ingest and its helpers.
pub mod Calls
pub mod Repo
