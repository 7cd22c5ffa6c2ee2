-- ===== src/Delta.antt =====
-- features/delta/extract.py: which files changed, and the incremental ingest of those.
pub mod Hashes
pub mod GitDiff
pub mod Detect
pub mod Ingest
