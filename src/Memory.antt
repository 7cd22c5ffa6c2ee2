-- ===== src/Memory.antt =====
-- features/memory/: the facts that agents record.
pub mod Decay
pub mod Store
pub mod Digest
