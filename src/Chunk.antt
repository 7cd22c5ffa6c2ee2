-- ===== src/Chunk.antt =====
-- features/chunk: the splitting of files into chunks.
pub mod Split
pub mod Embed
