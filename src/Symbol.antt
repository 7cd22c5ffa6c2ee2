-- ===== src/Symbol.antt =====
-- features/symbol: the walk over the source files.
pub mod Walk
pub mod Calls
pub mod Summarise
