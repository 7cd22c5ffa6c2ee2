-- ===== src/Symbol/Summarise.antt =====
-- features/symbol/summarise.py: which symbols are summarised, and the run of the model over them.
pub mod Candidates
pub mod Answer
pub mod Run
