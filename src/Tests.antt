-- ===== src/Tests.antt =====
-- The theorems of the library at concrete inputs, and the definitions run on them.
mod Scheduler
mod Delta
mod Memory
mod Parts
mod Symbol
mod Query
mod Outside
mod Summaries
mod Lsp
mod Reports
