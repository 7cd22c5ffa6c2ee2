-- ===== src/Lsp.antt =====
-- features/lsp: calls resolved by language servers.
pub mod Client
pub mod Adapters
pub mod Index
pub mod Resolver
