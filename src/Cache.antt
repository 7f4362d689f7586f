-- ===== src/Cache.antt =====
-- src/foundry/cache.
pub mod ToolResult
