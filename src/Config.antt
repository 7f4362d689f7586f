-- ===== src/Config.antt =====
-- src/foundry/config.
pub mod Composition
pub mod Refs
