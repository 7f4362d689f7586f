-- ===== src/Storage.antt =====
-- src/foundry/storage.
pub mod Retention
