-- ===== src/Versioning.antt =====
-- src/foundry/versioning.
pub mod Compat
pub mod Pins
