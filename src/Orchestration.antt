-- ===== src/Orchestration.antt =====
-- src/foundry/orchestration.
pub mod StateScope
pub mod Predicates
pub mod Graph
pub mod Patterns
