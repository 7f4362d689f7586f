-- ===== src/Core.antt =====
-- foundry/core: the dispatch of tool calls, the keys of the tool-result cache, a run's resources.
pub mod Cache
pub mod Tool
pub mod Session
