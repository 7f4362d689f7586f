-- ===== src/Retrieval.antt =====
-- foundry/retrieval: hybrid retrieval.
pub mod Hybrid
