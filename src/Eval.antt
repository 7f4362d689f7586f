-- ===== src/Eval.antt =====
-- src/foundry/eval.
pub mod Compare
