-- ===== src/Retrieval/Hybrid/Floats.antt =====
-- What the merge of src/foundry/retrieval/hybrid.py uses of Python's floats: 0.0, a sum, the
-- reciprocal 1.0 / n, and the order.
use agent_foundry.Prelude.{ℕ, Bool}

pub record Scores : Type 1 where
  pub Score : Type 0
  pub zero_score : Score
  pub plus : Score → Score → Score
  pub reciprocal : ℕ → Score
  pub below : Score → Score → Bool
