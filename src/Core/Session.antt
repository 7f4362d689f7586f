-- ===== src/Core/Session.antt =====
-- The resources of a run: src/foundry/core/session.py, its cancel token, its budget and its store of
-- checkpoints in memory. Dollars are whole numbers of the smallest unit, and the bytes of a
-- checkpoint a text. What waits for a cancellation is left out.
mod Tests
pub mod Budget
use agent_foundry.Prelude.{
  ℕ, ◌+◌, ◌-◌, String, ◌≡◌, Bool, true, false, Option, none, some, List, [], ◌∷◌, if◌then◌else◌,
  ltb, Result, ok, err, ◌>>=◌, eq_string, sorted,
}
use agent_foundry.Prelude.Dict
use agent_foundry.Prelude.Dict.{Dict, keys}

pub record CancelToken : Type 0 where
  pub event : Bool
  pub reason : Option String

unfoldable pub is_cancelled : CancelToken → Bool
is_cancelled t = t.event

unfoldable pub cancel : String → CancelToken → CancelToken
cancel reason t = if t.event then t else record { event = true; reason = some reason }

pub record CostBudget : Type 0 where
  pub max_usd : ℕ
  pub accumulated_usd : ℕ

pub data BudgetError : Type 0 where
  cost_budget_exceeded : ℕ → ℕ → ℕ → BudgetError

-- `check`, with the cap, the spending and the estimate in its error.
unfoldable pub check : ℕ → CostBudget → Result BudgetError (Unit {0})
check estimated_usd b =
    if ltb b.max_usd (b.accumulated_usd + estimated_usd)
    then err (cost_budget_exceeded b.max_usd b.accumulated_usd estimated_usd)
    else ok tt

-- `record`
unfoldable pub record_cost : ℕ → CostBudget → CostBudget
record_cost actual_usd b = record b { accumulated_usd = b.accumulated_usd + actual_usd }

-- The test of a prefix is Python's `startswith`, an argument.
module _ (starts_with : String → String → Bool) where
  unfoldable pub with_prefix : String → List String → List String
  with_prefix prefix [] = []
  with_prefix prefix (k ∷ ks) =
      let rest = with_prefix prefix ks in if starts_with k prefix then k ∷ rest else rest

  unfoldable pub list_keys : String → Dict String String → List String
  list_keys prefix store = sorted (with_prefix prefix (keys store))

-- `NoOpCheckpointer.put` and `get`
unfoldable pub put_checkpoint : String → String → Dict String String → Dict String String
put_checkpoint key value store = Dict.put store key value

unfoldable pub get_checkpoint : String → Dict String String → Option String
get_checkpoint key store = Dict.get store key
