-- ===== src/Core/Session/Tests.antt =====
-- A budget at concrete inputs.
use agent_foundry.Prelude.{◌≡◌, refl, ok, err}
use agent_foundry.Core.Session.{CostBudget, check, cost_budget_exceeded}

abbrev budget : CostBudget
budget = record { max_usd = 100; accumulated_usd = 90 }

at_the_cap : check 10 budget ≡ ok tt
unfolding check
at_the_cap = refl

above_the_cap : check 11 budget ≡ err (cost_budget_exceeded 100 90 11)
unfolding check
above_the_cap = refl
