-- ===== src/Eval/Compare/Tests.antt =====
-- A comparison of two runs, with whole numbers for the scores.
use agent_foundry.Prelude.{
  ℕ, ◌+◌, ◌-◌, ◌≡◌, refl, true, false, none, [], ◌∷◌, ok, sorted, difference, eq_string,
}
use agent_foundry.Prelude.Dict
use agent_foundry.Eval.Compare.{
  EvalRunResult, EvalComparison, compare_runs, compared, tally_cases, counted, direction, scores_of,
  case_map, all_ids, extend_ids, per_run,
}
use agent_foundry.Eval.Compare.Flips.{delta_ids, count_passed, compare_runs-balance}

abbrev before : EvalRunResult ℕ
before = record {
  eval_spec_hash = "s";
  per_case =
      record { case_id = "a"; score = 9; passed = true }
      ∷ record { case_id = "b"; score = 2; passed = false }
      ∷ [];
  score = 5;
  cost_total_usd = none;
  per_agent = [];
}

abbrev after : EvalRunResult ℕ
after = record {
  eval_spec_hash = "s";
  per_case =
      record { case_id = "b"; score = 8; passed = true }
      ∷ record { case_id = "c"; score = 9; passed = true }
      ∷ [];
  score = 8;
  cost_total_usd = none;
  per_agent = [];
}

abbrev minus : ℕ → ℕ → ℕ
minus a b = a - b

abbrev comparison : EvalComparison ℕ
comparison = compared 0 minus before (after ∷ []) "old" ("new" ∷ [])

compares : compare_runs 0 minus (before ∷ after ∷ []) ("old" ∷ "new" ∷ []) ≡ ok comparison
unfolding compare_runs sorted difference
compares = refl

one_regression : comparison.summary.regressions ≡ 1
unfolding compared tally_cases counted direction case_map all_ids extend_ids Dict.get Dict.put
    scores_of
one_regression = refl

compare_runs-balance_example :
    count_passed (per_run after) (delta_ids comparison.deltas) + comparison.summary.regressions
    ≡ count_passed (per_run before) (delta_ids comparison.deltas) + comparison.summary.fixes
compare_runs-balance_example =
    compare_runs-balance 0 minus before (after ∷ []) ("old" ∷ "new" ∷ []) comparison compares
