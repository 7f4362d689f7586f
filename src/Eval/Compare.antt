-- ===== src/Eval/Compare.antt =====
-- src/foundry/eval/compare.py: `compare_runs`, which compares runs of one eval spec case by case. Of
-- a run the model has what the comparison reads. Scores are the program's floats, and only their zero
-- and their difference are used: both are arguments. Costs are texts.
mod Tests
pub mod Flips
pub mod Cases
use agent_foundry.Prelude.{
  ℕ, suc, ◌+◌, String, ◌≡◌, Bool, true, false, ◌&&◌, ◌||◌, not, Option, none, some, List, [], ◌∷◌,
  ◌++◌, if◌then◌else◌, Result, ok, err, length, nat_beq, eq_string, ◌==◌, contains, sorted,
  difference,
}
use agent_foundry.Prelude.Dict
use agent_foundry.Prelude.Dict.{Dict, keys}

pub record CaseResult (Score : Type 0) : Type 0 where
  pub case_id : String
  pub score : Score
  pub passed : Bool

pub record EvalRunResult (Score : Type 0) : Type 0 where
  pub eval_spec_hash : String
  pub per_case : List (CaseResult Score)
  pub score : Score
  pub cost_total_usd : Option String
  pub per_agent : Dict String Score

pub data FlipDirection : Type 0 where
  regression fix : FlipDirection

pub record CaseDelta (Score : Type 0) : Type 0 where
  pub case_id : String
  pub scores : List Score
  pub delta : Score
  pub flipped : Bool
  pub flip_direction : Option FlipDirection

pub record ComparisonSummary (Score : Type 0) : Type 0 where
  pub label_a : String
  pub label_b : String
  pub score_a : Score
  pub score_b : Score
  pub delta : Score
  pub regressions : ℕ
  pub fixes : ℕ
  pub cost_a_usd : Option String
  pub cost_b_usd : Option String
  pub per_agent : Dict String (List Score)

pub record EvalComparison (Score : Type 0) : Type 0 where
  pub eval_spec_hash : String
  pub labels : List String
  pub runs : List (EvalRunResult Score)
  pub deltas : List (CaseDelta Score)
  pub summary : ComparisonSummary Score

pub data CompareError : Type 0 where
  too_few : ℕ → List String → CompareError
  different_specs : List String → CompareError

-- `first_pass != last_pass`
abbrev pub differ : Bool → Bool → Bool
differ true b = not b
differ false b = b

unfoldable pub direction : Bool → Bool → Option FlipDirection
direction first_pass last_pass =
    if differ first_pass last_pass then some (if first_pass then regression else fix) else none

module _ {Score : Type 0} where
  -- `{c.case_id: c for c in run.per_case}`: of two cases of one id the later one counts.
  unfoldable pub case_map :
      List (CaseResult Score) → Dict String (CaseResult Score) → Dict String (CaseResult Score)
  case_map [] d = d
  case_map (c ∷ cs) d = case_map cs (Dict.put d c.case_id c)

  abbrev pub per_run : EvalRunResult Score → Dict String (CaseResult Score)
  per_run run = case_map run.per_case []

  abbrev pub ids_of : List (CaseResult Score) → List String
  ids_of [] = []
  ids_of (c ∷ cs) = c.case_id ∷ ids_of cs

  -- `case_ids.extend(…)`, which looks at the list while it grows.
  unfoldable pub extend_ids : List (CaseResult Score) → List String → List String
  extend_ids [] known = known
  extend_ids (c ∷ cs) known =
      extend_ids cs (if contains c.case_id known then known else known ++ c.case_id ∷ [])

  unfoldable pub all_ids : List (EvalRunResult Score) → List String → List String
  all_ids [] known = known
  all_ids (run ∷ runs) known = all_ids runs (extend_ids run.per_case known)

  abbrev pub passes : Option (CaseResult Score) → Bool
  passes none = false
  passes (some c) = c.passed

  abbrev pub last_run : EvalRunResult Score → List (EvalRunResult Score) → EvalRunResult Score
  last_run run [] = run
  last_run run (next ∷ runs) = last_run next runs

  abbrev pub agent_names : Dict String Score → List String → List String
  agent_names [] known = known
  agent_names ((name, s) ∷ rest) known =
      agent_names rest (if contains name known then known else known ++ name ∷ [])

  abbrev pub all_agents : List (EvalRunResult Score) → List String → List String
  all_agents [] known = known
  all_agents (run ∷ runs) known = all_agents runs (agent_names run.per_agent known)

  abbrev pub hashes : List (EvalRunResult Score) → List String
  hashes [] = []
  hashes (run ∷ runs) = run.eval_spec_hash ∷ hashes runs

abbrev pub last_label : String → List String → String
last_label a [] = a
last_label a (b ∷ labels) = last_label b labels

-- What the loop over the cases has made so far.
pub record Tally (Score : Type 0) : Type 0 where
  pub deltas : List (CaseDelta Score)
  pub regressions : ℕ
  pub fixes : ℕ

module _ {Score : Type 0} (zero_score : Score) (minus : Score → Score → Score) where
  abbrev pub score_or_zero : Option (CaseResult Score) → Score
  score_or_zero none = zero_score
  score_or_zero (some c) = c.score

  unfoldable pub scores_of : String → List (EvalRunResult Score) → List Score
  scores_of i [] = []
  scores_of i (run ∷ runs) = score_or_zero (Dict.get (per_run run) i) ∷ scores_of i runs

  unfoldable pub counted : Option FlipDirection → CaseDelta Score → Tally Score → Tally Score
  counted none d t = record t { deltas = t.deltas ++ d ∷ [] }
  counted (some regression) d t = record t {
    deltas = t.deltas ++ d ∷ [];
    regressions = t.regressions + 1;
  }
  counted (some fix) d t = record t { deltas = t.deltas ++ d ∷ []; fixes = t.fixes + 1 }

  -- The loop over the cases, for the first and the last run.
  unfoldable pub tally_cases :
      EvalRunResult Score
      → EvalRunResult Score
      → List (EvalRunResult Score)
      → List String
      → Tally Score
      → Tally Score
  tally_cases first last runs [] t = t
  tally_cases first last runs (i ∷ ids) t =
      let a = Dict.get (per_run first) i in
      let b = Dict.get (per_run last) i in
      let flip = direction (passes a) (passes b) in
      let d : CaseDelta Score = record {
        case_id = i;
        scores = scores_of i runs;
        delta = minus (score_or_zero b) (score_or_zero a);
        flipped = differ (passes a) (passes b);
        flip_direction = flip;
      } in
      tally_cases first last runs ids (counted flip d t)

  abbrev pub agent_scores : String → List (EvalRunResult Score) → List Score
  agent_scores name [] = []
  agent_scores name (run ∷ runs) =
      elim (Dict.get run.per_agent name) [ none ↦ zero_score | some s ↦ s ] ∷ agent_scores name runs

  abbrev pub per_agent_scores : List String → List (EvalRunResult Score) → Dict String (List Score)
  per_agent_scores [] runs = []
  per_agent_scores (name ∷ names) runs =
      (name, agent_scores name runs) ∷ per_agent_scores names runs

  -- The comparison of a first run with more.
  unfoldable pub compared :
      EvalRunResult Score → List (EvalRunResult Score) → String → List String → EvalComparison Score
  compared first rest label labels =
      let last = last_run first rest in
      let t =
        tally_cases first last (first ∷ rest) (all_ids rest (ids_of first.per_case))
          (record { deltas = []; regressions = 0; fixes = 0 }) in
      record {
        eval_spec_hash = first.eval_spec_hash;
        labels = label ∷ labels;
        runs = first ∷ rest;
        deltas = t.deltas;
        summary = record {
          label_a = label;
          label_b = last_label label labels;
          score_a = first.score;
          score_b = last.score;
          delta = minus last.score first.score;
          regressions = t.regressions;
          fixes = t.fixes;
          cost_a_usd = first.cost_total_usd;
          cost_b_usd = last.cost_total_usd;
          per_agent = per_agent_scores (all_agents (first ∷ rest) []) (first ∷ rest);
        };
      }

  unfoldable pub compare_runs :
      List (EvalRunResult Score) → List String → Result CompareError (EvalComparison Score)
  compare_runs (first ∷ next ∷ rest) (label ∷ labels) =
      if not (nat_beq (suc (length rest)) (length labels))
      then err (too_few (length rest + 2) (label ∷ labels))
      else elim (sorted (difference (hashes (first ∷ next ∷ rest)) [])) [
        | h ∷ h' ∷ hs ↦ err (different_specs (h ∷ h' ∷ hs))
        | _ ↦ ok (compared first (next ∷ rest) label labels)
      ]
  compare_runs runs labels = err (too_few (length runs) labels)
