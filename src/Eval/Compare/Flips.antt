-- ===== src/Eval/Compare/Flips.antt =====
-- How the flips of a comparison of src/foundry/eval/compare.py balance.
use agent_foundry.Prelude.{
  ℕ, suc, ◌+◌, String, ◌≡◌, refl, Bool, true, false, List, [], ◌∷◌, ◌++◌, if◌then◌else◌, ok, arith,
  ap, sym, subst, ◌∙◌, append-nil, append_assoc, eq_string, contains,
}
use agent_foundry.Prelude.Dict
use agent_foundry.Prelude.Dict.{Dict}
use agent_foundry.Eval.Compare.Cases.{compare_runs-compared, in_runs, contains-all_ids}
use agent_foundry.Eval.Compare.{
  CaseResult, EvalRunResult, CaseDelta, EvalComparison, direction, per_run, passes, last_run, Tally,
  counted, tally_cases, compared, compare_runs, all_ids, ids_of, differ, scores_of, score_or_zero,
}

module _ {Score : Type 0} where
  abbrev pub delta_ids : List (CaseDelta Score) → List String
  delta_ids [] = []
  delta_ids (d ∷ ds) = d.case_id ∷ delta_ids ds

  -- How many of the cases pass in a run.
  unfoldable pub count_passed : Dict String (CaseResult Score) → List String → ℕ
  count_passed cases [] = 0
  count_passed cases (i ∷ ids) =
      let n = count_passed cases ids in if passes (Dict.get cases i) then suc n else n

  delta_ids-append :
      (ds : List (CaseDelta Score)) (d : CaseDelta Score)
      → delta_ids (ds ++ d ∷ []) ≡ delta_ids ds ++ d.case_id ∷ []
  delta_ids-append [] d = refl
  delta_ids-append (e ∷ ds) d = ap (λ is. e.case_id ∷ is) (delta_ids-append ds d)

module _ {Score : Type 0} (zero_score : Score) (minus : Score → Score → Score) where
  counted_lem :
      (a b : Bool) (d : CaseDelta Score) (t : Tally Score)
      → let t' = counted zero_score minus (direction a b) d t in
        (t'.regressions
          ≡ (if a then (if b then t.regressions else t.regressions + 1) else t.regressions))
        × (t'.fixes ≡ (if a then t.fixes else (if b then t.fixes + 1 else t.fixes)))
        × (delta_ids t'.deltas ≡ delta_ids t.deltas ++ d.case_id ∷ [])
  unfolding counted direction
  counted_lem true true d t = (refl, refl, delta_ids-append t.deltas d)
  counted_lem true false d t = (refl, refl, delta_ids-append t.deltas d)
  counted_lem false true d t = (refl, refl, delta_ids-append t.deltas d)
  counted_lem false false d t = (refl, refl, delta_ids-append t.deltas d)

  tally_cases-ids :
      (first last : EvalRunResult Score) (runs : List (EvalRunResult Score)) (ids : List String)
      (t : Tally Score)
      → delta_ids (tally_cases zero_score minus first last runs ids t).deltas
        ≡ delta_ids t.deltas ++ ids
  unfolding tally_cases
  tally_cases-ids first last runs [] t = sym (append-nil (delta_ids t.deltas))
  tally_cases-ids first last runs (i ∷ ids) t =
      let a = Dict.get (per_run first) i in
      let b = Dict.get (per_run last) i in
      let d : CaseDelta Score = record {
        case_id = i;
        scores = scores_of zero_score minus i runs;
        delta = minus (score_or_zero zero_score minus b) (score_or_zero zero_score minus a);
        flipped = differ (passes a) (passes b);
        flip_direction = direction (passes a) (passes b);
      } in
      let t' = counted zero_score minus (direction (passes a) (passes b)) d t in
      tally_cases-ids first last runs ids t'
      ∙ (ap (λ is. is ++ ids) (counted_lem (passes a) (passes b) d t).2
          ∙ append_assoc (delta_ids t.deltas) (i ∷ []) ids)

  tally_cases-balance :
      (first last : EvalRunResult Score) (runs : List (EvalRunResult Score)) (ids : List String)
      (t : Tally Score)
      → let t' = tally_cases zero_score minus first last runs ids t in
        count_passed (per_run last) ids + (t'.regressions + t.fixes)
        ≡ count_passed (per_run first) ids + (t'.fixes + t.regressions)
  unfolding tally_cases count_passed
  tally_cases-balance first last runs [] t = omega arith
  tally_cases-balance first last runs (i ∷ ids) t =
      let a = Dict.get (per_run first) i in
      let b = Dict.get (per_run last) i in
      let d : CaseDelta Score = record {
        case_id = i;
        scores = scores_of zero_score minus i runs;
        delta = minus (score_or_zero zero_score minus b) (score_or_zero zero_score minus a);
        flipped = differ (passes a) (passes b);
        flip_direction = direction (passes a) (passes b);
      } in
      let t' = counted zero_score minus (direction (passes a) (passes b)) d t in
      ground
        (arith, tally_cases-balance first last runs ids t', counted_lem (passes a) (passes b) d t)

  -- In a comparison of some runs: the cases that pass in the last run and the regressions are together
  -- as many as the cases that pass in the first run and the fixes.
  pub compare_runs-balance :
      (first : EvalRunResult Score) (rest : List (EvalRunResult Score)) (labels : List String)
      (c : EvalComparison Score)
      → compare_runs zero_score minus (first ∷ rest) labels ≡ ok c
      → count_passed (per_run (last_run first rest)) (delta_ids c.deltas) + c.summary.regressions
        ≡ count_passed (per_run first) (delta_ids c.deltas) + c.summary.fixes
  unfolding compared
  compare_runs-balance first rest labels c h =
      let last = last_run first rest in
      let ids = all_ids rest (ids_of first.per_case) in
      let t : Tally Score = record { deltas = []; regressions = 0; fixes = 0 } in
      let (label, labels', same) = compare_runs-compared zero_score minus first rest labels c h in
      let b = tally_cases-balance first last (first ∷ rest) ids t in
      let i = tally_cases-ids first last (first ∷ rest) ids t in
      subst
        (λ (x : EvalComparison Score).
          count_passed (per_run last) (delta_ids x.deltas) + x.summary.regressions
          ≡ count_passed (per_run first) (delta_ids x.deltas) + x.summary.fixes)
        (sym same) (ground (arith, b, i))

  -- A comparison has a case exactly where one of its runs has.
  pub compare_runs-covers :
      (first : EvalRunResult Score) (rest : List (EvalRunResult Score)) (labels : List String)
      (c : EvalComparison Score) (case : String)
      → compare_runs zero_score minus (first ∷ rest) labels ≡ ok c
      → contains case (delta_ids c.deltas) ≡ in_runs case (first ∷ rest)
  unfolding compared
  compare_runs-covers first rest labels c case h =
      let last = last_run first rest in
      let ids = all_ids rest (ids_of first.per_case) in
      let t : Tally Score = record { deltas = []; regressions = 0; fixes = 0 } in
      let (label, labels', same) = compare_runs-compared zero_score minus first rest labels c h in
      let i = tally_cases-ids first last (first ∷ rest) ids t in
      subst
        (λ (x : EvalComparison Score).
          contains case (delta_ids x.deltas) ≡ in_runs case (first ∷ rest))
        (sym same) (ground (arith, i, contains-all_ids case rest (ids_of first.per_case)))
