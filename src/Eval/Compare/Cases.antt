-- ===== src/Eval/Compare/Cases.antt =====
-- Which runs and cases a comparison of src/foundry/eval/compare.py is about.
use agent_foundry.Prelude.{
  String, ◌≡◌, ◌⊎◌, inl, inr, refl, Bool, true, false, ◌||◌, List, [], ◌∷◌, ◌++◌, ok, arith,
  eq_string, ==_iff, ==-refl, contains, contains-append, contains-sorted, contains-difference,
  sorted, difference,
}
use agent_foundry.Eval.Compare.{
  CaseResult, EvalRunResult, EvalComparison, extend_ids, all_ids, ids_of, hashes, compared,
  compare_runs,
}

module _ {Score : Type 0} where
  abbrev pub in_runs : String → List (EvalRunResult Score) → Bool
  in_runs i [] = false
  in_runs i (run ∷ runs) = contains i (ids_of run.per_case) || in_runs i runs

  contains-extend_ids :
      (i : String) (cs : List (CaseResult Score)) (known : List String)
      → contains i (extend_ids cs known) ≡ (contains i known || contains i (ids_of cs))
  unfolding extend_ids
  contains-extend_ids i [] known = ground arith
  contains-extend_ids i (c ∷ cs) known = ground (
    arith,
    contains-extend_ids i cs known,
    contains-extend_ids i cs (known ++ c.case_id ∷ []),
    contains-append i known (c.case_id ∷ []),
    ==_iff c.case_id i,
  )

  pub contains-all_ids :
      (i : String) (runs : List (EvalRunResult Score)) (known : List String)
      → contains i (all_ids runs known) ≡ (contains i known || in_runs i runs)
  unfolding all_ids
  contains-all_ids i [] known = ground arith
  contains-all_ids i (run ∷ runs) known = ground (
    arith,
    contains-all_ids i runs (extend_ids run.per_case known),
    contains-extend_ids i run.per_case known,
  )

List-cases :
    (xs : List String)
    → (xs ≡ [])
      ⊎ ((x : String) × (xs ≡ x ∷ []))
      ⊎ ((x : String) × (y : String) × (ys : List String) × (xs ≡ x ∷ y ∷ ys))
List-cases [] = inl refl
List-cases (x ∷ []) = inr (inl (x, refl))
List-cases (x ∷ y ∷ ys) = inr (inr (x, y, ys, refl))

module _ {Score : Type 0} (zero_score : Score) (minus : Score → Score → Score) where
  -- A comparison that is made has at least two runs, and their hashes, each once, are at most one.
  pub compare_runs-compared :
      (first : EvalRunResult Score) (rest : List (EvalRunResult Score)) (labels : List String)
      (c : EvalComparison Score)
      → compare_runs zero_score minus (first ∷ rest) labels ≡ ok c
      → (label : String) × (labels' : List String) × (c
          ≡ compared zero_score minus first rest label labels')
  unfolding compare_runs
  compare_runs-compared first [] labels c h = absurd cc
  compare_runs-compared first (next ∷ rest) [] c h = absurd cc
  compare_runs-compared first (next ∷ rest) (label ∷ labels) c h =
      elim (List-cases (sorted (difference (hashes (first ∷ next ∷ rest)) []))) [
        | inl e ↦ (label, labels, ground (arith, h, e))
        | inr (inl (x, e)) ↦ (label, labels, ground (arith, h, e))
        | inr (inr (x, y, ys, e)) ↦ absurd (ground (arith, h, e))
      ]

  one_hash :
      (hs : List String) (x h : String)
      → sorted (difference hs []) ≡ x ∷ []
      → contains h hs ≡ true
      → x ≡ h
  one_hash hs x h e c =
      ground
        (arith, e, c, contains-sorted h (difference hs []), contains-difference h hs [], ==_iff x h)

  -- Runs that are compared are all of the spec that the comparison names.
  pub compare_runs_same_spec :
      (first : EvalRunResult Score) (rest : List (EvalRunResult Score)) (labels : List String)
      (c : EvalComparison Score) (hash : String)
      → compare_runs zero_score minus (first ∷ rest) labels ≡ ok c
      → contains hash (hashes (first ∷ rest)) ≡ true
      → c.eval_spec_hash ≡ hash
  unfolding compare_runs compared
  compare_runs_same_spec first [] labels c hash h k = absurd cc
  compare_runs_same_spec first (next ∷ rest) [] c hash h k = absurd cc
  compare_runs_same_spec first (next ∷ rest) (label ∷ labels) c hash h k =
      let hs = hashes (first ∷ next ∷ rest) in
      elim (List-cases (sorted (difference hs []))) [
        | inl e ↦ absurd (
            ground (
              arith,
              e,
              k,
              contains-sorted hash (difference hs []),
              contains-difference hash hs [],
            ))
        | inr (inl (x, e)) ↦ ground (
          arith,
          h,
          e,
          one_hash hs x hash e k,
          one_hash hs x first.eval_spec_hash e (ground (arith, ==-refl first.eval_spec_hash)),
        )
        | inr (inr (x, y, ys, e)) ↦ absurd (ground (arith, h, e))
      ]
