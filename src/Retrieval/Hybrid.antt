-- ===== src/Retrieval/Hybrid.antt =====
-- src/foundry/retrieval/hybrid.py: the merge of ranked lists by reciprocal rank fusion, and the
-- hybrid retriever's way around failing branches. Scores are the program's floats, which are a
-- parameter: what the merge needs of them is in `Scores`. Latencies are left out of the events.
mod Tests
pub mod Floats
pub mod Merge
use agent_foundry.Prelude.{
  ℕ, suc, ◌+◌, String, ◌≡◌, Bool, true, false, Option, none, some, List, [], ◌∷◌, ◌++◌, take,
  if◌then◌else◌, Result, ok, err, ◌>>=◌, length, eq_string,
}
use agent_foundry.Prelude.Dict
use agent_foundry.Prelude.Dict.{Dict, values}
use agent_foundry.Retrieval.Hybrid.Floats.{Scores}

module _ (scores : Scores) where
  open scores use {Score, zero_score, plus, reciprocal, below}

  -- `RetrievedDocument`
  pub record Document : Type 0 where
    pub id : String
    pub text : String
    pub score : Score
    pub source : String
    pub metadata : Dict String String

  -- The two dictionaries of the merge.
  pub record Tally : Type 0 where
    pub points : Dict String Score
    pub first_seen : Dict String Document

  -- `scores.get(document.id, 0.0)`
  abbrev pub points_or_zero : Option Score → Score
  points_or_zero none = zero_score
  points_or_zero (some s) = s

  -- `first_seen.setdefault(document.id, document)`
  abbrev pub keep_first : Dict String Document → Document → Option Document → Dict String Document
  keep_first seen d none = Dict.put seen d.id d
  keep_first seen d (some first) = seen

  unfoldable pub tally_one : ℕ → ℕ → Document → Tally → Tally
  tally_one k rank d t = record {
    points =
        Dict.put t.points d.id
          (plus (points_or_zero (Dict.get t.points d.id)) (reciprocal (k + rank)));
    first_seen = keep_first t.first_seen d (Dict.get t.first_seen d.id);
  }

  -- The inner loop; ranks count from the given one.
  unfoldable pub tally_branch : ℕ → ℕ → List Document → Tally → Tally
  tally_branch k rank [] t = t
  tally_branch k rank (d ∷ ds) t = tally_branch k (suc rank) ds (tally_one k rank d t)

  unfoldable pub tally_lists : ℕ → List (List Document) → Tally → Tally
  tally_lists k [] t = t
  tally_lists k (ds ∷ lists) t = tally_lists k lists (tally_branch k 1 ds t)

  -- The documents of the merge: a new score, and the rest from the first sight. `first_seen` has
  -- every scored document, so none is left out: `tally_lists-keys` of Merge.antt.
  unfoldable pub scored : Dict String Document → Dict String Score → List Document
  scored seen [] = []
  scored seen ((i, s) ∷ points) =
      let rest = scored seen points in
      elim (Dict.get seen i) [
        | none ↦ rest
        | some d ↦
            record { id = i; text = d.text; score = s; source = d.source; metadata = d.metadata }
            ∷ rest
      ]

  -- `sort(key=score, reverse=True)` is stable.
  unfoldable pub place : Document → List Document → List Document
  place d [] = d ∷ []
  place d (x ∷ xs) = if below d.score x.score then x ∷ place d xs else d ∷ x ∷ xs

  unfoldable pub sort_by_score : List Document → List Document
  sort_by_score [] = []
  sort_by_score (d ∷ ds) = place d (sort_by_score ds)

  abbrev pub no_tally : Tally
  no_tally = record { points = []; first_seen = [] }

  unfoldable pub rrf_merge : Dict String (List Document) → ℕ → List Document
  rrf_merge ranked k =
      let t = tally_lists k (values ranked) no_tally in sort_by_score (scored t.first_seen t.points)

  -- What a branch of the retriever came to: its documents, an error of the program, or another
  -- exception, such as a cancellation.
  pub data BranchResult : Type 0 where
    documents : List Document → BranchResult
    foundry_error other_exception : String → BranchResult

  pub data RetrieveError : Type 0 where
    raised : String → RetrieveError
    retrieval_error : List String → RetrieveError

  pub data Event : Type 0 where
    branch_failed : String → String → Event
    retrieved : ℕ → ℕ → List String → Event

  -- The loop over the two results: what is ranked, what has failed, and the warnings.
  pub record Fanned : Type 0 where
    pub ranked : Dict String (List Document)
    pub failed : List String
    pub warnings : List Event

  unfoldable pub fan_in : String → BranchResult → Fanned → Result RetrieveError Fanned
  fan_in name (documents ds) f = ok (record f { ranked = Dict.put f.ranked name ds })
  fan_in name (foundry_error class) f = ok (record f {
    failed = f.failed ++ name ∷ [];
    warnings = f.warnings ++ branch_failed name class ∷ [];
  })
  fan_in name (other_exception class) f = err (raised class)

  -- What was emitted before the second branch's exception was raised again.
  abbrev pub fan_in_warnings : BranchResult → List Event
  fan_in_warnings (foundry_error class) = branch_failed "dense" class ∷ []
  fan_in_warnings (documents ds) = []
  fan_in_warnings (other_exception class) = []

  unfoldable pub fan_in_all : BranchResult → BranchResult → Result RetrieveError Fanned
  fan_in_all dense sparse =
      fan_in "dense" dense (record { ranked = []; failed = []; warnings = [] })
      >>= fan_in "sparse" sparse

  -- `retrieve`, where the two branches have come to their results, and what it emits.
  unfoldable pub retrieve :
      ℕ → ℕ → Bool → BranchResult → BranchResult → Result RetrieveError (List Document) × List Event
  retrieve rrf_k top_k has_emit dense sparse = elim (fan_in_all dense sparse) [
    | err e ↦ (err e, if has_emit then fan_in_warnings dense else [])
    | ok f ↦ elim f.ranked [
      | [] ↦ (err (retrieval_error f.failed), if has_emit then f.warnings else [])
      | branch ∷ branches ↦
          let merged = take top_k (rrf_merge (branch ∷ branches) rrf_k) in
          (
            ok merged,
            if has_emit then f.warnings ++ retrieved top_k (length merged) f.failed ∷ [] else [],
          )
    ]
  ]
