-- ===== src/Retrieval/Hybrid/Tests.antt =====
-- The hybrid retriever at concrete inputs, with whole numbers for the scores: a reciprocal is a share
-- of 1000.
use agent_foundry.Prelude.{ℕ, ◌+◌, ◌/◌, String, ◌≡◌, refl, List, [], ◌∷◌, ltb, contains, eq_string}
use agent_foundry.Prelude.Dict
use agent_foundry.Prelude.Dict.{Dict, values}
use agent_foundry.Retrieval.Hybrid.Floats.{Scores}
use agent_foundry.Retrieval.Hybrid.{
  Document, rrf_merge, tally_lists, tally_branch, tally_one, scored, sort_by_score, place,
}
use agent_foundry.Retrieval.Hybrid.Merge.{ids, in_lists, contains-rrf_merge}

abbrev shares : Scores
shares = record {
  Score = ℕ;
  zero_score = 0;
  plus = λ a b. a + b;
  reciprocal = λ n. 1000 / n;
  below = ltb;
}

abbrev doc : String → Document shares
doc i = record { id = i; text = i; score = 0; source = "s"; metadata = [] }

abbrev ranked : Dict String (List (Document shares))
ranked = ("dense", doc "a" ∷ doc "b" ∷ []) ∷ ("sparse", doc "b" ∷ doc "c" ∷ []) ∷ []

merges : ids shares (rrf_merge shares ranked 60) ≡ "b" ∷ "a" ∷ "c" ∷ []
unfolding rrf_merge tally_lists tally_branch tally_one scored sort_by_score place Dict.get Dict.put
merges = refl

contains-rrf_merge_example :
    contains "c" (ids shares (rrf_merge shares ranked 60)) ≡ in_lists shares "c" (values ranked)
contains-rrf_merge_example = contains-rrf_merge shares ranked 60 "c"
