-- ===== src/Retrieval/Hybrid/Merge.antt =====
-- What the merge and the retriever of src/foundry/retrieval/hybrid.py return.
use agent_foundry.Prelude.{
  ℕ, suc, ◌+◌, String, ◌≡◌, inl, inr, refl, Bool, true, false, ◌||◌, List, [], ◌∷◌, arith,
  eq_string, ◌==◌, ==_iff, contains, Option-cases,
}
use agent_foundry.Prelude.Dict
use agent_foundry.Prelude.Dict.{
  Dict, values, keys, get-put, contains-keys-put, get-ne_none, get-eq_none,
}
use agent_foundry.Retrieval.Hybrid.Floats.{Scores}
use agent_foundry.Retrieval.Hybrid.{
  Document, Tally, points_or_zero, tally_one, tally_branch, tally_lists, scored, place,
  sort_by_score, no_tally, rrf_merge,
}

module _ (scores : Scores) where
  abbrev pub ids : List (Document scores) → List String
  ids [] = []
  ids (d ∷ ds) = d.id ∷ ids ds

  abbrev pub in_lists : String → List (List (Document scores)) → Bool
  in_lists i [] = false
  in_lists i (ds ∷ lists) = contains i (ids ds) || in_lists i lists

  -- The scored ids are the ids seen.
  tally_one-keys :
      (k rank : ℕ) (d : Document scores) (t : Tally scores) (i : String)
      → (contains i (keys (tally_one scores k rank d t).points)
          ≡ (d.id == i || contains i (keys t.points)))
        × (contains i (keys (tally_one scores k rank d t).first_seen)
            ≡ (d.id == i || contains i (keys t.first_seen)))
  unfolding tally_one
  tally_one-keys k rank d t i = elim (Option-cases (Dict.get t.first_seen d.id)) [
    | inl new ↦ ground (
      arith,
      new,
      contains-keys-put t.points d.id i (
          scores.plus (points_or_zero scores (Dict.get t.points d.id))
            (scores.reciprocal (k + rank))),
      contains-keys-put t.first_seen d.id i d,
    )
    | inr (first, old) ↦ ground (
      arith,
      old,
      contains-keys-put t.points d.id i (
          scores.plus (points_or_zero scores (Dict.get t.points d.id))
            (scores.reciprocal (k + rank))),
      get-eq_none t.first_seen d.id,
      ==_iff d.id i,
    )
  ]

  tally_branch-keys :
      (k rank : ℕ) (ds : List (Document scores)) (t : Tally scores) (i : String)
      → (contains i (keys (tally_branch scores k rank ds t).points)
          ≡ (contains i (ids ds) || contains i (keys t.points)))
        × (contains i (keys (tally_branch scores k rank ds t).first_seen)
            ≡ (contains i (ids ds) || contains i (keys t.first_seen)))
  unfolding tally_branch
  tally_branch-keys k rank [] t i = (refl, refl)
  tally_branch-keys k rank (d ∷ ds) t i = ground (
    arith,
    tally_branch-keys k (suc rank) ds (tally_one scores k rank d t) i,
    tally_one-keys k rank d t i,
  )

  tally_lists-keys :
      (k : ℕ) (lists : List (List (Document scores))) (t : Tally scores) (i : String)
      → (contains i (keys (tally_lists scores k lists t).points)
          ≡ (in_lists i lists || contains i (keys t.points)))
        × (contains i (keys (tally_lists scores k lists t).first_seen)
            ≡ (in_lists i lists || contains i (keys t.first_seen)))
  unfolding tally_lists
  tally_lists-keys k [] t i = (refl, refl)
  tally_lists-keys k (ds ∷ lists) t i = ground (
    arith,
    tally_lists-keys k lists (tally_branch scores k 1 ds t) i,
    tally_branch-keys k 1 ds t i,
  )

  contains-scored :
      (seen : Dict String (Document scores)) (points : Dict String scores.Score) (i : String)
      → ((j : String) → contains j (keys points) ≡ true → contains j (keys seen) ≡ true)
      → contains i (ids (scored scores seen points)) ≡ contains i (keys points)
  unfolding scored
  contains-scored seen [] i f = refl
  contains-scored seen ((j, s) ∷ points) i f = elim (Option-cases (Dict.get seen j)) [
    | inl gone ↦ absurd (get-ne_none seen j (f j (ground (arith, ==_iff j j))) gone)
    | inr (d, known) ↦
        ground (arith, known, contains-scored seen points i (λ k c. f k (ground (arith, c))))
  ]

  contains-place :
      (d : Document scores) (xs : List (Document scores)) (i : String)
      → contains i (ids (place scores d xs)) ≡ (d.id == i || contains i (ids xs))
  unfolding place
  contains-place d [] i = refl
  contains-place d (x ∷ xs) i = ground (arith, contains-place d xs i)

  contains-sort :
      (ds : List (Document scores)) (i : String)
      → contains i (ids (sort_by_score scores ds)) ≡ contains i (ids ds)
  unfolding sort_by_score
  contains-sort [] i = refl
  contains-sort (d ∷ ds) i =
      ground (arith, contains-place d (sort_by_score scores ds) i, contains-sort ds i)

  -- The merge has a document of an id exactly where one of the ranked lists has one: it drops none
  -- and makes none up.
  pub contains-rrf_merge :
      (ranked : Dict String (List (Document scores))) (k : ℕ) (i : String)
      → contains i (ids (rrf_merge scores ranked k)) ≡ in_lists i (values ranked)
  unfolding rrf_merge
  contains-rrf_merge ranked k i =
      let t = tally_lists scores k (values ranked) (no_tally scores) in
      ground (
        arith,
        contains-sort (scored scores t.first_seen t.points) i,
        contains-scored t.first_seen t.points i
            (λ j c. ground (arith, c, tally_lists-keys k (values ranked) (no_tally scores) j)),
        tally_lists-keys k (values ranked) (no_tally scores) i,
      )
