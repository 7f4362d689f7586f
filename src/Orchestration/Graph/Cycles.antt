-- ===== src/Orchestration/Graph/Cycles.antt =====
-- The search of src/foundry/orchestration/patterns.py for a cycle.
use agent_foundry.Prelude.{
  ℕ, zero, suc, ◌+◌, ◌<◌, String, ◌≡◌, inl, inr, refl, true, ◌||◌, none, some, List, [], ◌∷◌,
  if◌then◌else◌, ok, err, length, arith, Bool-cases, eq_string, ◌==◌, ==_iff, ==-refl, contains,
  missing, missing-le-length, missing-lt,
}
use agent_foundry.Prelude.Dict.{Dict}
use agent_foundry.Orchestration.Graph.{
  CompiledEdge, end_sentinel, targets, ShapeError, cycle, Visited, visit_targets, finish, cut,
  visit, find_cycle,
}
use agent_foundry.Orchestration.Graph.Relations.{all_in, IsTopological}

-- Each node of a list has an edge to the node before it.
abbrev pub Follows :
    {P : Type 0} → Dict String (List (CompiledEdge P)) → String → List String → Type 0
Follows d n [] = Unit
Follows d n (m ∷ ms) = (contains n (targets d m) ≡ true) × Follows d m ms

abbrev pub final : String → List String → String
final n [] = n
final n (m ∷ ms) = final m ms

-- The cycles that are reported: at least one node behind the first, which is the last one again.
abbrev pub IsCycle : {P : Type 0} → Dict String (List (CompiledEdge P)) → ShapeError → Type 0
IsCycle d (cycle (n ∷ m ∷ ms)) = Follows d n (m ∷ ms) × (final m ms ≡ n)
IsCycle d _ = ⊥

-- What a visit of a node has found.
abbrev pub Outcome :
    {P : Type 0} → Dict String (List (CompiledEdge P)) → List String → String → Visited → Type 0
Outcome d done n none = ⊥
Outcome d done n (some (err e)) = IsCycle d e
Outcome d done n (some (ok done')) =
    IsTopological d done'
    × ((n == end_sentinel || contains n done') ≡ true)
    × ((m : String) → contains m done ≡ true → contains m done' ≡ true)

-- What the loop over some targets has found.
abbrev pub TargetsOutcome :
    {P : Type 0}
    → Dict String (List (CompiledEdge P))
    → List String
    → List String
    → Visited
    → Type 0
TargetsOutcome d done ts none = ⊥
TargetsOutcome d done ts (some (err e)) = IsCycle d e
TargetsOutcome d done ts (some (ok done')) =
    IsTopological d done'
    × (all_in ts done' ≡ true)
    × ((m : String) → contains m done ≡ true → contains m done' ≡ true)

module _ {P : Type 0} (d : Dict String (List (CompiledEdge P))) where
  cut-IsCycle :
      (n x m : String) (ms : List String)
      → contains n (m ∷ ms) ≡ true
      → Follows d x (m ∷ ms)
      → Follows d m (if m == n then [] else cut n ms)
        × (final m (if m == n then [] else cut n ms) ≡ n)
  cut-IsCycle n x m [] c f = elim (Bool-cases (m == n)) [
    | inl same ↦ rw same (tt, (==_iff m n).0 same)
    | inr other ↦ absurd (ground (arith, c, other))
  ]
  cut-IsCycle n x m (k ∷ ms) c f = elim (Bool-cases (m == n)) [
    | inl same ↦ rw same (tt, (==_iff m n).0 same)
    | inr other ↦
        let (follows, ends) = cut-IsCycle n m k ms (ground (arith, c, other)) f.1 in
        rw other ((f.1.0, follows), ends)
  ]

  all_in_mono :
      (ts xs ys : List String)
      → ((m : String) → contains m xs ≡ true → contains m ys ≡ true)
      → all_in ts xs ≡ true
      → all_in ts ys ≡ true
  all_in_mono [] xs ys f h = refl
  all_in_mono (t ∷ ts) xs ys f h = ground (arith, h, f t, all_in_mono ts xs ys f)

  -- The loop behind the visit of its first target.
  behind :
      (t : String) (ts done : List String) (v : Visited) (rest : List String → Visited)
      → Outcome d done t v
      → ((done' : List String) → IsTopological d done' → TargetsOutcome d done' ts (rest done'))
      → TargetsOutcome d done
          (t ∷ ts)
          (elim v [ none ↦ none | some (err e) ↦ some (err e) | some (ok done') ↦ rest done' ])
  behind t ts done none rest h g = h
  behind t ts done (some (err e)) rest h g = h
  behind t ts done (some (ok done')) rest (o, out, kept) g = further (rest done') (g done' o)
    where
      further : (v : Visited) → TargetsOutcome d done' ts v → TargetsOutcome d done (t ∷ ts) v
      further none k = k
      further (some (err e)) k = k
      further (some (ok done'')) (o', all, kept') =
          (o', ground (arith, out, all, kept' t), λ m h. kept' m (kept m h))

  visit_targets-Outcome :
      (visit_one : String → List String → Visited) (ts done : List String)
      → ((t : String) (before : List String)
          → contains t ts ≡ true
          → IsTopological d before
          → Outcome d before t (visit_one t before))
      → IsTopological d done
      → TargetsOutcome d done ts (visit_targets visit_one ts done)
  unfolding visit_targets
  visit_targets-Outcome visit_one [] done f o = (o, refl, λ m h. h)
  visit_targets-Outcome visit_one (t ∷ ts) done f o =
      behind t ts done (visit_one t done) (visit_targets visit_one ts)
        (f t done (ground (arith, ==-refl t)) o)
        (λ done' o'.
          visit_targets-Outcome visit_one ts done' (λ u b i. f u b (ground (arith, i))) o')

  finish-Outcome :
      (n : String) (done : List String) (v : Visited)
      → TargetsOutcome d done (targets d n) v
      → Outcome d done n (finish n v)
  finish-Outcome n done none h = h
  finish-Outcome n done (some (err e)) h = h
  finish-Outcome n done (some (ok done')) (o, all, kept) =
      ((all, o), ground (arith, ==-refl n), λ m h. ground (arith, kept m h))

  visit-Outcome :
      (fuel : ℕ) (nodes trail : List String) (n : String) (done : List String)
      → missing nodes trail < fuel
      → (n == end_sentinel || contains n nodes) ≡ true
      → ((a b : String)
          → contains b (targets d a) ≡ true
          → (b == end_sentinel || contains b nodes) ≡ true)
      → Follows d n trail
      → IsTopological d done
      → Outcome d done n (visit fuel d trail n done)
  unfolding visit
  visit-Outcome zero nodes trail n done m i c f o = absurd (omega (arith, m))
  visit-Outcome (suc fuel) nodes trail n done m i c f o =
      elim (Bool-cases (n == end_sentinel || contains n done)) [
        | inl known ↦ rw known (o, known, λ a h. h)
        | inr new ↦ rw new (elim (Bool-cases (contains n trail)) [
          | inl met ↦ rw met (on_trail trail met f)
          | inr fresh ↦ rw fresh (
              finish-Outcome n done _ (
                visit_targets-Outcome (visit fuel d (n ∷ trail)) (targets d n) done
                  (λ t before edge o'.
                    visit-Outcome fuel nodes (n ∷ trail) t before
                      (ground (arith, m, i, new, fresh, missing-lt nodes trail n)) (c n t edge) c
                      (edge, f) o')
                  o))
        ])
      ]
    where
      on_trail :
          (ms : List String)
          → contains n ms ≡ true
          → Follows d n ms
          → IsCycle d (cycle (n ∷ cut n ms))
      on_trail [] h g = absurd cc
      on_trail (k ∷ ms) h g =
          let (follows, ends) = cut-IsCycle n n k ms h g in ((g.0, follows), ends)

  -- The search for a cycle comes to an end: with an order of the nodes in which each edge goes to END
  -- or to a later node, and which has the start; or with a cycle.
  pub find_cycle-Outcome :
      (nodes : List String) (start : String)
      → contains start nodes ≡ true
      → ((a b : String)
          → contains b (targets d a) ≡ true
          → (b == end_sentinel || contains b nodes) ≡ true)
      → Outcome d [] start (find_cycle d nodes start)
  unfolding find_cycle
  find_cycle-Outcome nodes start i c =
      visit-Outcome (length nodes + 1) nodes [] start [] (omega (arith, missing-le-length nodes []))
        (ground (arith, i)) c tt tt
