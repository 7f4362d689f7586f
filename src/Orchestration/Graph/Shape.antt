-- ===== src/Orchestration/Graph/Shape.antt =====
-- What a graph that src/foundry/orchestration/patterns.py accepts or refuses is like.
use agent_foundry.Prelude.{
  String, ◌≡◌, ◌⊎◌, inl, inr, refl, sym, Bool, true, false, not, ◌&&◌, ◌||◌, Option, none, some,
  List, [], ◌∷◌, if◌then◌else◌, Result, ok, err, ◌>>◌, arith, Bool-cases, subst, eq_string, ◌==◌,
  ==_iff, ==-refl, contains, contains-sorted, contains-difference, sorted, difference,
}
use agent_foundry.Prelude.Dict.{Dict}
use agent_foundry.Orchestration.Graph.{
  CompiledEdge, GraphFlow, end_sentinel, targets, ShapeError, unreachable, no_path_to_end, cycle,
  edge_from_end, out_of_fuel, Visited, check_names, check_visited, check_graph_shape,
  reachable_from, can_end_set, find_cycle,
}
use agent_foundry.Orchestration.Graph.Relations.{Reaches, Ends, IsTopological}
use agent_foundry.Orchestration.Graph.Reach.{Reached, reachable_from-Reached, Reached-complete}
use agent_foundry.Orchestration.Graph.Ends.{Ended, can_end_set-Ended, Ended-complete}
use agent_foundry.Orchestration.Graph.Cycles.{IsCycle, Outcome, find_cycle-Outcome}

module _ {P : Type 0} (d : Dict String (List (CompiledEdge P))) (start : String)
    (nodes : List String) where
  -- What an error says of the nodes that it names: each of them is not reached from the start, or is
  -- END, where that is given as the start; and one of them is a node.
  abbrev pub Unreached : List String → Type 0
  Unreached ns =
      ((n : String)
        → ((contains n ns ≡ false) ⊎ ((n == end_sentinel) ≡ true)) ⊎ (¬ Reaches d start n))
      × ((m : String) × ((contains m ns && contains m nodes) ≡ true)
          × (((m == end_sentinel) ≡ true) ⊎ (¬ Reaches d start m)))

  -- Each of them has no path to END, and one of them is a node.
  abbrev pub Stuck : List String → Type 0
  Stuck ns =
      ((n : String) → (contains n ns ≡ false) ⊎ (¬ Ends d nodes n))
      × ((m : String) × ((contains m ns && contains m nodes) ≡ true) × (¬ Ends d nodes m))

  -- An error is true: the nodes that it names are as it says, and there is one; or they are a cycle,
  -- and cycles are not allowed.
  abbrev pub IsTrue : Bool → ShapeError → Type 0
  IsTrue allowed (unreachable ns) = Unreached ns
  IsTrue allowed (no_path_to_end ns) = Stuck ns
  IsTrue allowed (cycle ns) = IsCycle d (cycle ns) × (allowed ≡ false)
  IsTrue allowed edge_from_end = ⊥
  IsTrue allowed out_of_fuel = ⊥

  -- A graph that is to be accepted: END is no node of it, each node is reached from the start and has
  -- a path to END, and there is no cycle unless cycles are allowed.
  pub record IsAcceptable (allowed : Bool) : Type 0 where
    pub no_end : contains end_sentinel nodes ≡ false
    pub all_reached : (n : String) → contains n nodes ≡ true → Reaches d start n
    pub all_end : (n : String) → contains n nodes ≡ true → Ends d nodes n
    pub acyclic : (ns : List String) → (allowed ≡ true) ⊎ (¬ IsCycle d (cycle ns))

  -- An accepted graph: each node is reached from the start and has a path to END; and where cycles are
  -- not allowed there is an order of nodes with the start in it in which each edge goes to END or to a
  -- later node.
  pub record IsSound (cycles_allowed : Bool) : Type 0 where
    pub reached : (n : String) → (contains n nodes ≡ false) ⊎ Reaches d start n
    pub ends : (n : String) → (contains n nodes ≡ false) ⊎ Ends d nodes n
    pub ordered :
        (cycles_allowed ≡ true)
        ⊎ ((order : List String) × IsTopological d order
            × ((start == end_sentinel || contains start order) ≡ true))

  abbrev pub Verdict : Bool → Result ShapeError (Unit {0}) → Type 0
  Verdict cycles_allowed (ok _) = IsSound cycles_allowed
  Verdict cycles_allowed (err e) = IsTrue cycles_allowed e

  -- The names that a check refuses, of which there is one, are the nodes that were not found.
  abbrev Checked : (List String → ShapeError) → List String → Result ShapeError (Unit {0}) → Type 0
  Checked e found (ok _) = (n : String) → (contains n nodes && not (contains n found)) ≡ false
  Checked e found (err x) =
      (m : String) × (ms : List String) × (x ≡ e (m ∷ ms))
      × ((n : String) → contains n (m ∷ ms) ≡ (contains n nodes && not (contains n found)))

  check_names-Checked :
      (e : List String → ShapeError) (found : List String)
      → Checked e found (check_names e nodes (some found))
  unfolding check_names
  check_names-Checked e found = go (sorted (difference nodes found)) known
    where
      known :
          (n : String)
          → contains n (sorted (difference nodes found))
            ≡ (contains n nodes && not (contains n found))
      known n =
          ground
            (arith, contains-sorted n (difference nodes found), contains-difference n nodes found)

      go :
          (left : List String)
          → ((n : String) → contains n left ≡ (contains n nodes && not (contains n found)))
          → Checked e found (elim left [ [] ↦ ok tt | m ∷ ms ↦ err (e (m ∷ ms)) ])
      go [] k = λ n. sym (k n)
      go (m ∷ ms) k = (m, ms, refl, k)

  absent_or :
      (n : String) (Q : Type 0) → (contains n nodes ≡ true → Q) → (contains n nodes ≡ false) ⊎ Q
  absent_or n Q f = elim (Bool-cases (contains n nodes)) [ inl i ↦ inr (f i) | inr o ↦ inl o ]

  check_reachable :
      (cycles_allowed : Bool) (o : Option (List String)) (r : Reached d start o)
      (rest : Result ShapeError (Unit {0}))
      → (((n : String) → (contains n nodes ≡ false) ⊎ Reaches d start n)
          → Verdict cycles_allowed rest)
      → (v : Result ShapeError (Unit {0})) → Checked unreachable r.nodes v
      → Verdict cycles_allowed (v >> rest)
  check_reachable cycles_allowed o r rest f (ok _) k =
      f (λ n. absent_or n (Reaches d start n) (λ i. (r.sound n (ground (arith, i, k n))).0))
  check_reachable cycles_allowed o r rest f (err x) (m, ms, e, k) =
      let unreached : (n : String)
          → contains n (m ∷ ms) ≡ true
          → ((n == end_sentinel) ≡ true) ⊎ (¬ Reaches d start n) =
        λ n listed. elim (Bool-cases (n == end_sentinel)) [
          | inl same ↦ inl same
          | inr other ↦
              inr
                (λ p. absurd (ground (arith, listed, k n, other, Reached-complete d start n o r p)))
        ] in
      subst (IsTrue cycles_allowed) (sym e) (
        λ n. elim (Bool-cases (contains n (m ∷ ms))) [
          | inr absent ↦ inl (inl absent)
          | inl listed ↦ elim (unreached n listed) [
            | inl same ↦ inl (inr same)
            | inr never ↦ inr never
          ]
        ],
        (m, ground (arith, k m, ==-refl m), unreached m (ground (arith, ==-refl m))),
      )

  check-Ends :
      (cycles_allowed : Bool) (o : Option (List String)) (r : Ended d nodes o)
      (rest : Result ShapeError (Unit {0}))
      → (((n : String) → (contains n nodes ≡ false) ⊎ Ends d nodes n) → Verdict cycles_allowed rest)
      → (v : Result ShapeError (Unit {0})) → Checked no_path_to_end r.can_end v
      → Verdict cycles_allowed (v >> rest)
  check-Ends cycles_allowed o r rest f (ok _) k =
      f (λ n. absent_or n (Ends d nodes n) (λ i. r.sound n (ground (arith, i, k n))))
  check-Ends cycles_allowed o r rest f (err x) (m, ms, e, k) =
      let stuck : (n : String) → contains n (m ∷ ms) ≡ true → ¬ Ends d nodes n =
        λ n listed p. absurd (ground (arith, listed, k n, Ended-complete d nodes n o r p)) in
      subst (IsTrue cycles_allowed) (sym e) (
        λ n. elim (Bool-cases (contains n (m ∷ ms))) [
          | inr absent ↦ inl absent
          | inl listed ↦ inr (stuck n listed)
        ],
        (m, ground (arith, k m, ==-refl m), stuck m (ground (arith, ==-refl m))),
      )

  check_cycle :
      ((n : String) → (contains n nodes ≡ false) ⊎ Reaches d start n)
      → ((n : String) → (contains n nodes ≡ false) ⊎ Ends d nodes n)
      → (v : Visited) → Outcome d [] start v
      → Verdict false (check_visited v)
  check_cycle reached ends none h = h
  check_cycle reached ends (some (err (cycle ns))) h = (h, refl)
  check_cycle reached ends (some (err (unreachable ns))) h = absurd h
  check_cycle reached ends (some (err (no_path_to_end ns))) h = absurd h
  check_cycle reached ends (some (err edge_from_end)) h = h
  check_cycle reached ends (some (err out_of_fuel)) h = h
  check_cycle reached ends (some (ok order)) (o, has, _) = record {
    reached = reached;
    ends = ends;
    ordered = inr (order, o, has);
  }

-- An error about a graph that is to be accepted is not true.
IsTrue-IsAcceptable :
    {P : Type 0} (d : Dict String (List (CompiledEdge P))) (start : String) (nodes : List String)
    (allowed : Bool) (e : ShapeError)
    → IsAcceptable d start nodes allowed
    → ¬ IsTrue d start nodes allowed e
IsTrue-IsAcceptable d start nodes allowed (unreachable ns) a (_, (m, named, why)) = elim why [
  | inl same ↦ absurd (ground (arith, same, named, a.no_end, ==_iff m end_sentinel))
  | inr never ↦ never (a.all_reached m (ground (arith, named)))
]
IsTrue-IsAcceptable d start nodes allowed (no_path_to_end ns) a (_, (m, named, never)) =
    never (a.all_end m (ground (arith, named)))
IsTrue-IsAcceptable d start nodes allowed (cycle ns) a (is_cycle, not_allowed) =
    elim (a.acyclic ns) [
      | inl is_allowed ↦ absurd (ground (arith, is_allowed, not_allowed))
      | inr none_there ↦ none_there is_cycle
    ]
IsTrue-IsAcceptable d start nodes allowed edge_from_end a h = h
IsTrue-IsAcceptable d start nodes allowed out_of_fuel a h = h

pub Verdict-IsAcceptable :
    {P : Type 0} (d : Dict String (List (CompiledEdge P))) (start : String) (nodes : List String)
    (allowed : Bool) (r : Result ShapeError (Unit {0}))
    → Verdict d start nodes allowed r
    → IsAcceptable d start nodes allowed
    → r ≡ ok tt
Verdict-IsAcceptable d start nodes allowed (ok u) v a = refl
Verdict-IsAcceptable d start nodes allowed (err e) v a =
    absurd (IsTrue-IsAcceptable d start nodes allowed e a v)

-- Where the start is a node and each edge goes to END or to a node, the check of a graph's shape
-- decides: if it passes, each node is reached from the start and has a path to END, and the graph has
-- an order without cycles unless these are allowed; if it raises, what the error says is true.
pub check_graph_shape-Verdict :
    {P : Type 0} (d : Dict String (List (CompiledEdge P))) (flow : GraphFlow) (nodes : List String)
    → contains flow.start nodes ≡ true
    → ((a b : String)
        → contains b (targets d a) ≡ true
        → (b == end_sentinel || contains b nodes) ≡ true)
    → Verdict d flow.start nodes flow.cycles_allowed (check_graph_shape flow nodes d)
unfolding check_graph_shape
check_graph_shape-Verdict d flow nodes i c =
    let r = reachable_from-Reached flow.start d in
    let e = can_end_set-Ended d nodes in
    check_reachable d flow.start nodes flow.cycles_allowed (reachable_from flow.start d) r _
      (λ reached.
        check-Ends d flow.start nodes flow.cycles_allowed (can_end_set d nodes) e _
          (λ ends. by_cycles flow.cycles_allowed reached ends)
          (check_names no_path_to_end nodes (can_end_set d nodes))
          (rw e.found (check_names-Checked d flow.start nodes no_path_to_end e.can_end)))
      (check_names unreachable nodes (reachable_from flow.start d))
      (rw r.found (check_names-Checked d flow.start nodes unreachable r.nodes))
  where
    by_cycles :
        (allowed : Bool)
        → ((n : String) → (contains n nodes ≡ false) ⊎ Reaches d flow.start n)
        → ((n : String) → (contains n nodes ≡ false) ⊎ Ends d nodes n)
        → Verdict d flow.start nodes allowed
            (if allowed then ok tt else check_visited (find_cycle d nodes flow.start))
    by_cycles true reached ends = record { reached = reached; ends = ends; ordered = inl refl }
    by_cycles false reached ends =
        check_cycle d flow.start nodes reached ends (find_cycle d nodes flow.start)
          (find_cycle-Outcome d nodes flow.start i c)
