-- ===== src/Orchestration/Graph.antt =====
-- The graphs of src/foundry/orchestration/patterns.py: the nodes and edges of a graph flow, and the
-- checks of its shape. A stack is a list with its top first, and a set a list.
mod Tests
pub mod Relations
pub mod Reach
pub mod Ends
pub mod Cycles
pub mod Shape
pub mod Compiled
use agent_foundry.Prelude.{
  ℕ, zero, suc, ◌+◌, String, ◌≡◌, Bool, true, false, not, ◌&&◌, ◌||◌, Option, none, some, List, [],
  ◌∷◌, ◌++◌, if◌then◌else◌, Result, ok, err, ◌>>=◌, ◌>>◌, raise_if, length, eq_string, ◌==◌,
  contains, sorted, difference,
}
use agent_foundry.Prelude.Dict
use agent_foundry.Prelude.Dict.{Dict}

abbrev pub end_sentinel : String
end_sentinel = "END"

pub record GraphEdge : Type 0 where
  pub from : String
  pub to : String
  pub when : Option String

pub record GraphFlow : Type 0 where
  pub start : String
  pub edges : List GraphEdge
  pub cycles_allowed : Bool

-- An edge with its compiled predicate, of any type.
pub record CompiledEdge (P : Type 0) : Type 0 where
  pub to : String
  pub predicate : Option P

pub data ShapeError : Type 0 where
  edge_from_end out_of_fuel : ShapeError
  unreachable no_path_to_end cycle : List String → ShapeError

-- The endpoints that `compile_graph` adds for an edge.
abbrev pub with_endpoint : String → List String → List String
with_endpoint n nodes = if n == end_sentinel || contains n nodes then nodes else nodes ++ n ∷ []

unfoldable pub endpoints : List GraphEdge → List String → Result ShapeError (List String)
endpoints [] nodes = ok nodes
endpoints (e ∷ edges) nodes =
    let rest = endpoints edges (with_endpoint e.to (with_endpoint e.from nodes)) in
    if e.from == end_sentinel then err edge_from_end else rest

unfoldable pub node_names : GraphFlow → Result ShapeError (List String)
node_names flow = endpoints flow.edges [] >>= λ nodes.
    ok (if contains flow.start nodes then nodes else flow.start ∷ nodes)

-- `stack.extend`
unfoldable pub push_all : List String → List String → List String
push_all [] stack = stack
push_all (t ∷ ts) stack = push_all ts (t ∷ stack)

abbrev pub leads_out : List String → List String → Bool
leads_out [] can_end = false
leads_out (t ∷ ts) can_end = (t == end_sentinel || contains t can_end) || leads_out ts can_end

-- What a visit comes to: the nodes that are done, the last one first, or a node that is met on its
-- own trail; `none` where the fuel runs out.
abbrev pub Visited : Type 0
Visited = Option (Result ShapeError (List String))

-- The loop over the edges of a node.
unfoldable pub visit_targets :
    (String → List String → Visited) → List String → List String → Visited
visit_targets visit_one [] done = some (ok done)
visit_targets visit_one (t ∷ ts) done = elim (visit_one t done) [
  | none ↦ none
  | some (err e) ↦ some (err e)
  | some (ok done') ↦ visit_targets visit_one ts done'
]

abbrev pub finish : String → Visited → Visited
finish n none = none
finish n (some (err e)) = some (err e)
finish n (some (ok done)) = some (ok (n ∷ done))

unfoldable pub check_names :
    (List String → ShapeError) → List String → Option (List String) → Result ShapeError (Unit {0})
check_names e nodes none = err out_of_fuel
check_names e nodes (some found) = elim (sorted (difference nodes found)) [
  | [] ↦ ok tt
  | n ∷ ns ↦ err (e (n ∷ ns))
]

abbrev pub check_visited : Visited → Result ShapeError (Unit {0})
check_visited none = err out_of_fuel
check_visited (some (err e)) = err e
check_visited (some (ok done)) = ok tt

-- The cycle at a node that is met on its own trail, from its last node back.
abbrev pub cut : String → List String → List String
cut n [] = []
cut n (m ∷ trail) = m ∷ (if m == n then [] else cut n trail)

module _ {P : Type 0} where
  abbrev pub edges_or_none : Option (List (CompiledEdge P)) → List (CompiledEdge P)
  edges_or_none none = []
  edges_or_none (some es) = es

  abbrev pub goals : List (CompiledEdge P) → List String
  goals [] = []
  goals (e ∷ es) = e.to ∷ goals es

  -- The nodes that the edges of a node lead to: `edges_by_source.get(node, [])`.
  abbrev pub targets : Dict String (List (CompiledEdge P)) → String → List String
  targets d n = goals (edges_or_none (Dict.get d n))

  -- The edges of the sources that are not yet reachable.
  unfoldable pub pending : Dict String (List (CompiledEdge P)) → List String → ℕ
  pending [] reachable = 0
  pending ((n, es) ∷ d) reachable =
      (if contains n reachable then 0 else length (goals es)) + pending d reachable

  -- The loop over the stack, on fuel.
  unfoldable pub reach :
      ℕ → Dict String (List (CompiledEdge P)) → List String → List String → Option (List String)
  reach zero d reachable stack = none
  reach (suc fuel) d reachable [] = some reachable
  reach (suc fuel) d reachable (current ∷ stack) =
      let skip = reach fuel d reachable stack in
      let further = reach fuel d (current ∷ reachable) (push_all (targets d current) stack) in
      if contains current reachable || current == end_sentinel then skip else further

  -- Enough fuel, by `reach-total` of Graph/Reach.antt: an edge is pushed once.
  unfoldable pub reachable_from :
      String → Dict String (List (CompiledEdge P)) → Option (List String)
  reachable_from start d = reach (pending d [] + 2) d [] (start ∷ [])

  -- A round of the `while` loop, with whether it changed anything.
  unfoldable pub end_round :
      Dict String (List (CompiledEdge P)) → List String → List String × Bool → List String × Bool
  end_round d [] s = s
  end_round d (n ∷ nodes) (can_end, changed) = end_round d nodes (
      if contains n can_end
      then (can_end, changed)
      else if leads_out (targets d n) can_end
      then (n ∷ can_end, true)
      else (can_end, changed))

  unfoldable pub end_rounds :
      ℕ → Dict String (List (CompiledEdge P)) → List String → List String → Option (List String)
  end_rounds zero d nodes can_end = none
  end_rounds (suc fuel) d nodes can_end =
      let s = end_round d nodes (can_end, false) in
      let again = end_rounds fuel d nodes s.0 in if s.1 then again else some s.0

  -- Enough fuel, by `end_rounds-total` of Graph/Ends.antt: a round that changes something adds a node.
  unfoldable pub can_end_set :
      Dict String (List (CompiledEdge P)) → List String → Option (List String)
  can_end_set d nodes = end_rounds (length nodes + 1) d nodes []

  -- `visit`: the trail has the last node first, and its nodes are the set `visiting`.
  unfoldable pub visit :
      ℕ → Dict String (List (CompiledEdge P)) → List String → String → List String → Visited
  visit zero d trail n done = none
  visit (suc fuel) d trail n done =
      let inner = finish n (visit_targets (visit fuel d (n ∷ trail)) (targets d n) done) in
      if n == end_sentinel || contains n done
      then some (ok done)
      else if contains n trail
      then some (err (cycle (n ∷ cut n trail)))
      else inner

  -- Enough fuel, by `visit-total` of Graph/Cycles.antt: no node is twice on a trail.
  unfoldable pub find_cycle : Dict String (List (CompiledEdge P)) → List String → String → Visited
  find_cycle d nodes start = visit (length nodes + 1) d [] start []

  unfoldable pub check_graph_shape :
      GraphFlow → List String → Dict String (List (CompiledEdge P)) → Result ShapeError (Unit {0})
  check_graph_shape flow nodes d =
      check_names unreachable nodes (reachable_from flow.start d)
      >> (check_names no_path_to_end nodes (can_end_set d nodes)
          >> (if flow.cycles_allowed then ok tt else check_visited (find_cycle d nodes flow.start)))

-- The loop that compiles the edges and groups them by their sources.
module _ {P E : Type 0} (compile_predicate : String → Result E P) where
  abbrev pub compile_when : Option String → Result E (Option P)
  compile_when none = ok none
  compile_when (some text) = elim (compile_predicate text) [ ok p ↦ ok (some p) | err e ↦ err e ]

  unfoldable pub group_edges :
      List GraphEdge
      → Dict String (List (CompiledEdge P))
      → Result E (Dict String (List (CompiledEdge P)))
  group_edges [] d = ok d
  group_edges (e ∷ edges) d = compile_when e.when >>= λ p. group_edges edges (
      Dict.put d e.from
        (edges_or_none (Dict.get d e.from) ++ record { to = e.to; predicate = p } ∷ []))
