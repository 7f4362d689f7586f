-- ===== src/Orchestration/Graph/Compiled.antt =====
-- The nodes and the grouped edges that `compile_graph` of src/foundry/orchestration/patterns.py makes.
use agent_foundry.Prelude.{
  String, ◌≡◌, Bool, true, false, not, ◌&&◌, ◌||◌, List, [], ◌∷◌, ok, arith, eq_string, ◌==◌,
  ==_iff, contains, contains-append,
}
use agent_foundry.Prelude.Dict
use agent_foundry.Prelude.Dict.{Dict}
use agent_foundry.Orchestration.Graph.{GraphEdge, end_sentinel, with_endpoint, endpoints}

-- Is there an edge from the first to the second node?
abbrev pub leads : String → String → List GraphEdge → Bool
leads a b [] = false
leads a b (e ∷ edges) = (e.from == a && e.to == b) || leads a b edges

pub contains-with_endpoint :
    (x n : String) (nodes : List String)
    → contains x (with_endpoint n nodes) ≡ (contains x nodes || (n == x && not (n == end_sentinel)))
contains-with_endpoint x n nodes =
    ground (arith, contains-append x nodes (n ∷ []), ==_iff n x, ==_iff n end_sentinel)

pub contains-endpoints :
    (edges : List GraphEdge) (nodes nodes' : List String) (x : String)
    → endpoints edges nodes ≡ ok nodes'
    → contains x nodes ≡ true
    → contains x nodes' ≡ true
unfolding endpoints
contains-endpoints [] nodes nodes' x h i = ground (arith, h, i)
contains-endpoints (e ∷ edges) nodes nodes' x h i = ground (
  arith,
  contains-endpoints edges (with_endpoint e.to (with_endpoint e.from nodes)) nodes' x,
  contains-with_endpoint x e.to (with_endpoint e.from nodes),
  contains-with_endpoint x e.from nodes,
)
