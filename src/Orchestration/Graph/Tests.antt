-- ===== src/Orchestration/Graph/Tests.antt =====
-- Graphs at concrete inputs.
use agent_foundry.Prelude.{
  String, ◌≡◌, refl, false, none, List, [], ◌∷◌, Result, ok, err, eq_string, sorted, difference,
}
use agent_foundry.Prelude.Dict
use agent_foundry.Prelude.Dict.{Dict}
use agent_foundry.Orchestration.Graph.{
  CompiledEdge, GraphEdge, GraphFlow, pending, push_all, reach, reachable_from, end_round,
  end_rounds, can_end_set, visit, visit_targets, find_cycle, check_names, check_graph_shape, cycle,
}

abbrev edge : String → String → GraphEdge
edge a b = record { from = a; to = b; when = none }

abbrev to : String → CompiledEdge String
to a = record { to = a; predicate = none }

abbrev loop : GraphFlow
loop = record {
  start = "draft";
  edges = edge "draft" "review" ∷ edge "review" "draft" ∷ edge "review" "END" ∷ [];
  cycles_allowed = false;
}

abbrev loop_edges : Dict String (List (CompiledEdge String))
loop_edges = ("draft", to "review" ∷ []) ∷ ("review", to "draft" ∷ to "END" ∷ []) ∷ []

abbrev compile : String → Result String String
compile s = ok s

finds_cycle :
    check_graph_shape loop ("draft" ∷ "review" ∷ []) loop_edges
    ≡ err (cycle ("draft" ∷ "review" ∷ "draft" ∷ []))
unfolding check_graph_shape check_names reachable_from reach pending push_all can_end_set end_rounds
    end_round find_cycle visit visit_targets sorted difference Dict.get
finds_cycle = refl
