-- ===== src/Orchestration/Patterns/Primary.antt =====
-- The primary agent of a flow, and `plan_flow`, in src/foundry/orchestration/patterns.py.
use agent_foundry.Prelude.{
  String, Bool, true, false, ◌&&◌, Option, none, some, List, [], ◌∷◌, if◌then◌else◌, Result, ok,
  err, ◌>>=◌, contains, eq_string,
}
use agent_foundry.Prelude.Dict.{Dict}
use agent_foundry.Orchestration.Predicates.{Expr, CompiledPredicate}
use agent_foundry.Orchestration.Graph.{CompiledEdge, goals, end_sentinel}
use agent_foundry.Orchestration.Patterns.{
  Flow, agent, function, LeafNode, PlanNode, leaf_node, sequential_plan, parallel_plan,
  supervisor_plan, graph_plan, Plans, no_plans, plans, plan_names, PlanError, no_agent, Project,
  Builder,
}
use agent_foundry.Orchestration.Patterns.Build.{new_builder, compile_flow}

-- The pattern, which is the flow's type, is left out.
pub record FlowPlan : Type 0 where
  pub root : PlanNode
  pub primary_agent : String
  pub agents : List String
  pub subflow_names : List String
  pub steps : List String

abbrev pub is_agent : LeafNode → Bool
is_agent l = elim l.kind [ agent ↦ true | function ↦ false ]

abbrev pub leaf_agent : LeafNode → Option String
leaf_agent l = if is_agent l then some l.name else none

abbrev pub join_agent : Option LeafNode → Option String
join_agent none = none
join_agent (some l) = leaf_agent l

abbrev pub or_else : Option String → Option String → Option String
or_else (some n) later = some n
or_else none later = later

-- The loop over the sources of edges: the last one that is an agent and has an edge to END.
abbrev pub last_to_end :
    List String
    → Dict String (List (CompiledEdge CompiledPredicate))
    → Option String
    → Option String
last_to_end agents [] last = last
last_to_end agents ((source, edges) ∷ rest) last =
    last_to_end agents rest
      (if contains source agents && contains end_sentinel (goals edges) then some source else last)

-- The loop over the nodes: the last one that is an agent.
abbrev pub last_declared : List LeafNode → Option String → Option String
last_declared [] last = last
last_declared (l ∷ ls) last = last_declared ls (or_else (leaf_agent l) last)

unfoldable mutual
  -- `_last_agent`
  pub last_agent : List String → PlanNode → Option String
  last_agent agents (leaf_node l) = leaf_agent l
  last_agent agents (sequential_plan name ps) = last_step agents ps
  last_agent agents (parallel_plan name bs join then_) =
      or_else (last_step agents then_) (or_else (join_agent join) (last_step agents bs))
  last_agent agents (supervisor_plan s ws) = some s.supervisor
  last_agent agents (graph_plan g) =
      or_else (last_to_end agents g.edges_by_source none) (last_declared g.nodes none)

  -- The loop over `reversed(steps)`.
  pub last_step : List String → Plans → Option String
  last_step agents no_plans = none
  last_step agents (plans p ps) = or_else (last_step agents ps) (last_agent agents p)

abbrev pub is_leaf_list : Plans → Bool
is_leaf_list no_plans = true
is_leaf_list (plans (leaf_node l) ps) = is_leaf_list ps
is_leaf_list (plans (sequential_plan name qs) ps) = false
is_leaf_list (plans (parallel_plan name bs join then_) ps) = false
is_leaf_list (plans (supervisor_plan s ws) ps) = false
is_leaf_list (plans (graph_plan g) ps) = false

-- The names of the steps, if the flow is sequential and each step is a leaf.
abbrev pub legacy_steps : PlanNode → List String
legacy_steps (leaf_node l) = []
legacy_steps (sequential_plan name ps) = if is_leaf_list ps then plan_names ps else []
legacy_steps (parallel_plan name bs join then_) = []
legacy_steps (supervisor_plan s ws) = []
legacy_steps (graph_plan g) = []

-- `plan_flow` once the flow is built and its last agent is looked up.
abbrev pub flow_plan : PlanNode → Builder → Option String → Result PlanError FlowPlan
flow_plan root b none = err no_agent
flow_plan root b (some primary) = ok (record {
  root = root;
  primary_agent = primary;
  agents = b.agents_in_order;
  subflow_names = b.subflow_names;
  steps = legacy_steps root;
})

unfoldable pub plan_flow :
    (String → Option Expr) → (String → Bool) → Project → Flow → Result PlanError FlowPlan
plan_flow parse reserved p flow =
    compile_flow parse reserved p flow "" 0 new_builder >>= λ (root, b).
    flow_plan root b (last_agent p.agents root)
