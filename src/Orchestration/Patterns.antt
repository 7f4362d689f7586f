-- ===== src/Orchestration/Patterns.antt =====
-- src/foundry/orchestration/patterns.py: flows, the plans that are made of them, and the builder's
-- state. JSON pointers, which only stand in messages, are left out. A supervisor's workers are their
-- plans: the source pairs each with its name, `plan_name`. The shape of graphs is in Graph.antt.
mod Tests
pub mod Build
pub mod Leaves
pub mod Positions
pub mod Depth
pub mod Primary
pub mod Agents
pub mod PrimaryAgent
use agent_foundry.Prelude.{
  ℕ, suc, ◌+◌, String, ◌≡◌, Bool, true, false, not, ◌&&◌, ◌||◌, Option, none, some, List, [], ◌∷◌,
  ◌++◌, if◌then◌else◌, Result, ok, err, ◌>>=◌, ◌>>◌, raise_if, ltb, eq_string, ◌==◌, contains,
  sorted, difference,
}
use agent_foundry.Prelude.Dict
use agent_foundry.Prelude.Dict.{Dict, keys}
use agent_foundry.Orchestration.Predicates.{CompiledPredicate, CompileError}
use agent_foundry.Orchestration.Graph.{GraphFlow, GraphEdge, CompiledEdge, ShapeError, end_sentinel}

-- What the supervisor pattern says beside its workers.
pub record SupervisorFlow : Type 0 where
  pub supervisor : String
  pub mode : String
  pub force_return_to_supervisor : Bool
  pub allowed_handoffs : Dict String (List String)
  pub when : Option String
  pub max_hops : ℕ
  pub on_max_hops : String
  pub escalate_to : Option String

mutual
  pub data Flow : Type 0 where
    single : String → Flow
    sequential : Refs → Flow
    parallel : Refs → Option String → Refs → Flow
    supervisor : SupervisorFlow → Refs → Flow
    graph : GraphFlow → Flow

  -- A step, branch or worker: a name, or a nested flow under a name.
  pub data Refs : Type 0 where
    no_refs : Refs
    ref : String → Refs → Refs
    nested : String → Flow → Refs → Refs

pub data LeafKind : Type 0 where
  agent function : LeafKind

pub record LeafNode : Type 0 where
  pub kind : LeafKind
  pub name : String

pub record SupervisorPlan : Type 0 where
  pub name : String
  pub supervisor : String
  pub supervisor_targets : List String
  pub workers_may_end : List String
  pub termination_when : Option CompiledPredicate
  pub max_hops : ℕ
  pub on_max_hops : String
  pub escalate_to : Option String

pub record GraphPlan : Type 0 where
  pub name : String
  pub start : String
  pub nodes : List LeafNode
  pub edges_by_source : Dict String (List (CompiledEdge CompiledPredicate))

mutual
  pub data PlanNode : Type 0 where
    leaf_node : LeafNode → PlanNode
    sequential_plan : String → Plans → PlanNode
    parallel_plan : String → Plans → Option LeafNode → Plans → PlanNode
    supervisor_plan : SupervisorPlan → Plans → PlanNode
    graph_plan : GraphPlan → PlanNode

  pub data Plans : Type 0 where
    no_plans : Plans
    plans : PlanNode → Plans → Plans

abbrev pub plan_name : PlanNode → String
plan_name (leaf_node l) = l.name
plan_name (sequential_plan name ps) = name
plan_name (parallel_plan name bs join then_) = name
plan_name (supervisor_plan s ws) = s.name
plan_name (graph_plan g) = g.name

abbrev pub plan_names : Plans → List String
plan_names no_plans = []
plan_names (plans p ps) = plan_name p ∷ plan_names ps

pub data PlanError : Type 0 where
  repeated_node subflow_collision reserved_suffix nested_graph nesting_too_deep : String → PlanError
  unsupported_mode no_forced_return : PlanError
  not_an_agent supervisor_is_worker bad_escalation : String → PlanError
  unknown_handoffs unknown_targets : List String → PlanError
  worker_handoffs : String → List String → PlanError
  predicate_error : CompileError → PlanError
  shape_error : ShapeError → PlanError
  no_agent : PlanError

-- What the builder reads of the project: the names of the loaded agents, of the declared agents and
-- functions, the fields of the state, and the cap on nesting.
pub record Project : Type 0 where
  pub agents : List String
  pub system_agents : List String
  pub system_functions : List String
  pub state_fields : List String
  pub max_flow_nesting_depth : ℕ

pub record Builder : Type 0 where
  pub used_leaves : List String
  pub subflow_names : List String
  pub agents_in_order : List String

abbrev pub join_refs : Option String → List String
join_refs none = []
join_refs (some n) = n ∷ []

abbrev pub edge_refs : List GraphEdge → List String
edge_refs [] = []
edge_refs (e ∷ edges) = e.from ∷ e.to ∷ edge_refs edges

-- `flow_node_refs`, without the pointers.
unfoldable mutual
  pub flow_node_refs : Flow → List String
  flow_node_refs (single a) = a ∷ []
  flow_node_refs (sequential steps) = ref_names steps
  flow_node_refs (parallel branches join then_) =
      ref_names branches ++ (join_refs join ++ ref_names then_)
  flow_node_refs (supervisor s workers) = s.supervisor ∷ ref_names workers
  flow_node_refs (graph g) = g.start ∷ edge_refs g.edges

  pub ref_names : Refs → List String
  ref_names no_refs = []
  ref_names (ref n rs) = n ∷ ref_names rs
  ref_names (nested n f rs) = flow_node_refs f ++ ref_names rs

-- `validate_flow_refs`: the first unknown name.
unfoldable pub first_unknown : List String → List String → Option String
first_unknown known [] = none
first_unknown known (n ∷ names) =
    let later = first_unknown known names in
    if n == end_sentinel then later else if contains n known then later else some n

unfoldable pub validate_flow_refs : Project → Flow → Option String
validate_flow_refs p flow =
    first_unknown (p.system_agents ++ p.system_functions) (flow_node_refs flow)
