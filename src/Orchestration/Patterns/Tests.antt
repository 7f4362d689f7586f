-- ===== src/Orchestration/Patterns/Tests.antt =====
-- Runs of src/foundry/orchestration/patterns.py on a small project.
use agent_foundry.Prelude.{
  ◌+◌, ◌≤◌, String, ◌≡◌, refl, Bool, false, ◌&&◌, Option, none, some, [], ◌∷◌, ok, err, contains,
  eq_string, Distinct,
}
use agent_foundry.Orchestration.Predicates.{Expr}
use agent_foundry.Orchestration.Patterns.{
  Flow, sequential, parallel, no_refs, ref, nested, agent, function, PlanNode, leaf_node,
  sequential_plan, parallel_plan, no_plans, plans, repeated_node, no_agent, Project, Builder,
  flow_node_refs, ref_names, first_unknown, validate_flow_refs,
}
use agent_foundry.Orchestration.Patterns.Build.{
  leaf, subflow_name, leaf_option, compile_pattern, compile_refs, compile_flow, new_builder,
}
use agent_foundry.Orchestration.Patterns.Leaves.{plan_leaves}
use agent_foundry.Orchestration.Patterns.Positions.{FromFlow, compile_flow-leaves}
use agent_foundry.Orchestration.Patterns.Depth.{nesting, compile_flow-nesting}
use agent_foundry.Orchestration.Patterns.Primary.{last_agent, last_step, plan_flow}
use agent_foundry.Orchestration.Patterns.PrimaryAgent.{FlowVerdict, plan_flow-FlowVerdict}

abbrev newsroom : Project
newsroom = record {
  agents = "writer" ∷ "critic" ∷ [];
  system_agents = "writer" ∷ "critic" ∷ [];
  system_functions = "save" ∷ "merge" ∷ [];
  state_fields = [];
  max_flow_nesting_depth = 2;
}

abbrev no_predicates : String → Option Expr
no_predicates text = none

abbrev nothing_reserved : String → Bool
nothing_reserved name = false

abbrev review : Flow
review = parallel (ref "critic" no_refs) (some "merge") no_refs

abbrev story : Flow
story = sequential (ref "writer" (nested "review" review (ref "save" no_refs)))

abbrev review_plan : PlanNode
review_plan =
    parallel_plan "review" (plans (leaf_node (record { kind = agent; name = "critic" })) no_plans)
      (some (record { kind = function; name = "merge" })) no_plans

abbrev story_plan : PlanNode
story_plan = sequential_plan "" (
    plans (leaf_node (record { kind = agent; name = "writer" }))
      (plans review_plan (plans (leaf_node (record { kind = function; name = "save" })) no_plans)))

abbrev story_builder : Builder
story_builder = record {
  used_leaves = "writer" ∷ "critic" ∷ "merge" ∷ "save" ∷ [];
  subflow_names = "review" ∷ [];
  agents_in_order = "writer" ∷ "critic" ∷ [];
}

story_compiles :
    compile_flow no_predicates nothing_reserved newsroom story "" 0 new_builder
    ≡ ok (story_plan, story_builder)
unfolding compile_flow compile_pattern compile_refs leaf leaf_option subflow_name
story_compiles = refl

-- The last agent of the story is the critic, since what comes later is functions.
story_planned :
    plan_flow no_predicates nothing_reserved newsroom story
    ≡ ok (record {
      root = story_plan;
      primary_agent = "critic";
      agents = "writer" ∷ "critic" ∷ [];
      subflow_names = "review" ∷ [];
      steps = [];
    })
unfolding plan_flow compile_flow compile_pattern compile_refs leaf leaf_option subflow_name
    last_agent last_step
story_planned = refl

only_functions :
    plan_flow no_predicates nothing_reserved newsroom (sequential (ref "save" no_refs))
    ≡ err no_agent
unfolding plan_flow compile_flow compile_pattern compile_refs leaf last_agent last_step
only_functions = refl

twice :
    plan_flow no_predicates nothing_reserved newsroom
      (sequential (ref "writer" (ref "writer" no_refs)))
    ≡ err (repeated_node "writer")
unfolding plan_flow compile_flow compile_pattern compile_refs leaf
twice = refl

-- A step named END is known to `validate_flow_refs` and becomes a function.
end_is_known : validate_flow_refs newsroom (sequential (ref "writer" (ref "END" no_refs))) ≡ none
unfolding validate_flow_refs first_unknown flow_node_refs ref_names
end_is_known = refl

compile_flow-leaves_example :
    Distinct (plan_leaves story_plan)
    × (FromFlow story 0 story_plan
        × ((n : String)
            → contains n ("writer" ∷ "critic" ∷ [])
              ≡ (contains n (plan_leaves story_plan) && contains n ("writer" ∷ "critic" ∷ []))))
compile_flow-leaves_example =
    compile_flow-leaves no_predicates nothing_reserved newsroom story "" 0 story_builder story_plan
      story_compiles

compile_flow-nesting_example : 0 + nesting story ≤ 2
compile_flow-nesting_example =
    compile_flow-nesting no_predicates nothing_reserved newsroom story "" 0 new_builder
      story_builder story_plan story_compiles

plan_flow-FlowVerdict_example :
    FlowVerdict no_predicates nothing_reserved newsroom story
      (plan_flow no_predicates nothing_reserved newsroom story)
plan_flow-FlowVerdict_example = plan_flow-FlowVerdict no_predicates nothing_reserved newsroom story
