-- ===== src/Orchestration/Patterns/PrimaryAgent.antt =====
-- The primary agent of a plan that src/foundry/orchestration/patterns.py builds is one of its agents.
use agent_foundry.Prelude.{
  ℕ, zero, suc, ◌+◌, String, ◌≡◌, ◌⊎◌, inl, inr, refl, sym, subst, ◌∙◌, Bool, true, false, ◌&&◌,
  Option, none, some, List, [], ◌∷◌, ◌++◌, Result, ok, err, ◌>>=◌, ◌>>◌, >>=-eq-ok, >>-eq-ok, arith,
  Bool-cases, eq_string, ==-refl, contains,
}
use agent_foundry.Prelude.Dict.{Dict, keys}
use agent_foundry.Orchestration.Predicates.{Expr, CompiledPredicate, compile_predicate}
use agent_foundry.Orchestration.Graph.{
  GraphFlow, CompiledEdge, node_names, group_edges, check_graph_shape,
}
use agent_foundry.Orchestration.Patterns.{
  SupervisorFlow, Flow, single, sequential, parallel, supervisor, graph, Refs, no_refs, ref, nested,
  LeafNode, PlanNode, leaf_node, sequential_plan, parallel_plan, supervisor_plan, graph_plan, Plans,
  no_plans, plans, plan_names, PlanError, Project, Builder, no_agent,
}
use agent_foundry.Orchestration.Patterns.Build.{
  Built, leaf, subflow_name, leaf_option, leaf_list, supervisor_start, supervisor_rules,
  compile_graph, as_shape, as_predicate, check_depth, compile_pattern, compile_refs, compile_flow,
  new_builder,
}
use agent_foundry.Orchestration.Patterns.Leaves.{leaf_names, join_names, plan_leaves, plans_leaves}
use agent_foundry.Orchestration.Patterns.Positions.{
  supervisor_rules-supervisor, leaf_list-Grown, Built-subst, compile_flow-leaves,
}
use agent_foundry.Orchestration.Patterns.Agents.{
  LastFits, LastFits-append, LastFits-or_else, or_else_assoc, Fits, AllFit, leaf_agent-LastFits,
  last_declared-LastFits, last_to_end-cases, keys-node_names, as_shape-ok, as_predicate-ok,
}
use agent_foundry.Orchestration.Patterns.Primary.{
  FlowPlan, leaf_agent, join_agent, or_else, last_to_end, last_declared, last_agent, last_step,
  flow_plan, plan_flow,
}

module _ (p : Project) where
  leaf-Fits :
      (n : String) (b b' : Builder) (l : LeafNode) → leaf p n b ≡ ok (l, b') → Fits p.agents l
  unfolding leaf
  leaf-Fits n b b' l h = elim (Bool-cases (contains n b.used_leaves)) [
    | inl used ↦ absurd (ground (arith, h, used))
    | inr new ↦ elim (Bool-cases (contains n p.agents)) [
      | inl is ↦ ground (arith, h, new, is)
      | inr other ↦ ground (arith, h, new, other)
    ]
  ]

  leaf_list-AllFit :
      (ns : List String) (b b' : Builder) (ls : List LeafNode)
      → leaf_list p ns b ≡ ok (ls, b')
      → AllFit p.agents ls
  unfolding leaf_list
  leaf_list-AllFit [] b b' ls h =
      let empty : [] ≡ ls = ground (arith, h) in subst (AllFit p.agents) empty tt
  leaf_list-AllFit (n ∷ ns) b b' ls h =
      let ((l, b1), e, f) = >>=-eq-ok (leaf p n b) _ (ls, b') h in
      let ((ms, b2), e2, f2) = >>=-eq-ok (leaf_list p ns b1) _ (ls, b') f in
      let is_list : l ∷ ms ≡ ls = ground (arith, f2) in
      subst (AllFit p.agents) is_list (leaf-Fits n b b1 l e, leaf_list-AllFit ns b1 b2 ms e2)

  leaf_option-LastFits :
      (join : Option String) (b b' : Builder) (j : Option LeafNode)
      → leaf_option p join b ≡ ok (j, b')
      → LastFits p.agents (join_names j) (join_agent j)
  unfolding leaf_option
  leaf_option-LastFits none b b' j h =
      let empty : none ≡ j = ground (arith, h) in
      subst (λ x. LastFits p.agents (join_names x) (join_agent x)) empty (λ n. refl)
  leaf_option-LastFits (some n) b b' j h =
      let ((l, b1), e, f) = >>=-eq-ok (leaf p n b) _ (j, b') h in
      let is_leaf : some l ≡ j = ground (arith, f) in
      subst (λ x. LastFits p.agents (join_names x) (join_agent x)) is_leaf
        (leaf_agent-LastFits p.agents l (leaf-Fits n b b1 l e))

  supervisor_start-agent :
      (s : SupervisorFlow) (b b' : Builder) (l : LeafNode)
      → supervisor_start p s b ≡ ok (l, b')
      → contains s.supervisor p.agents ≡ true
  unfolding supervisor_start
  supervisor_start-agent s b b' l h = elim (Bool-cases (contains s.supervisor p.agents)) [
    | inl is ↦ is
    | inr other ↦ absurd (ground (arith, h, other))
  ]

  -- What a part that was built fits.
  abbrev PlanFits : PlanNode → Type 0
  PlanFits plan = LastFits p.agents (plan_leaves plan) (last_agent p.agents plan)

  graph_agent-LastFits :
      (ls : List LeafNode) (d : Dict String (List (CompiledEdge CompiledPredicate)))
      → AllFit p.agents ls
      → ((n : String) → contains n (keys d) ≡ true → contains n (leaf_names ls) ≡ true)
      → LastFits p.agents
          (leaf_names ls)
          (or_else (last_to_end p.agents d none) (last_declared ls none))
  graph_agent-LastFits ls d fits within =
      let declared : LastFits p.agents (leaf_names ls) (last_declared ls none) =
        last_declared-LastFits p.agents [] ls none fits (λ n. refl) in
      let P : Option String → Type 0 =
        λ o. LastFits p.agents (leaf_names ls) (or_else o (last_declared ls none)) in
      elim (last_to_end-cases p.agents d (leaf_names ls) none within (inl refl)) [
        | inl nowhere ↦ subst P (sym nowhere) declared
        | inr found ↦
            LastFits-or_else p.agents (leaf_names ls) (last_to_end p.agents d none) _ found declared
      ]

  compile_graph-PlanFits :
      (parse : String → Option Expr) (flow : GraphFlow) (name : String) (b b' : Builder)
      (plan : PlanNode)
      → compile_graph parse p flow name b ≡ ok (plan, b')
      → PlanFits plan
  unfolding compile_graph plan_leaves last_agent node_names
  compile_graph-PlanFits parse flow name b b' plan h =
      let (nodes, e, f) = >>=-eq-ok (as_shape (node_names flow)) _ (plan, b') h in
      let (edges, e2, f2) =
        >>=-eq-ok
          (as_predicate (group_edges (compile_predicate parse (some p.state_fields)) flow.edges []))
          _ (plan, b') f in
      let f3 = >>-eq-ok (as_shape (check_graph_shape flow nodes edges)) _ (plan, b') f2 in
      let ((leaves, b1), e4, f4) = >>=-eq-ok (leaf_list p nodes b) _ (plan, b') f3 in
      let (_, named) = leaf_list-Grown p nodes b b1 leaves e4 in
      let parsed = compile_predicate parse (some p.state_fields) in
      let sources = as_predicate-ok (group_edges parsed flow.edges []) edges e2 in
      let all_nodes = as_shape-ok (node_names flow) nodes e in
      let made : graph_plan
            (record { name = name; start = flow.start; nodes = leaves; edges_by_source = edges })
          ≡ plan =
        ground (arith, f4) in
      subst PlanFits made (
        graph_agent-LastFits leaves edges (leaf_list-AllFit nodes b b1 leaves e4) (λ n i.
          subst (λ ns. contains n ns ≡ true) (sym named)
            (keys-node_names parsed flow edges nodes n all_nodes sources i)))

  module _ (parse : String → Option Expr) (reserved : String → Bool) where
    mutual
      unfolding compile_pattern compile_refs plan_leaves plans_leaves last_agent last_step

      compile_pattern-PlanFits :
          (flow : Flow) (name : String) (depth : ℕ) (b b' : Builder) (plan : PlanNode)
          → compile_pattern parse reserved p flow name depth b ≡ ok (plan, b')
          → PlanFits plan
      compile_pattern-PlanFits (single a) name zero b b' plan h =
          let ((l, b1), e, f) = >>=-eq-ok (leaf p a b) _ (plan, b') h in
          Built-subst (λ q c. PlanFits q) (leaf_node l) plan b1 b' f
            (leaf_agent-LastFits p.agents l (leaf-Fits a b b1 l e))
      compile_pattern-PlanFits (single a) name (suc depth) b b' plan h =
          let ((l, b1), e, f) = >>=-eq-ok (leaf p a b) _ (plan, b') h in
          Built-subst (λ q c. PlanFits q) (sequential_plan name (plans (leaf_node l) no_plans)) plan
            b1 b' f (leaf_agent-LastFits p.agents l (leaf-Fits a b b1 l e))
      compile_pattern-PlanFits (sequential steps) name depth b b' plan h =
          let ((ps, b1), e, f) =
            >>=-eq-ok (compile_refs parse reserved p steps depth b) _ (plan, b') h in
          Built-subst (λ q c. PlanFits q) (sequential_plan name ps) plan b1 b' f
            (compile_refs-LastFits steps depth b b1 ps e)
      compile_pattern-PlanFits (parallel branches join then_) name depth b b' plan h =
          let ((bs, b1), e1, f1) =
            >>=-eq-ok (compile_refs parse reserved p branches depth b) _ (plan, b') h in
          let ((j, b2), e2, f2) = >>=-eq-ok (leaf_option p join b1) _ (plan, b') f1 in
          let ((ts, b3), e3, f3) =
            >>=-eq-ok (compile_refs parse reserved p then_ depth b2) _ (plan, b') f2 in
          let later =
            LastFits-append p.agents (join_names j) (plans_leaves ts) (join_agent j)
              (last_step p.agents ts) (leaf_option-LastFits join b1 b2 j e2)
              (compile_refs-LastFits then_ depth b2 b3 ts e3) in
          Built-subst (λ q c. PlanFits q) (parallel_plan name bs j ts) plan b3 b' f3
            (subst (LastFits p.agents (plans_leaves bs ++ (join_names j ++ plans_leaves ts)))
              (or_else_assoc p.agents (last_step p.agents ts) (join_agent j)
                (last_step p.agents bs))
              (LastFits-append p.agents (plans_leaves bs) _ (last_step p.agents bs) _
                (compile_refs-LastFits branches depth b b1 bs e1) later))
      compile_pattern-PlanFits (supervisor s workers) name depth b b' plan h =
          let ((l, b1), e1, f1) = >>=-eq-ok (supervisor_start p s b) _ (plan, b') h in
          let ((ws, b2), e2, f2) =
            >>=-eq-ok (compile_refs parse reserved p workers depth b1) _ (plan, b') f1 in
          let (sp, e3, f3) =
            >>=-eq-ok (supervisor_rules parse p s name (plan_names ws)) _ (plan, b') f2 in
          let named = supervisor_rules-supervisor p parse s name (plan_names ws) sp e3 in
          let is = supervisor_start-agent s b b1 l e1 in
          Built-subst (λ q c. PlanFits q) (supervisor_plan sp ws) plan b2 b' f3
            (ground (arith, named, is, ==-refl sp.supervisor))
      compile_pattern-PlanFits (graph g) name zero b b' plan h =
          compile_graph-PlanFits parse g name b b' plan h
      compile_pattern-PlanFits (graph g) name (suc depth) b b' plan h = absurd (ground (arith, h))

      compile_refs-LastFits :
          (rs : Refs) (depth : ℕ) (b b' : Builder) (ps : Plans)
          → compile_refs parse reserved p rs depth b ≡ ok (ps, b')
          → LastFits p.agents (plans_leaves ps) (last_step p.agents ps)
      compile_refs-LastFits no_refs depth b b' ps h =
          Built-subst (λ q c. LastFits p.agents (plans_leaves q) (last_step p.agents q)) no_plans ps
            b b' h (λ n. refl)
      compile_refs-LastFits (ref n rs) depth b b' ps h =
          let ((l, b1), e1, f1) = >>=-eq-ok (leaf p n b) _ (ps, b') h in
          let ((qs, b2), e2, f2) =
            >>=-eq-ok (compile_refs parse reserved p rs depth b1) _ (ps, b') f1 in
          Built-subst (λ q c. LastFits p.agents (plans_leaves q) (last_step p.agents q))
            (plans (leaf_node l) qs) ps b2 b' f2
            (LastFits-append p.agents (l.name ∷ []) (plans_leaves qs) (leaf_agent l)
              (last_step p.agents qs) (leaf_agent-LastFits p.agents l (leaf-Fits n b b1 l e1))
              (compile_refs-LastFits rs depth b1 b2 qs e2))
      compile_refs-LastFits (nested n flow rs) depth b b' ps h =
          let (b1, e1, f1) = >>=-eq-ok (subflow_name reserved p n b) _ (ps, b') h in
          let ((q, b2), e2, f2) =
            >>=-eq-ok
              (check_depth parse reserved p n (depth + 1)
                >> compile_pattern parse reserved p flow n (depth + 1) b1)
              _ (ps, b') f1 in
          let e3 =
            >>-eq-ok (check_depth parse reserved p n (depth + 1))
              (compile_pattern parse reserved p flow n (depth + 1) b1) (q, b2) e2 in
          let ((qs, b3), e4, f4) =
            >>=-eq-ok (compile_refs parse reserved p rs depth b2) _ (ps, b') f2 in
          Built-subst (λ q c. LastFits p.agents (plans_leaves q) (last_step p.agents q))
            (plans q qs) ps b3 b' f4
            (LastFits-append p.agents (plan_leaves q) (plans_leaves qs) (last_agent p.agents q)
              (last_step p.agents qs) (compile_pattern-PlanFits flow n (depth + 1) b1 b2 q e3)
              (compile_refs-LastFits rs depth b2 b3 qs e4))

-- What `plan_flow` returns has a primary agent that is a leaf of the plan and one of the flow's agents;
-- what it raises is the builder's error, or that there is no agent, and then the flow that was built
-- has none.
abbrev pub FlowVerdict :
    (String → Option Expr) → (String → Bool) → Project → Flow → Result PlanError FlowPlan → Type 0
FlowVerdict parse reserved p flow (ok f) =
    (contains f.primary_agent (plan_leaves f.root) ≡ true)
    × (contains f.primary_agent f.agents ≡ true)
FlowVerdict parse reserved p flow (err e) =
    (compile_flow parse reserved p flow "" 0 new_builder ≡ err e)
    ⊎ ((e ≡ no_agent)
        × ((plan : PlanNode) × ((b : Builder) × ((compile_flow parse reserved p flow "" 0
                    new_builder
                  ≡ ok (plan, b))
                × ((n : String) → contains n b.agents_in_order ≡ false)))))

module _ (parse : String → Option Expr) (reserved : String → Bool) (p : Project) (flow : Flow) where
  flow_plan-FlowVerdict :
      (plan : PlanNode) (b : Builder) (o : Option String)
      → compile_flow parse reserved p flow "" 0 new_builder ≡ ok (plan, b)
      → ((n : String)
          → contains n b.agents_in_order ≡ (contains n (plan_leaves plan) && contains n p.agents))
      → LastFits p.agents (plan_leaves plan) o
      → FlowVerdict parse reserved p flow (flow_plan plan b o)
  flow_plan-FlowVerdict plan b none good agents fits =
      inr (refl, (plan, (b, (good, λ n. agents n ∙ fits n))))
  flow_plan-FlowVerdict plan b (some n) good agents fits = (ground (arith, fits), agents n ∙ fits)

  built-FlowVerdict :
      (built : Built PlanNode)
      → compile_flow parse reserved p flow "" 0 new_builder ≡ built
      → FlowVerdict parse reserved p flow
          (built >>= λ (root, b). flow_plan root b (last_agent p.agents root))
  unfolding compile_flow
  built-FlowVerdict (err e) bad = inl bad
  built-FlowVerdict (ok (plan, b)) good =
      let (_, (_, agents)) = compile_flow-leaves parse reserved p flow "" 0 b plan good in
      flow_plan-FlowVerdict plan b (last_agent p.agents plan) good agents (
        compile_pattern-PlanFits p parse reserved flow "" 0 new_builder b plan (
          >>-eq-ok (check_depth parse reserved p "" 0)
            (compile_pattern parse reserved p flow "" 0 new_builder) (plan, b) good))

-- For every project and flow, what `plan_flow` returns has a primary agent that is a leaf of the plan
-- and one of the flow's agents, and what it raises is the builder's error or, only when the flow that
-- was built has no agent, that there is none.
pub plan_flow-FlowVerdict :
    (parse : String → Option Expr) (reserved : String → Bool) (p : Project) (flow : Flow)
    → FlowVerdict parse reserved p flow (plan_flow parse reserved p flow)
unfolding plan_flow
plan_flow-FlowVerdict parse reserved p flow =
    built-FlowVerdict parse reserved p flow (compile_flow parse reserved p flow "" 0 new_builder)
      refl
