-- ===== src/Orchestration/Patterns/Positions.antt =====
-- The plan that src/foundry/orchestration/patterns.py builds has the leaves of the flow, each once.
use agent_foundry.Prelude.{
  ℕ, zero, suc, ◌+◌, String, ◌≡◌, ◌⊎◌, inl, inr, refl, sym, ap, subst, ◌∙◌, Bool, true, false, not,
  ◌&&◌, ◌||◌, Option, none, some, List, [], ◌∷◌, ◌++◌, ok, ◌>>◌, >>=-eq-ok, >>-eq-ok, raise_if,
  arith, Bool-cases, eq_string, ◌==◌, contains, sorted, difference, Distinct,
}
use agent_foundry.Prelude.Dict
use agent_foundry.Prelude.Dict.{keys}
use agent_foundry.Orchestration.Predicates.{Expr, compile_predicate}
use agent_foundry.Orchestration.Graph.{
  GraphFlow, node_names, group_edges, check_graph_shape, end_sentinel,
}
use agent_foundry.Orchestration.Patterns.{
  SupervisorFlow, Flow, single, sequential, parallel, supervisor, graph, Refs, no_refs, ref, nested,
  LeafNode, SupervisorPlan, PlanNode, leaf_node, sequential_plan, parallel_plan, supervisor_plan,
  graph_plan, Plans, no_plans, plans, plan_names, unknown_handoffs, unknown_targets,
  supervisor_is_worker, bad_escalation, Project, Builder, flow_node_refs, ref_names, join_refs,
  unsupported_mode, no_forced_return, not_an_agent,
}
use agent_foundry.Orchestration.Patterns.Build.{
  Built, leaf, subflow_name, leaf_option, leaf_list, supervisor_start, supervisor_rules, names_or,
  refuse_names, workers_may_end, compile_option, is_worker, compile_graph, as_shape, as_predicate,
  check_depth, compile_pattern, compile_refs, compile_flow, new_builder,
}
use agent_foundry.Orchestration.Patterns.Leaves.{
  leaf_names, join_names, plan_leaves, plans_leaves, Grown, Grown-none, Grown-append, leaf-Grown,
}

abbrev pub is_graph : Flow → Bool
is_graph (single a) = false
is_graph (sequential steps) = false
is_graph (parallel bs join then_) = false
is_graph (supervisor s workers) = false
is_graph (graph g) = true

-- The leaves of a plan are the names in the flow, but for a graph at the top, whose names repeat.
abbrev pub FromFlow : Flow → ℕ → PlanNode → Type 0
FromFlow flow depth plan =
    ((depth ≡ 0) × (is_graph flow ≡ true)) ⊎ (plan_leaves plan ≡ flow_node_refs flow)

FromFlow-nested :
    (flow : Flow) (depth : ℕ) (plan : PlanNode)
    → FromFlow flow (depth + 1) plan
    → plan_leaves plan ≡ flow_node_refs flow
FromFlow-nested flow depth plan (inl (top, _)) = absurd (ground (arith, top))
FromFlow-nested flow depth plan (inr same) = same

-- Whatever holds of what is built holds of what the build returns.
pub Built-subst :
    {A : Type 0} (P : A → Builder → Type 0) (a a' : A) (b b' : Builder)
    → let built : Built A = ok (a, b) in built ≡ ok (a', b') → P a b → P a' b'
Built-subst P a a' b b' e h =
    let left : a ≡ a' = ground (arith, e) in
    let right : b ≡ b' = ground (arith, e) in subst (λ x. P x b') left (subst (λ x. P a x) right h)

module _ (p : Project) where
  leaf_option-Grown :
      (join : Option String) (b b' : Builder) (j : Option LeafNode)
      → leaf_option p join b ≡ ok (j, b')
      → Grown p b b' (join_names j) × (join_names j ≡ join_refs join)
  unfolding leaf_option
  leaf_option-Grown none b b' j h =
      let same : b ≡ b' = ground (arith, h) in
      let empty : none ≡ j = ground (arith, h) in
      subst (λ x. Grown p b b' (join_names x) × (join_names x ≡ [])) empty
        (subst (λ x. Grown p b x []) same (Grown-none p b), refl)
  leaf_option-Grown (some n) b b' j h =
      let ((l, b1), e, f) = >>=-eq-ok (leaf p n b) _ (j, b') h in
      let (g, named) = leaf-Grown p n b b1 l e in
      let same : b1 ≡ b' = ground (arith, f) in
      let is_leaf : some l ≡ j = ground (arith, f) in
      subst (λ x. Grown p b b' (join_names x) × (join_names x ≡ n ∷ [])) is_leaf
        (
          subst (λ x. Grown p b x (l.name ∷ [])) same
              (subst (λ x. Grown p b b1 (x ∷ [])) (sym named) g),
          ap (λ x. x ∷ []) named,
        )

  pub leaf_list-Grown :
      (ns : List String) (b b' : Builder) (ls : List LeafNode)
      → leaf_list p ns b ≡ ok (ls, b')
      → Grown p b b' (leaf_names ls) × (leaf_names ls ≡ ns)
  unfolding leaf_list
  leaf_list-Grown [] b b' ls h =
      let same : b ≡ b' = ground (arith, h) in
      let empty : [] ≡ ls = ground (arith, h) in
      subst (λ x. Grown p b b' (leaf_names x) × (leaf_names x ≡ [])) empty
        (subst (λ x. Grown p b x []) same (Grown-none p b), refl)
  leaf_list-Grown (n ∷ ns) b b' ls h =
      let ((l, b1), e, f) = >>=-eq-ok (leaf p n b) _ (ls, b') h in
      let ((ms, b2), e2, f2) = >>=-eq-ok (leaf_list p ns b1) _ (ls, b') f in
      let (g, named) = leaf-Grown p n b b1 l e in
      let (g2, rest) = leaf_list-Grown ns b1 b2 ms e2 in
      let same : b2 ≡ b' = ground (arith, f2) in
      let is_list : l ∷ ms ≡ ls = ground (arith, f2) in
      subst (λ x. Grown p b b' (leaf_names x) × (leaf_names x ≡ n ∷ ns)) is_list
        (
          subst (λ x. Grown p b x (l.name ∷ leaf_names ms)) same
              (Grown-append p b b1 b2 (l.name ∷ []) (leaf_names ms)
                (subst (λ x. Grown p b b1 (x ∷ [])) (sym named) g) g2),
          ground (arith, named, rest),
        )

  -- A compiled graph has a leaf for each node.
  compile_graph-Grown :
      (parse : String → Option Expr) (flow : GraphFlow) (name : String) (b b' : Builder)
      (plan : PlanNode)
      → compile_graph parse p flow name b ≡ ok (plan, b')
      → Grown p b b' (plan_leaves plan)
  unfolding compile_graph plan_leaves
  compile_graph-Grown parse flow name b b' plan h =
      let (nodes, e, f) = >>=-eq-ok (as_shape (node_names flow)) _ (plan, b') h in
      let (edges, e2, f2) =
        >>=-eq-ok
          (as_predicate (group_edges (compile_predicate parse (some p.state_fields)) flow.edges []))
          _ (plan, b') f in
      let f3 = >>-eq-ok (as_shape (check_graph_shape flow nodes edges)) _ (plan, b') f2 in
      let ((leaves, b1), e4, f4) = >>=-eq-ok (leaf_list p nodes b) _ (plan, b') f3 in
      let (g, named) = leaf_list-Grown nodes b b1 leaves e4 in
      let same : b1 ≡ b' = ground (arith, f4) in
      let made : graph_plan
            (record { name = name; start = flow.start; nodes = leaves; edges_by_source = edges })
          ≡ plan =
        ground (arith, f4) in
      subst (λ x. Grown p b b' (plan_leaves x)) made
        (subst (λ x. Grown p b x (leaf_names leaves)) same g)

  pub supervisor_rules-supervisor :
      (parse : String → Option Expr) (s : SupervisorFlow) (name : String) (workers : List String)
      (plan : SupervisorPlan)
      → supervisor_rules parse p s name workers ≡ ok plan
      → plan.supervisor ≡ s.supervisor
  unfolding supervisor_rules
  supervisor_rules-supervisor parse s name workers plan h =
      let all_targets = workers ++ end_sentinel ∷ [] in
      let targets = names_or (Dict.get s.allowed_handoffs s.supervisor) all_targets in
      let h1 =
        >>-eq-ok (raise_if (contains s.supervisor workers) (supervisor_is_worker s.supervisor)) _
          plan h in
      let h2 =
        >>-eq-ok
          (refuse_names unknown_handoffs
            (sorted (difference (keys s.allowed_handoffs) (s.supervisor ∷ workers))))
          _ plan h1 in
      let h3 =
        >>-eq-ok (refuse_names unknown_targets (sorted (difference targets all_targets))) _ plan
          h2 in
      let (may_end, _, h4) = >>=-eq-ok (workers_may_end s workers []) _ plan h3 in
      let (when, _, h5) = >>=-eq-ok (compile_option parse p s.when) _ plan h4 in
      let h6 =
        >>-eq-ok
          (raise_if (s.on_max_hops == "escalate" && not (is_worker s.escalate_to workers))
            (bad_escalation s.supervisor))
          _ plan h5 in
      ground (arith, h6)

  supervisor_start-Grown :
      (s : SupervisorFlow) (b b' : Builder) (l : LeafNode)
      → supervisor_start p s b ≡ ok (l, b')
      → Grown p b b' (s.supervisor ∷ [])
  unfolding supervisor_start
  supervisor_start-Grown s b b' l h =
      let h1 = >>-eq-ok (raise_if (not (s.mode == "llm")) unsupported_mode) _ (l, b') h in
      let h2 =
        >>-eq-ok (raise_if (not s.force_return_to_supervisor) no_forced_return) _ (l, b') h1 in
      let h3 =
        >>-eq-ok (raise_if (not (contains s.supervisor p.agents)) (not_an_agent s.supervisor)) _
          (l, b') h2 in
      (leaf-Grown p s.supervisor b b' l h3).0

  -- A name for a nested flow uses up no leaf.
  subflow_name-Grown :
      (reserved : String → Bool) (n : String) (b b' b'' : Builder) (leaves : List String)
      → subflow_name reserved p n b ≡ ok b'
      → Grown p b' b'' leaves
      → Grown p b b'' leaves
  unfolding subflow_name
  subflow_name-Grown reserved n b b' b'' leaves h g =
      let taken =
        contains n (p.system_agents ++ p.system_functions) || contains n b.subflow_names in
      elim (Bool-cases taken) [
        | inl used ↦ absurd (ground (arith, h, used))
        | inr new ↦ elim (Bool-cases (reserved n)) [
          | inl ends ↦ absurd (ground (arith, h, new, ends))
          | inr fine ↦
              let same_used : b'.used_leaves ≡ b.used_leaves = ground (arith, h, new, fine) in
              let same_agents : b'.agents_in_order ≡ b.agents_in_order =
                ground (arith, h, new, fine) in
              record {
                used = g.used ∙ ap (λ us. us ++ leaves) same_used;
                distinct = λ d. g.distinct (subst Distinct (sym same_used) d);
                agents = λ n'.
                    g.agents n'
                    ∙ ap (λ xs. contains n' xs || (contains n' leaves && contains n' p.agents))
                        same_agents;
              }
        ]
      ]

  module _ (parse : String → Option Expr) (reserved : String → Bool) where
    mutual
      unfolding compile_pattern compile_refs compile_graph plan_leaves plans_leaves flow_node_refs
          ref_names

      compile_pattern-Grown :
          (flow : Flow) (name : String) (depth : ℕ) (b b' : Builder) (plan : PlanNode)
          → compile_pattern parse reserved p flow name depth b ≡ ok (plan, b')
          → Grown p b b' (plan_leaves plan) × FromFlow flow depth plan
      compile_pattern-Grown (single a) name zero b b' plan h =
          let ((l, b1), e, f) = >>=-eq-ok (leaf p a b) _ (plan, b') h in
          let (g, named) = leaf-Grown p a b b1 l e in
          Built-subst (λ q c. Grown p b c (plan_leaves q) × FromFlow (single a) zero q)
            (leaf_node l) plan b1 b' f
            (subst (λ x. Grown p b b1 (x ∷ [])) (sym named) g, inr (ap (λ x. x ∷ []) named))
      compile_pattern-Grown (single a) name (suc depth) b b' plan h =
          let ((l, b1), e, f) = >>=-eq-ok (leaf p a b) _ (plan, b') h in
          let (g, named) = leaf-Grown p a b b1 l e in
          Built-subst (λ q c. Grown p b c (plan_leaves q) × FromFlow (single a) (suc depth) q)
            (sequential_plan name (plans (leaf_node l) no_plans)) plan b1 b' f
            (subst (λ x. Grown p b b1 (x ∷ [])) (sym named) g, inr (ap (λ x. x ∷ []) named))
      compile_pattern-Grown (sequential steps) name depth b b' plan h =
          let ((ps, b1), e, f) =
            >>=-eq-ok (compile_refs parse reserved p steps depth b) _ (plan, b') h in
          let (g, same) = compile_refs-Grown steps depth b b1 ps e in
          Built-subst (λ q c. Grown p b c (plan_leaves q) × FromFlow (sequential steps) depth q)
            (sequential_plan name ps) plan b1 b' f (g, inr same)
      compile_pattern-Grown (parallel branches join then_) name depth b b' plan h =
          let ((bs, b1), e1, f1) =
            >>=-eq-ok (compile_refs parse reserved p branches depth b) _ (plan, b') h in
          let ((j, b2), e2, f2) = >>=-eq-ok (leaf_option p join b1) _ (plan, b') f1 in
          let ((ts, b3), e3, f3) =
            >>=-eq-ok (compile_refs parse reserved p then_ depth b2) _ (plan, b') f2 in
          let (g1, same1) = compile_refs-Grown branches depth b b1 bs e1 in
          let (g2, same2) = leaf_option-Grown join b1 b2 j e2 in
          let (g3, same3) = compile_refs-Grown then_ depth b2 b3 ts e3 in
          Built-subst
            (λ q c. Grown p b c (plan_leaves q) × FromFlow (parallel branches join then_) depth q)
            (parallel_plan name bs j ts) plan b3 b' f3
            (
              Grown-append p b b1 b3 _ _ g1 (Grown-append p b1 b2 b3 _ _ g2 g3),
              inr (ground (arith, same1, same2, same3)),
            )
      compile_pattern-Grown (supervisor s workers) name depth b b' plan h =
          let ((l, b1), e1, f1) = >>=-eq-ok (supervisor_start p s b) _ (plan, b') h in
          let ((ws, b2), e2, f2) =
            >>=-eq-ok (compile_refs parse reserved p workers depth b1) _ (plan, b') f1 in
          let (sp, e3, f3) =
            >>=-eq-ok (supervisor_rules parse p s name (plan_names ws)) _ (plan, b') f2 in
          let (g2, same2) = compile_refs-Grown workers depth b1 b2 ws e2 in
          let named = supervisor_rules-supervisor parse s name (plan_names ws) sp e3 in
          let g = Grown-append p b b1 b2 _ _ (supervisor_start-Grown s b b1 l e1) g2 in
          Built-subst (λ q c. Grown p b c (plan_leaves q) × FromFlow (supervisor s workers) depth q)
            (supervisor_plan sp ws) plan b2 b' f3
            (
              subst (λ x. Grown p b b2 (x ∷ plans_leaves ws)) (sym named) g,
              inr (ground (arith, named, same2)),
            )
      compile_pattern-Grown (graph g) name zero b b' plan h =
          (compile_graph-Grown parse g name b b' plan h, inl (refl, refl))
      compile_pattern-Grown (graph g) name (suc depth) b b' plan h = absurd (ground (arith, h))

      compile_refs-Grown :
          (rs : Refs) (depth : ℕ) (b b' : Builder) (ps : Plans)
          → compile_refs parse reserved p rs depth b ≡ ok (ps, b')
          → Grown p b b' (plans_leaves ps) × (plans_leaves ps ≡ ref_names rs)
      compile_refs-Grown no_refs depth b b' ps h =
          Built-subst (λ q c. Grown p b c (plans_leaves q) × (plans_leaves q ≡ [])) no_plans ps b b'
            h (Grown-none p b, refl)
      compile_refs-Grown (ref n rs) depth b b' ps h =
          let ((l, b1), e1, f1) = >>=-eq-ok (leaf p n b) _ (ps, b') h in
          let ((qs, b2), e2, f2) =
            >>=-eq-ok (compile_refs parse reserved p rs depth b1) _ (ps, b') f1 in
          let (g1, named) = leaf-Grown p n b b1 l e1 in
          let (g2, same) = compile_refs-Grown rs depth b1 b2 qs e2 in
          Built-subst (λ q c. Grown p b c (plans_leaves q) × (plans_leaves q ≡ n ∷ ref_names rs))
            (plans (leaf_node l) qs) ps b2 b' f2
            (
              Grown-append p b b1 b2 (l.name ∷ []) _
                  (subst (λ x. Grown p b b1 (x ∷ [])) (sym named) g1) g2,
              ground (arith, named, same),
            )
      compile_refs-Grown (nested n flow rs) depth b b' ps h =
          let (b1, e1, f1) = >>=-eq-ok (subflow_name reserved p n b) _ (ps, b') h in
          let ((q, b2), e2, f2) =
            >>=-eq-ok
              (check_depth parse reserved p n (depth + 1)
                >> compile_pattern parse reserved p flow n (depth + 1) b1)
              _ (ps, b') f1 in
          let e3 =
            >>-eq-ok (check_depth parse reserved p n (depth + 1))
              (compile_pattern parse reserved p flow n (depth + 1) b1) (q, b2) e2 in
          let ((qs, b3), e4, f4) =
            >>=-eq-ok (compile_refs parse reserved p rs depth b2) _ (ps, b') f2 in
          let (g1, same1) = compile_pattern-Grown flow n (depth + 1) b1 b2 q e3 in
          let (g2, same2) = compile_refs-Grown rs depth b2 b3 qs e4 in
          let same = FromFlow-nested flow depth q same1 in
          Built-subst
            (λ q c.
              Grown p b c (plans_leaves q) × (plans_leaves q ≡ flow_node_refs flow ++ ref_names rs))
            (plans q qs) ps b3 b' f4
            (
              Grown-append p b b2 b3 _ _ (subflow_name-Grown reserved n b b1 b2 _ e1 g1) g2,
              ground (arith, same, same2),
            )

-- A flow that compiles has each of its leaves once: no leaf of the plan comes twice, the leaves are
-- the names in the flow in their order unless the flow is a graph at the top, a graph is at the top
-- only, and the agents the builder has met are the leaves that the project has as agents.
pub compile_flow-leaves :
    (parse : String → Option Expr) (reserved : String → Bool) (p : Project) (flow : Flow)
    (name : String) (depth : ℕ) (b : Builder) (plan : PlanNode)
    → compile_flow parse reserved p flow name depth new_builder ≡ ok (plan, b)
    → Distinct (plan_leaves plan)
      × (FromFlow flow depth plan
          × ((n : String)
              → contains n b.agents_in_order
                ≡ (contains n (plan_leaves plan) && contains n p.agents)))
unfolding compile_flow
compile_flow-leaves parse reserved p flow name depth b plan h =
    let e =
      >>-eq-ok (check_depth parse reserved p name depth)
        (compile_pattern parse reserved p flow name depth new_builder) (plan, b) h in
    let (g, same) = compile_pattern-Grown p parse reserved flow name depth new_builder b plan e in
    (subst Distinct g.used (g.distinct tt), (same, λ n. g.agents n))
