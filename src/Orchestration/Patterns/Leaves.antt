-- ===== src/Orchestration/Patterns/Leaves.antt =====
-- The leaves of the plans that src/foundry/orchestration/patterns.py builds.
use agent_foundry.Prelude.{
  String, ◌≡◌, inl, inr, sym, ap, ◌∙◌, ◌&&◌, ◌||◌, Option, none, some, List, [], ◌∷◌, ◌++◌,
  append_assoc, append-nil, ok, arith, Bool-cases, eq_string, ==_iff, contains, contains-append,
  Distinct, Distinct-snoc,
}
use agent_foundry.Orchestration.Patterns.{
  LeafNode, PlanNode, leaf_node, sequential_plan, parallel_plan, supervisor_plan, graph_plan, Plans,
  no_plans, plans, Project, Builder,
}
use agent_foundry.Orchestration.Patterns.Build.{leaf}

abbrev pub leaf_names : List LeafNode → List String
leaf_names [] = []
leaf_names (l ∷ ls) = l.name ∷ leaf_names ls

abbrev pub join_names : Option LeafNode → List String
join_names none = []
join_names (some l) = l.name ∷ []

-- The leaves of a plan, in the order in which the builder meets them.
unfoldable mutual
  pub plan_leaves : PlanNode → List String
  plan_leaves (leaf_node l) = l.name ∷ []
  plan_leaves (sequential_plan name ps) = plans_leaves ps
  plan_leaves (parallel_plan name bs join then_) =
      plans_leaves bs ++ (join_names join ++ plans_leaves then_)
  plan_leaves (supervisor_plan s ws) = s.supervisor ∷ plans_leaves ws
  plan_leaves (graph_plan g) = leaf_names g.nodes

  pub plans_leaves : Plans → List String
  plans_leaves no_plans = []
  plans_leaves (plans p ps) = plan_leaves p ++ plans_leaves ps

-- What a step adds to the builder's state: some leaves, each of which is new, and those of them that
-- are agents.
pub record Grown (p : Project) (b b' : Builder) (leaves : List String) : Type 0 where
  pub used : b'.used_leaves ≡ b.used_leaves ++ leaves
  pub distinct : Distinct b.used_leaves → Distinct b'.used_leaves
  pub agents :
      (n : String)
      → contains n b'.agents_in_order
        ≡ (contains n b.agents_in_order || (contains n leaves && contains n p.agents))

module _ (p : Project) where
  pub Grown-none : (b : Builder) → Grown p b b []
  Grown-none b = record {
    used = sym (append-nil b.used_leaves);
    distinct = λ d. d;
    agents = λ n. ground arith;
  }

  pub Grown-append :
      (b b' b'' : Builder) (xs ys : List String)
      → Grown p b b' xs
      → Grown p b' b'' ys
      → Grown p b b'' (xs ++ ys)
  Grown-append b b' b'' xs ys g h = record {
    used = h.used ∙ (ap (λ us. us ++ ys) g.used ∙ append_assoc b.used_leaves xs ys);
    distinct = λ d. h.distinct (g.distinct d);
    agents = λ n. ground (arith, g.agents n, h.agents n, contains-append n xs ys);
  }

  -- A leaf is new, it has its name, and it is an agent if the project has it as one.
  pub leaf-Grown :
      (n : String) (b b' : Builder) (l : LeafNode)
      → leaf p n b ≡ ok (l, b')
      → Grown p b b' (n ∷ []) × (l.name ≡ n)
  unfolding leaf
  leaf-Grown n b b' l h = elim (Bool-cases (contains n b.used_leaves)) [
    | inl used ↦ absurd (ground (arith, h, used))
    | inr new ↦ elim (Bool-cases (contains n p.agents)) [
      | inl is_agent ↦ (
        record {
          used = ground (arith, h, new, is_agent);
          distinct = λ d. ground (arith, h, new, is_agent, Distinct-snoc b.used_leaves n d new);
          agents = λ m.
              ground
                (arith, h, new, is_agent, contains-append m b.agents_in_order (n ∷ []), ==_iff n m);
        },
        ground (arith, h, new, is_agent),
      )
      | inr is_function ↦ (
        record {
          used = ground (arith, h, new, is_function);
          distinct = λ d. ground (arith, h, new, is_function, Distinct-snoc b.used_leaves n d new);
          agents = λ m. ground (arith, h, new, is_function, ==_iff n m);
        },
        ground (arith, h, new, is_function),
      )
    ]
  ]
