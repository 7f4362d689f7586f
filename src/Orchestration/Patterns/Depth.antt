-- ===== src/Orchestration/Patterns/Depth.antt =====
-- The cap on the nesting of flows in src/foundry/orchestration/patterns.py.
use agent_foundry.Prelude.{
  ℕ, ◌+◌, ◌≤◌, String, ◌≡◌, inl, inr, Bool, Option, max, ok, ◌>>◌, >>=-eq-ok, >>-eq-ok, arith,
  Bool-cases, ltb,
}
use agent_foundry.Orchestration.Predicates.{Expr}
use agent_foundry.Orchestration.Patterns.{
  Flow, single, sequential, parallel, supervisor, graph, Refs, no_refs, ref, nested, PlanNode,
  Plans, Project, Builder,
}
use agent_foundry.Orchestration.Patterns.Build.{
  Built, leaf, subflow_name, leaf_option, supervisor_start, check_depth, compile_pattern,
  compile_refs, compile_flow,
}

-- How deep flows are nested in a flow, and in some references.
unfoldable mutual
  pub nesting : Flow → ℕ
  nesting (single a) = 0
  nesting (sequential steps) = refs_nesting steps
  nesting (parallel branches join then_) = max (refs_nesting branches) (refs_nesting then_)
  nesting (supervisor s workers) = refs_nesting workers
  nesting (graph g) = 0

  pub refs_nesting : Refs → ℕ
  refs_nesting no_refs = 0
  refs_nesting (ref n rs) = refs_nesting rs
  refs_nesting (nested n flow rs) = max (nesting flow + 1) (refs_nesting rs)

module _ (parse : String → Option Expr) (reserved : String → Bool) (p : Project) where
  -- What the test of the depth lets through.
  check_depth-le :
      (name : String) (depth : ℕ) (built : Built PlanNode) (x : PlanNode × Builder)
      → (check_depth parse reserved p name depth >> built) ≡ ok x
      → depth ≤ p.max_flow_nesting_depth
  check_depth-le name depth built x h = elim (Bool-cases (ltb p.max_flow_nesting_depth depth)) [
    | inl over ↦ absurd (ground (arith, h, over))
    | inr fine ↦ ground (arith, fine)
  ]

  mutual
    unfolding compile_pattern compile_refs nesting refs_nesting

    compile_pattern-nesting :
        (flow : Flow) (name : String) (depth : ℕ) (b b' : Builder) (plan : PlanNode)
        → depth ≤ p.max_flow_nesting_depth
        → compile_pattern parse reserved p flow name depth b ≡ ok (plan, b')
        → depth + nesting flow ≤ p.max_flow_nesting_depth
    compile_pattern-nesting (single a) name depth b b' plan le h = ground arith
    compile_pattern-nesting (sequential steps) name depth b b' plan le h =
        let ((ps, b1), e, f) =
          >>=-eq-ok (compile_refs parse reserved p steps depth b) _ (plan, b') h in
        compile_refs-nesting steps depth b b1 ps le e
    compile_pattern-nesting (parallel branches join then_) name depth b b' plan le h =
        let ((bs, b1), e1, f1) =
          >>=-eq-ok (compile_refs parse reserved p branches depth b) _ (plan, b') h in
        let ((j, b2), e2, f2) = >>=-eq-ok (leaf_option p join b1) _ (plan, b') f1 in
        let ((ts, b3), e3, f3) =
          >>=-eq-ok (compile_refs parse reserved p then_ depth b2) _ (plan, b') f2 in
        let in_branches = compile_refs-nesting branches depth b b1 bs le e1 in
        let in_then = compile_refs-nesting then_ depth b2 b3 ts le e3 in
        ground (arith, in_branches, in_then)
    compile_pattern-nesting (supervisor s workers) name depth b b' plan le h =
        let ((l, b1), e1, f1) = >>=-eq-ok (supervisor_start p s b) _ (plan, b') h in
        let ((ws, b2), e2, f2) =
          >>=-eq-ok (compile_refs parse reserved p workers depth b1) _ (plan, b') f1 in
        compile_refs-nesting workers depth b1 b2 ws le e2
    compile_pattern-nesting (graph g) name depth b b' plan le h = ground arith

    compile_refs-nesting :
        (rs : Refs) (depth : ℕ) (b b' : Builder) (ps : Plans)
        → depth ≤ p.max_flow_nesting_depth
        → compile_refs parse reserved p rs depth b ≡ ok (ps, b')
        → depth + refs_nesting rs ≤ p.max_flow_nesting_depth
    compile_refs-nesting no_refs depth b b' ps le h = ground arith
    compile_refs-nesting (ref n rs) depth b b' ps le h =
        let ((l, b1), e1, f1) = >>=-eq-ok (leaf p n b) _ (ps, b') h in
        let ((qs, b2), e2, f2) =
          >>=-eq-ok (compile_refs parse reserved p rs depth b1) _ (ps, b') f1 in
        compile_refs-nesting rs depth b1 b2 qs le e2
    compile_refs-nesting (nested n flow rs) depth b b' ps le h =
        let (b1, e1, f1) = >>=-eq-ok (subflow_name reserved p n b) _ (ps, b') h in
        let ((q, b2), e2, f2) =
          >>=-eq-ok
            (check_depth parse reserved p n (depth + 1)
              >> compile_pattern parse reserved p flow n (depth + 1) b1)
            _ (ps, b') f1 in
        let e3 =
          >>-eq-ok (check_depth parse reserved p n (depth + 1))
            (compile_pattern parse reserved p flow n (depth + 1) b1) (q, b2) e2 in
        let ((qs, b3), e4, f4) =
          >>=-eq-ok (compile_refs parse reserved p rs depth b2) _ (ps, b') f2 in
        let le1 =
          check_depth-le n (depth + 1) (compile_pattern parse reserved p flow n (depth + 1) b1)
            (q, b2) e2 in
        let in_flow = compile_pattern-nesting flow n (depth + 1) b1 b2 q le1 e3 in
        let in_rest = compile_refs-nesting rs depth b2 b3 qs le e4 in
        ground (arith, in_flow, in_rest)

-- A flow that compiles is nested no deeper than the cap.
pub compile_flow-nesting :
    (parse : String → Option Expr) (reserved : String → Bool) (p : Project) (flow : Flow)
    (name : String) (depth : ℕ) (b b' : Builder) (plan : PlanNode)
    → compile_flow parse reserved p flow name depth b ≡ ok (plan, b')
    → depth + nesting flow ≤ p.max_flow_nesting_depth
unfolding compile_flow
compile_flow-nesting parse reserved p flow name depth b b' plan h =
    let pattern = compile_pattern parse reserved p flow name depth b in
    compile_pattern-nesting parse reserved p flow name depth b b' plan
      (check_depth-le parse reserved p name depth pattern (plan, b') h)
      (>>-eq-ok (check_depth parse reserved p name depth) pattern (plan, b') h)
