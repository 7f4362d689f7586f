-- ===== src/Orchestration/Patterns/Build.antt =====
-- The plan builder of src/foundry/orchestration/patterns.py. Each step takes the builder's state and
-- gives it back, or raises. Arguments are the parser of predicates and the test whether a name ends
-- with one of the reserved suffixes.
use agent_foundry.Prelude.{
  ℕ, zero, suc, ◌+◌, String, Bool, false, not, ◌&&◌, ◌||◌, Option, none, some, List, [], ◌∷◌, ◌++◌,
  if◌then◌else◌, Result, ok, err, ◌>>=◌, ◌>>◌, raise_if, ltb, eq_string, ◌==◌, contains, sorted,
  difference,
}
use agent_foundry.Prelude.Dict
use agent_foundry.Prelude.Dict.{Dict, keys}
use agent_foundry.Orchestration.Predicates.{
  Expr, CompiledPredicate, CompileError, compile_predicate, deduplicated,
}
use agent_foundry.Orchestration.Graph.{
  GraphFlow, ShapeError, end_sentinel, node_names, group_edges, check_graph_shape,
}
use agent_foundry.Orchestration.Patterns.{
  SupervisorFlow, Flow, single, sequential, parallel, supervisor, graph, Refs, no_refs, ref, nested,
  agent, function, LeafNode, SupervisorPlan, PlanNode, leaf_node, sequential_plan, parallel_plan,
  supervisor_plan, graph_plan, Plans, no_plans, plans, plan_names, PlanError, repeated_node,
  subflow_collision, reserved_suffix, nested_graph, nesting_too_deep, unsupported_mode,
  no_forced_return, not_an_agent, supervisor_is_worker, bad_escalation, unknown_handoffs,
  unknown_targets, worker_handoffs, predicate_error, shape_error, Project, Builder,
}

abbrev pub Built : Type 0 → Type 0
Built A = Result PlanError (A × Builder)

-- The builder that `plan_flow` makes.
abbrev pub new_builder : Builder
new_builder = record { used_leaves = []; subflow_names = []; agents_in_order = [] }

-- `leaf`
unfoldable pub leaf : Project → String → Builder → Built LeafNode
leaf p n b =
    let used = b.used_leaves ++ n ∷ [] in
    if contains n b.used_leaves
    then err (repeated_node n)
    else if contains n p.agents
    then ok (
      record { kind = agent; name = n },
      record b {
        used_leaves = used;
        agents_in_order =
            (if contains n b.agents_in_order
              then b.agents_in_order
              else b.agents_in_order ++ n ∷ []);
      },
    )
    else ok (record { kind = function; name = n }, record b { used_leaves = used })

unfoldable pub subflow_name :
    (String → Bool) → Project → String → Builder → Result PlanError Builder
subflow_name reserved p n b =
    if contains n (p.system_agents ++ p.system_functions) || contains n b.subflow_names
    then err (subflow_collision n)
    else if reserved n
    then err (reserved_suffix n)
    else ok (record b { subflow_names = b.subflow_names ++ n ∷ [] })

unfoldable pub leaf_option : Project → Option String → Builder → Built (Option LeafNode)
leaf_option p none b = ok (none, b)
leaf_option p (some n) b = leaf p n b >>= λ (l, b'). ok (some l, b')

unfoldable pub leaf_list : Project → List String → Builder → Built (List LeafNode)
leaf_list p [] b = ok ([], b)
leaf_list p (n ∷ ns) b =
    leaf p n b >>= λ (l, b'). leaf_list p ns b' >>= λ (ls, b''). ok (l ∷ ls, b'')

abbrev pub names_or : Option (List String) → List String → List String
names_or none names = names
names_or (some names) default = names

-- `if extra: raise …`
abbrev pub refuse_names : (List String → PlanError) → List String → Result PlanError (Unit {0})
refuse_names e [] = ok tt
refuse_names e (n ∷ ns) = err (e (n ∷ ns))

-- The loop over the workers' handoffs: the workers that may end the run.
unfoldable pub workers_may_end :
    SupervisorFlow → List String → List String → Result PlanError (List String)
workers_may_end s [] may_end = ok may_end
workers_may_end s (w ∷ workers) may_end =
    let targets = names_or (Dict.get s.allowed_handoffs w) (s.supervisor ∷ []) in
    refuse_names (worker_handoffs w)
      (sorted (difference targets (s.supervisor ∷ end_sentinel ∷ [])))
    >> workers_may_end s workers (
        if contains end_sentinel targets && not (contains w may_end)
        then may_end ++ w ∷ []
        else may_end)

-- A predicate that may be missing.
abbrev pub compile_option :
    (String → Option Expr) → Project → Option String → Result PlanError (Option CompiledPredicate)
compile_option parse p none = ok none
compile_option parse p (some text) = elim (compile_predicate parse (some p.state_fields) text) [
  | ok c ↦ ok (some c)
  | err e ↦ err (predicate_error e)
]

abbrev pub is_worker : Option String → List String → Bool
is_worker none workers = false
is_worker (some w) workers = contains w workers

-- `compile_supervisor` behind the workers.
unfoldable pub supervisor_rules :
    (String → Option Expr)
    → Project
    → SupervisorFlow
    → String
    → List String
    → Result PlanError SupervisorPlan
supervisor_rules parse p s name workers =
    let all_targets = workers ++ end_sentinel ∷ [] in
    let targets = names_or (Dict.get s.allowed_handoffs s.supervisor) all_targets in
    raise_if (contains s.supervisor workers) (supervisor_is_worker s.supervisor)
    >> (refuse_names unknown_handoffs
          (sorted (difference (keys s.allowed_handoffs) (s.supervisor ∷ workers)))
        >> (refuse_names unknown_targets (sorted (difference targets all_targets))
            >> (workers_may_end s workers [] >>= λ may_end.
                compile_option parse p s.when >>= λ when.
                raise_if (s.on_max_hops == "escalate" && not (is_worker s.escalate_to workers))
                  (bad_escalation s.supervisor)
                >> ok (record {
                  name = name;
                  supervisor = s.supervisor;
                  supervisor_targets = deduplicated [] targets;
                  workers_may_end = may_end;
                  termination_when = when;
                  max_hops = s.max_hops;
                  on_max_hops = s.on_max_hops;
                  escalate_to = s.escalate_to;
                }))))

-- `compile_supervisor` before its workers.
unfoldable pub supervisor_start : Project → SupervisorFlow → Builder → Built LeafNode
supervisor_start p s b =
    raise_if (not (s.mode == "llm")) unsupported_mode
    >> (raise_if (not s.force_return_to_supervisor) no_forced_return
        >> (raise_if (not (contains s.supervisor p.agents)) (not_an_agent s.supervisor)
            >> leaf p s.supervisor b))

abbrev pub as_shape {ℓ} : {A : Type ℓ} → Result ShapeError A → Result PlanError A
as_shape (ok a) = ok a
as_shape (err e) = err (shape_error e)

abbrev pub as_predicate {ℓ} : {A : Type ℓ} → Result CompileError A → Result PlanError A
as_predicate (ok a) = ok a
as_predicate (err e) = err (predicate_error e)

unfoldable pub compile_graph :
    (String → Option Expr) → Project → GraphFlow → String → Builder → Built PlanNode
compile_graph parse p flow name b = as_shape (node_names flow) >>= λ nodes.
    as_predicate (group_edges (compile_predicate parse (some p.state_fields)) flow.edges [])
    >>= λ edges.
        as_shape (check_graph_shape flow nodes edges)
        >> (leaf_list p nodes b >>= λ (leaves, b'). ok (
          graph_plan
              (record { name = name; start = flow.start; nodes = leaves; edges_by_source = edges }),
          b',
        ))

abbrev pub nested_single : String → ℕ → LeafNode → PlanNode
nested_single name zero l = leaf_node l
nested_single name (suc depth) l = sequential_plan name (plans (leaf_node l) no_plans)

abbrev pub top_graph :
    (String → Option Expr) → Project → GraphFlow → String → ℕ → Builder → Built PlanNode
top_graph parse p flow name zero b = compile_graph parse p flow name b
top_graph parse p flow name (suc depth) b = err (nested_graph name)

module _ (parse : String → Option Expr) (reserved : String → Bool) (p : Project) where
  -- The test of the depth, with which `compile_flow` begins.
  abbrev pub check_depth : String → ℕ → Result PlanError (Unit {0})
  check_depth name depth = raise_if (ltb p.max_flow_nesting_depth depth) (nesting_too_deep name)

  unfoldable mutual
    -- `compile_flow` behind its test of the depth.
    pub compile_pattern : Flow → String → ℕ → Builder → Built PlanNode
    compile_pattern (single a) name depth b =
        leaf p a b >>= λ (l, b'). ok (nested_single name depth l, b')
    compile_pattern (sequential steps) name depth b =
        compile_refs steps depth b >>= λ (ps, b'). ok (sequential_plan name ps, b')
    compile_pattern (parallel branches join then_) name depth b =
        compile_refs branches depth b >>= λ (bs, b'). leaf_option p join b' >>= λ (j, b'').
        compile_refs then_ depth b'' >>= λ (ts, b'''). ok (parallel_plan name bs j ts, b''')
    compile_pattern (supervisor s workers) name depth b = supervisor_start p s b >>= λ (_, b').
        compile_refs workers depth b' >>= λ (ws, b'').
        supervisor_rules parse p s name (plan_names ws) >>= λ plan.
        ok (supervisor_plan plan ws, b'')
    compile_pattern (graph g) name depth b = top_graph parse p g name depth b

    -- `compile_ref` for each of some.
    pub compile_refs : Refs → ℕ → Builder → Built Plans
    compile_refs no_refs depth b = ok (no_plans, b)
    compile_refs (ref n rs) depth b = leaf p n b >>= λ (l, b').
        compile_refs rs depth b' >>= λ (ps, b''). ok (plans (leaf_node l) ps, b'')
    compile_refs (nested n flow rs) depth b = subflow_name reserved p n b >>= λ b'.
        (check_depth n (depth + 1) >> compile_pattern flow n (depth + 1) b') >>= λ (q, b'').
        compile_refs rs depth b'' >>= λ (ps, b'''). ok (plans q ps, b''')

  unfoldable pub compile_flow : Flow → String → ℕ → Builder → Built PlanNode
  compile_flow flow name depth b = check_depth name depth >> compile_pattern flow name depth b
