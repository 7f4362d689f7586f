-- ===== src/Orchestration/StateScope/Compiles.antt =====
-- What a state specification promises that `compile_state` of
-- src/foundry/orchestration/state_scope.py accepts.
use agent_foundry.Prelude.{
  String, ◌≡◌, inl, inr, refl, true, false, not, ◌&&◌, Option, some, List, [], ◌∷◌, Result, ok,
  Result-cases, arith, eq_string, ==_iff, ==-refl, contains, sorted, difference, Option-cases,
  Bool-cases,
}
use agent_foundry.Prelude.Dict
use agent_foundry.Prelude.Dict.{
  Dict, keys, get-put, get-empty, get-ne_none, get-eq_none, contains-keys-put,
}
use agent_foundry.Orchestration.StateScope.{
  StateVisibility, StateSpec, StateError, unknown_agents, unknown_reducers, AgentStateView,
  refuse_any, validate_nodes, validate_visibility, CompiledState, parse_fields, typed_fields,
  build_view, build_views, compile_state,
}
use agent_foundry.Orchestration.StateScope.Checks.{
  none_unknown, contains-parse_fields, Scoped, validate_nodes-Scoped,
}

module _ {T : Type 0} where
  typed_fields-total :
      (types : Dict String T) (names : List String) (d : Dict String T)
      → ((name : String) → contains name names ≡ true → contains name (keys types) ≡ true)
      → (d' : Dict String T) × (typed_fields types names d ≡ ok d')
  unfolding typed_fields
  typed_fields-total types [] d f = (d, refl)
  typed_fields-total types (n ∷ names) d f = elim (Option-cases (Dict.get types n)) [
    | inl gone ↦ absurd (get-ne_none types n (f n (ground (arith, ==-refl n))) gone)
    | inr (t, known) ↦
        let (d', e) =
          typed_fields-total types names (Dict.put d n t) (λ name c. f name (ground (arith, c))) in
        (d', ground (arith, known, e))
  ]

  -- The fields of a visibility have types.
  record Typed (types : Dict String T) (v : StateVisibility) : Type 0 where
    of_reads : (name : String) → contains name v.read ≡ true → contains name (keys types) ≡ true
    of_writes : (name : String) → contains name v.write ≡ true → contains name (keys types) ≡ true

  -- A view with the scope of a visibility.
  record Shows (o : Option (AgentStateView T)) (v : StateVisibility) : Type 0 where
    view : AgentStateView T
    there : o ≡ some view
    same_read : view.read ≡ v.read
    same_write : view.write ≡ v.write

  build_view-total :
      (agent : String) (v : StateVisibility) (types : Dict String T)
      → Typed types v
      → (view : AgentStateView T) × (build_view agent v types ≡ ok view)
        × (view.read ≡ v.read)
        × (view.write ≡ v.write)
  unfolding build_view
  build_view-total agent v types h =
      let (input, e) = typed_fields-total types v.read [] h.of_reads in
      let (output, e') = typed_fields-total types v.write [] h.of_writes in
      (
        record {
          agent = agent;
          read = v.read;
          write = v.write;
          input_type = input;
          output_type = output;
        },
        ground (arith, e, e'),
        refl,
        refl,
      )

  -- The views of some agents, added to others.
  record Viewed (spec : StateSpec) (agents : List String) (before : Dict String (AgentStateView T))
      (r : Result StateError (Dict String (AgentStateView T))) : Type 0 where
    views : Dict String (AgentStateView T)
    built : r ≡ ok views
    of_agent :
        (a : String) (v : StateVisibility)
        → contains a agents ≡ true
        → Dict.get spec.visibility a ≡ some v
        → Shows (Dict.get views a) v
    of_other : (a : String) → contains a agents ≡ false → Dict.get views a ≡ Dict.get before a

  build_views-Viewed :
      (spec : StateSpec) (types : Dict String T) (agents : List String)
      (before : Dict String (AgentStateView T))
      → ((a : String) → contains a agents ≡ true → Scoped spec a)
      → ((name : String)
          → contains name (keys spec.state_schema) ≡ true
          → contains name (keys types) ≡ true)
      → Viewed spec agents before (build_views spec.visibility agents types before)
  unfolding build_views
  build_views-Viewed spec types [] before f g = record {
    views = before;
    built = refl;
    of_agent = λ a v c k. absurd cc;
    of_other = λ a c. refl;
  }
  build_views-Viewed spec types (n ∷ agents) before f g =
      let s = f n (ground (arith, ==-refl n)) in
      let (view, made, reads, writes) = build_view-total n s.visibility types (record {
        of_reads = λ name c.
            g name (none_unknown s.visibility.read (keys spec.state_schema) name s.reads c);
        of_writes = λ name c.
            g name (none_unknown s.visibility.write (keys spec.state_schema) name s.writes c);
      }) in
      let more =
        build_views-Viewed spec types agents (Dict.put before n view)
          (λ a c. f a (ground (arith, c))) g in
      record {
        views = more.views;
        built = ground (arith, s.declared, made, more.built);
        of_agent = λ a v c k. elim (Bool-cases (contains a agents)) [
          | inl later ↦ more.of_agent a v later k
          | inr last ↦
              let same : n ≡ a = ground (arith, c, last, ==_iff n a) in
              let scope : s.visibility ≡ v = ground (arith, same, k, s.declared) in
              record {
                view = view;
                there =
                    ground (arith, same, more.of_other a last, get-put before n a view, ==_iff n a);
                same_read = ground (arith, reads, scope);
                same_write = ground (arith, writes, scope);
              }
        ];
        of_other = λ a c. ground (arith, c, more.of_other a, get-put before n a view, ==_iff n a);
      }

module _ {T : Type 0} where
  -- Where `compile_state` accepts a specification: each of the system's agents has a visibility entry
  -- and a view with the entry's read and write scope, and each field of these is in the schema.
  pub compile_state-scopes :
      (parse : String → Result String T) (spec : StateSpec) (nodes : List String)
      (c : CompiledState T) (agent name : String)
      → compile_state parse spec nodes ≡ ok c
      → contains agent nodes ≡ true
      → (v : StateVisibility) × (view : AgentStateView T) × (Dict.get spec.visibility agent
          ≡ some v)
        × (Dict.get c.agent_views agent ≡ some view)
        × (view.read ≡ v.read)
        × (view.write ≡ v.write)
        × ((contains name v.read && not (contains name (keys spec.state_schema))) ≡ false)
        × ((contains name v.write && not (contains name (keys spec.state_schema))) ≡ false)
  unfolding compile_state validate_visibility
  compile_state-scopes parse spec nodes c agent name h k =
      elim (Result-cases (parse_fields parse spec.state_schema [])) [
        | inr (e, bad) ↦ absurd (ground (arith, h, bad))
        | inl (types, parsed) ↦
            let odd = sorted (difference (keys spec.reducers) (keys spec.state_schema)) in
            let orphans = sorted (difference (keys spec.visibility) nodes) in
            elim (Result-cases (refuse_any unknown_reducers odd)) [
              | inr (e, bad) ↦ absurd (ground (arith, h, parsed, bad))
              | inl (_, fine) ↦ elim (Result-cases (validate_nodes spec nodes)) [
                | inr (e, bad) ↦ absurd (ground (arith, h, parsed, fine, bad))
                | inl (u, valid) ↦ elim (Result-cases (refuse_any unknown_agents orphans)) [
                  | inr (e, bad) ↦ absurd (ground (arith, h, parsed, fine, valid, bad))
                  | inl (_, known) ↦
                      let s = validate_nodes-Scoped spec nodes agent u valid k in
                      let b =
                        build_views-Viewed spec types nodes []
                          (λ a. validate_nodes-Scoped spec nodes a u valid)
                          (λ f i. ground (
                            arith,
                            i,
                            contains-parse_fields parse spec.state_schema [] types f parsed,
                          )) in
                      let shown = b.of_agent agent s.visibility k s.declared in
                      (
                        s.visibility,
                        shown.view,
                        s.declared,
                        ground (arith, h, parsed, fine, valid, known, b.built, shown.there),
                        shown.same_read,
                        shown.same_write,
                        ground (
                          arith,
                          none_unknown s.visibility.read (keys spec.state_schema) name s.reads,
                        ),
                        ground (
                          arith,
                          none_unknown s.visibility.write (keys spec.state_schema) name s.writes,
                        ),
                      )
                ]
              ]
            ]
      ]
