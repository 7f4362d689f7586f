-- ===== src/Orchestration/StateScope/Checks.antt =====
-- What the checks of a state specification in src/foundry/orchestration/state_scope.py establish.
use agent_foundry.Prelude.{
  String, ◌≡◌, inl, inr, refl, true, ◌||◌, some, List, [], ◌∷◌, Result, ok, Result-cases, arith,
  eq_string, ◌==◌, ==_iff, contains, contains-sorted, contains-difference, sorted, difference,
  Option-cases, Bool-cases, subst,
}
use agent_foundry.Prelude.Dict
use agent_foundry.Prelude.Dict.{
  Dict, keys, get-put, get-empty, get-ne_none, get-eq_none, contains-keys-put,
}
use agent_foundry.Orchestration.StateScope.{
  FieldSpec, StateVisibility, StateSpec, StateError, unknown_fields, refuse_any, validate_node,
  validate_nodes, parse_fields,
}

refuse_any-ok :
    (e : List String → StateError) (xs : List String) (u : Unit {0})
    → refuse_any e xs ≡ ok u
    → xs ≡ []
refuse_any-ok e [] u h = refl
refuse_any-ok e (x ∷ xs) u h = absurd cc

-- Nothing is left over of a list of fields.
pub none_unknown :
    (names fields : List String) (name : String)
    → sorted (difference names fields) ≡ []
    → contains name names ≡ true
    → contains name fields ≡ true
none_unknown names fields name h c = ground (
  arith,
  h,
  c,
  contains-sorted name (difference names fields),
  contains-difference name names fields,
)

-- Parsing gives every field of the schema a type.
pub contains-parse_fields :
    {T : Type 0} (parse : String → Result String T) (fields : Dict String FieldSpec)
    (types result : Dict String T) (name : String)
    → parse_fields parse fields types ≡ ok result
    → contains name (keys result) ≡ (contains name (keys types) || contains name (keys fields))
unfolding parse_fields
contains-parse_fields parse [] types result name h = ground (arith, h)
contains-parse_fields parse ((n, field) ∷ fields) types result name h =
    elim (Result-cases (parse field.type_str)) [
      | inr (e, bad) ↦ absurd (ground (arith, h, bad))
      | inl (t, good) ↦ ground (
        arith,
        good,
        h,
        contains-parse_fields parse fields (Dict.put types n t) result name,
        contains-keys-put types n name t,
      )
    ]

-- What a valid node has.
pub record Scoped (spec : StateSpec) (node : String) : Type 0 where
  pub visibility : StateVisibility
  pub declared : Dict.get spec.visibility node ≡ some visibility
  pub reads : sorted (difference visibility.read (keys spec.state_schema)) ≡ []
  pub writes : sorted (difference visibility.write (keys spec.state_schema)) ≡ []

validate_node-Scoped :
    (spec : StateSpec) (node : String) (u : Unit {0})
    → validate_node spec node ≡ ok u
    → Scoped spec node
unfolding validate_node
validate_node-Scoped spec node u h = elim (Option-cases (Dict.get spec.visibility node)) [
  | inl gone ↦ absurd (ground (arith, h, gone))
  | inr (v, known) ↦
      let unread = sorted (difference v.read (keys spec.state_schema)) in
      let unwritten = sorted (difference v.write (keys spec.state_schema)) in
      elim (Result-cases (refuse_any (unknown_fields node "read") unread)) [
        | inr (e, bad) ↦ absurd (ground (arith, h, known, bad))
        | inl (_, good) ↦ record {
          visibility = v;
          declared = known;
          reads = refuse_any-ok (unknown_fields node "read") unread tt good;
          writes =
              refuse_any-ok (unknown_fields node "write") unwritten u
                (ground (arith, h, known, good));
        }
      ]
]

pub validate_nodes-Scoped :
    (spec : StateSpec) (nodes : List String) (node : String) (u : Unit {0})
    → validate_nodes spec nodes ≡ ok u
    → contains node nodes ≡ true
    → Scoped spec node
unfolding validate_nodes
validate_nodes-Scoped spec [] node u h c = absurd cc
validate_nodes-Scoped spec (n ∷ nodes) node u h c = elim (Result-cases (validate_node spec n)) [
  | inr (e, bad) ↦ absurd (ground (arith, h, bad))
  | inl (v, good) ↦ elim (Bool-cases (n == node)) [
    | inl same ↦ subst (Scoped spec) ((==_iff n node).0 same) (validate_node-Scoped spec n v good)
    | inr other ↦
        validate_nodes-Scoped spec nodes node u (ground (arith, h, good)) (ground (arith, c, other))
  ]
]
