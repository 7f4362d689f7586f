-- ===== src/Orchestration/StateScope/Views.antt =====
-- What an agent's view of src/foundry/orchestration/state_scope.py lets through.
use agent_foundry.Prelude.{
  String, ◌≡◌, ◌⊎◌, inl, inr, refl, false, not, ◌&&◌, none, some, List, [], ◌∷◌, if◌then◌else◌, ok,
  err, arith, eq_string, ==_iff, contains, contains-sorted, contains-difference, sorted, difference,
  Option-cases,
}
use agent_foundry.Prelude.Dict
use agent_foundry.Prelude.Dict.{Dict, keys, get-put, get-empty}
use agent_foundry.Orchestration.StateScope.{
  AgentStateView, forbidden_write, projected, project_input, validate_writes,
}

List-cases : (xs : List String) → (xs ≡ []) ⊎ ((y : String) × (ys : List String) × (xs ≡ y ∷ ys))
List-cases [] = inl refl
List-cases (x ∷ xs) = inr (x, xs, refl)

module _ {V : Type 0} where
  get-projected :
      (names : List String) (state seen : Dict String V) (name : String)
      → Dict.get (projected names state seen) name ≡ (
          if contains name names
          then elim (Dict.get state name) [ none ↦ Dict.get seen name | some v ↦ some v ]
          else Dict.get seen name)
  unfolding projected
  get-projected [] state seen name = refl
  get-projected (n ∷ names) state seen name = elim (Option-cases (Dict.get state n)) [
    | inl gone ↦ ground (arith, gone, get-projected names state seen name, ==_iff n name)
    | inr (v, known) ↦ ground (
      arith,
      known,
      get-projected names state (Dict.put seen n v) name,
      get-put seen n name v,
      ==_iff n name,
    )
  ]

module _ {V T : Type 0} where
  -- An agent's input has exactly the fields of the state in its read scope, with their values: any
  -- other field is absent.
  pub get-project_input :
      (view : AgentStateView T) (state : Dict String V) (name : String)
      → Dict.get (project_input view state) name
        ≡ (if contains name view.read then Dict.get state name else none)
  unfolding project_input
  get-project_input view state name =
      ground (arith, get-projected view.read state [] name, get-empty {V = V} name)

  -- A delta passes unchanged where each of its fields is in the write scope. Otherwise it is refused,
  -- with the fields that are not, of which there is one.
  pub validate_writes-cases :
      (view : AgentStateView T) (delta : Dict String V) (name : String)
      → ((validate_writes view delta ≡ ok delta)
          × ((contains name (keys delta) && not (contains name view.write)) ≡ false))
        ⊎ ((first : String) × (rest : List String) × (validate_writes view delta
              ≡ err (forbidden_write view.agent (first ∷ rest)))
            × (contains name (first ∷ rest)
                ≡ (contains name (keys delta) && not (contains name view.write))))
  unfolding validate_writes
  validate_writes-cases view delta name =
      let forbidden = sorted (difference (keys delta) view.write) in
      let reported : contains name forbidden
          ≡ (contains name (keys delta) && not (contains name view.write)) =
        ground (
          arith,
          contains-sorted name (difference (keys delta) view.write),
          contains-difference name (keys delta) view.write,
        ) in
      elim (List-cases forbidden) [
        | inl e ↦ inl (ground (arith, e), ground (arith, e, reported))
        | inr (y, ys, e) ↦ inr (y, ys, ground (arith, e), ground (arith, e, reported))
      ]
