-- ===== src/Orchestration/Predicates/Tests.antt =====
-- Predicates at concrete inputs.
use agent_foundry.Prelude.{
  Distinct, String, ◌≡◌, refl, true, false, not, ◌&&◌, Option, some, [], ◌∷◌, ok, err,
  if◌then◌else◌, ◌==◌, eq_string, contains, sorted, difference,
}
use agent_foundry.Orchestration.Predicates.{
  Expr, name, constant, plain, text, attribute, call, compare, exprs, no_exprs, visit, visit_all,
  visit_slices, rooted, private_in_chain, top_field, check_call, unknown_call, CompiledPredicate,
  compile_predicate, unknown_to, deduplicated, unknown_fields, private_attribute,
}
use agent_foundry.Orchestration.Predicates.Grammar.{is_ok, is_predicate, visit-is_predicate}
use agent_foundry.Orchestration.Predicates.Fields.{
  by_subscript, compile_predicate-is_predicate, compile_predicate-attribute_of_subscript,
}

-- state.score > 3
abbrev high : Expr
high = compare (attribute (name "state") "score") (exprs (constant (plain "3")) no_exprs)

records_score : visit high [] ≡ ok ("score" ∷ [])
unfolding visit visit_all visit_slices rooted private_in_chain top_field
records_score = refl

-- state._data
refuses_private : visit (attribute (name "state") "_data") [] ≡ err (private_attribute "_data")
unfolding visit visit_slices rooted private_in_chain top_field
refuses_private = refl

-- open("x")
refuses_call :
    visit (call (name "open") (exprs (constant (text "x")) no_exprs) false) []
    ≡ err (unknown_call "open")
unfolding visit check_call
refuses_call = refl

visit-is_predicate_example : is_ok (visit high ("topic" ∷ [])) ≡ is_predicate high
visit-is_predicate_example = visit-is_predicate high ("topic" ∷ [])

abbrev parse : String → Option Expr
parse s =
    if s == "state.score > 3"
    then some high
    else if s == "state['x']"
    then some (by_subscript "x")
    else some (attribute (by_subscript "x") "y")

abbrev compiled : CompiledPredicate
compiled = record { source = "state.score > 3"; tree = high; state_fields = "score" ∷ [] }

compiles : compile_predicate parse (some ("score" ∷ [])) "state.score > 3" ≡ ok compiled
unfolding compile_predicate visit visit_all visit_slices rooted private_in_chain top_field
    unknown_to deduplicated sorted difference
compiles = refl

compile_predicate-is_predicate_example :
    (parse "state.score > 3" ≡ some high)
    × (is_predicate high ≡ true)
    × ((contains {A = String} "score" compiled.state_fields
          && not (contains {A = String} "score" ("score" ∷ [])))
        ≡ false)
    × Distinct {A = String} compiled.state_fields
compile_predicate-is_predicate_example =
    compile_predicate-is_predicate parse ("score" ∷ []) "state.score > 3" compiled "score" compiles

compile_predicate-attribute_of_subscript_example :
    (compile_predicate parse (some ("score" ∷ [])) "state['x']" ≡ err (unknown_fields ("x" ∷ [])))
    × (compile_predicate parse (some ("score" ∷ [])) "state['x'].y"
        ≡ ok (record {
          source = "state['x'].y";
          tree = attribute (by_subscript "x") "y";
          state_fields = [];
        }))
compile_predicate-attribute_of_subscript_example =
    compile_predicate-attribute_of_subscript parse ("score" ∷ []) "state['x']" "state['x'].y" "x"
      "y" refl refl refl refl
