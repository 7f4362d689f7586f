-- ===== src/Orchestration/Predicates/Fields.antt =====
-- The fields that a compiled predicate of src/foundry/orchestration/predicates.py names, and the
-- schema.
use agent_foundry.Prelude.{
  String, ◌≡◌, ◌⊎◌, inl, inr, refl, true, false, not, ◌&&◌, ◌||◌, Option, some, List, [], ◌∷◌, ◌++◌,
  ok, err, Bool-cases, Result-cases, Option-cases, arith, eq_string, ==_iff, contains,
  contains-append, contains-sorted, contains-difference, sorted, difference, Distinct,
  Distinct-snoc,
}
use agent_foundry.Orchestration.Predicates.{
  text, Expr, name, constant, attribute, subscript, is_private, rooted, private_in_chain, top_field,
  visit, visit_slices, CompiledPredicate, unknown_fields, deduplicated, unknown_to,
  compile_predicate,
}
use agent_foundry.Orchestration.Predicates.Grammar.{is_predicate, visit-is_predicate}

contains-deduplicated :
    (f : String) (seen xs : List String)
    → contains f (deduplicated seen xs) ≡ (contains f seen || contains f xs)
unfolding deduplicated
contains-deduplicated f seen [] = ground arith
contains-deduplicated f seen (x ∷ xs) = ground (
  arith,
  contains-deduplicated f seen xs,
  contains-deduplicated f (seen ++ x ∷ []) xs,
  contains-append f seen (x ∷ []),
  ==_iff x f,
)

deduplicated-Distinct : (seen xs : List String) → Distinct seen → Distinct (deduplicated seen xs)
unfolding deduplicated
deduplicated-Distinct seen [] d = d
deduplicated-Distinct seen (x ∷ xs) d = elim (Bool-cases (contains x seen)) [
  | inl again ↦ ground (arith, again, deduplicated-Distinct seen xs d)
  | inr new ↦
      ground (arith, new, deduplicated-Distinct (seen ++ x ∷ []) xs (Distinct-snoc seen x d new))
]

nil-or-cons : (xs : List String) → (xs ≡ []) ⊎ ((y : String) × (ys : List String) × (xs ≡ y ∷ ys))
nil-or-cons [] = inl refl
nil-or-cons (x ∷ xs) = inr (x, xs, refl)

-- A predicate that is compiled against a schema is the parsed expression, this is a predicate of the
-- grammar, each field that it is recorded to name is a field of the schema, and none is recorded twice.
pub compile_predicate-is_predicate :
    (parse : String → Option Expr) (known : List String) (source : String) (p : CompiledPredicate)
    (field : String)
    → compile_predicate parse (some known) source ≡ ok p
    → (parse source ≡ some p.tree)
      × (is_predicate p.tree ≡ true)
      × ((contains field p.state_fields && not (contains field known)) ≡ false)
      × Distinct p.state_fields
unfolding compile_predicate unknown_to
compile_predicate-is_predicate parse known source p field h = elim (Option-cases (parse source)) [
  | inl e ↦ absurd (ground (arith, h, e))
  | inr (tree, e) ↦ elim (Result-cases (visit tree [])) [
    | inr (why, bad) ↦ absurd (ground (arith, h, e, bad))
    | inl (fields, good) ↦ elim (nil-or-cons (sorted (difference fields known))) [
      | inr (y, ys, some_left) ↦ absurd (ground (arith, h, e, good, some_left))
      | inl none_left ↦ (
        ground (arith, h, e, good, none_left),
        ground (arith, h, e, good, none_left, visit-is_predicate tree []),
        ground (
          arith,
          h,
          e,
          good,
          none_left,
          contains-deduplicated field [] fields,
          contains-sorted field (difference fields known),
          contains-difference field fields known,
        ),
        ground (arith, h, e, good, none_left, deduplicated-Distinct [] fields tt),
      )
    ]
  ]
]

abbrev pub by_subscript : String → Expr
by_subscript field = subscript (name "state") (constant (text field))

-- A field that the schema lacks, named by a subscript of the state: alone it is refused; with an
-- attribute behind it that is not private, the predicate compiles and no field is recorded.
pub compile_predicate-attribute_of_subscript :
    (parse : String → Option Expr) (known : List String) (plain_source source field attr : String)
    → contains field known ≡ false
    → is_private attr ≡ false
    → parse plain_source ≡ some (by_subscript field)
    → parse source ≡ some (attribute (by_subscript field) attr)
    → (compile_predicate parse (some known) plain_source ≡ err (unknown_fields (field ∷ [])))
      × (compile_predicate parse (some known) source
          ≡ ok (record {
            source = source;
            tree = attribute (by_subscript field) attr;
            state_fields = [];
          }))
unfolding compile_predicate unknown_to visit visit_slices rooted private_in_chain top_field sorted
    difference deduplicated
compile_predicate-attribute_of_subscript parse known plain_source source field attr k a p q =
    (ground (arith, p, k), ground (arith, q, a))
