-- ===== src/Orchestration/Predicates.antt =====
-- src/foundry/orchestration/predicates.py: the validator of `when:` predicates and the proxy of the
-- state. The expression is Python's syntax tree without its positions; a construct that the validator
-- does not name is `other`, by its class. Parsing and the evaluation of a validated tree are Python's.
mod Tests
pub mod Grammar
pub mod Fields
use Prim.Native.Char.{code}
use agent_foundry.Prelude.{
  ℕ, String, ◌≡◌, Bool, true, false, not, ◌&&◌, Option, none, some, List, [], ◌∷◌, ◌++◌,
  if◌then◌else◌, nat_beq, Result, ok, err, ◌>>=◌, ◌>>◌, raise_if, eq_string, ◌==◌, contains, sorted,
  difference,
}
use agent_foundry.Prelude.Dict
use agent_foundry.Prelude.Dict.{Dict, keys}

pub data UnaryOperator : Type 0 where
  not_op minus_op plus_op invert_op : UnaryOperator

-- A literal: a text, one of the other allowed types, or one of another type, by its name.
pub data Constant : Type 0 where
  text : String → Constant
  plain : String → Constant
  exotic : String → Constant

mutual
  pub data Expr : Type 0 where
    bool_op : Exprs → Expr
    unary_op : UnaryOperator → Expr → Expr
    compare : Expr → Exprs → Expr
    constant : Constant → Expr
    name : String → Expr
    list tuple set : Exprs → Expr
    attribute : Expr → String → Expr
    subscript : Expr → Expr → Expr
    -- The last part is whether there are keyword arguments.
    call : Expr → Exprs → Bool → Expr
    other : String → Expr

  pub data Exprs : Type 0 where
    no_exprs : Exprs
    exprs : Expr → Exprs → Exprs

-- Why a construct is forbidden.
pub data Forbidden : Type 0 where
  unary_operator literal not_rooted call_of_expression keyword_arguments argument_count : Forbidden
  isinstance_type : Forbidden
  unknown_name unknown_call private_attribute construct : String → Forbidden

abbrev pub allowed_calls : List String
allowed_calls = "len" ∷ "isinstance" ∷ "bool" ∷ "str" ∷ "int" ∷ "float" ∷ []

abbrev pub allowed_isinstance_types : List String
allowed_isinstance_types = "bool" ∷ "str" ∷ "int" ∷ "float" ∷ "list" ∷ "dict" ∷ []

-- `startswith("_")`
abbrev pub is_private : String → Bool
is_private String.[] = false
is_private (String.◌∷◌ c s) = nat_beq (code c) b'_'

abbrev pub allowed_operator : UnaryOperator → Bool
allowed_operator not_op = true
allowed_operator minus_op = true
allowed_operator plus_op = false
allowed_operator invert_op = false

abbrev pub allowed_constant : Constant → Bool
allowed_constant (text s) = true
allowed_constant (plain s) = true
allowed_constant (exotic s) = false

-- `_root_of_chain`, and the test that the root is the name `state`.
unfoldable pub rooted : Expr → Bool
rooted (name id) = id == "state"
rooted (attribute e a) = rooted e
rooted (subscript e s) = rooted e
rooted (bool_op es) = false
rooted (unary_op o e) = false
rooted (compare e es) = false
rooted (constant c) = false
rooted (list es) = false
rooted (tuple es) = false
rooted (set es) = false
rooted (call f args keywords) = false
rooted (other s) = false

-- The second loop of `visit_Attribute`: the first private attribute, from the outside.
unfoldable pub private_in_chain : Expr → Option String
private_in_chain (attribute e a) =
    let inner = private_in_chain e in if is_private a then some a else inner
private_in_chain (subscript e s) = private_in_chain e
private_in_chain (name id) = none
private_in_chain (bool_op es) = none
private_in_chain (unary_op o e) = none
private_in_chain (compare e es) = none
private_in_chain (constant c) = none
private_in_chain (list es) = none
private_in_chain (tuple es) = none
private_in_chain (set es) = none
private_in_chain (call f args keywords) = none
private_in_chain (other s) = none

-- The third loop: the attribute that is applied to a name.
unfoldable pub top_field : Expr → List String
top_field (attribute (name id) a) = a ∷ []
top_field (attribute e a) = top_field e
top_field (subscript e s) = top_field e
top_field (name id) = []
top_field (bool_op es) = []
top_field (unary_op o e) = []
top_field (compare e es) = []
top_field (constant c) = []
top_field (list es) = []
top_field (tuple es) = []
top_field (set es) = []
top_field (call f args keywords) = []
top_field (other s) = []

abbrev pub is_name : Expr → Bool
is_name (name id) = true
is_name _ = false

-- The field that `state['field']` names.
abbrev pub literal_field : Expr → Expr → List String
literal_field (name id) (constant (text s)) = s ∷ []
literal_field _ _ = []

-- The arguments of a call of `isinstance`, and of another function.
abbrev pub isinstance_arguments : Exprs → Result Forbidden (Unit {0})
isinstance_arguments (exprs e (exprs (name id) no_exprs)) =
    if contains id allowed_isinstance_types then ok tt else err isinstance_type
isinstance_arguments (exprs e (exprs t no_exprs)) = err isinstance_type
isinstance_arguments _ = err argument_count

abbrev pub one_argument : Exprs → Result Forbidden (Unit {0})
one_argument (exprs e no_exprs) = ok tt
one_argument _ = err argument_count

unfoldable pub check_call : Expr → Exprs → Bool → Result Forbidden (Unit {0})
check_call (name id) args keywords =
    if not (contains id allowed_calls)
    then err (unknown_call id)
    else if keywords
    then err keyword_arguments
    else if id == "isinstance"
    then isinstance_arguments args
    else one_argument args
check_call _ args keywords = err call_of_expression

-- The visitor adds to the fields that it has recorded.
unfoldable mutual
  pub visit : Expr → List String → Result Forbidden (List String)
  visit (bool_op es) fields = visit_all es fields
  visit (unary_op o e) fields = if allowed_operator o then visit e fields else err unary_operator
  visit (compare e es) fields = visit e fields >>= visit_all es
  visit (constant c) fields = if allowed_constant c then ok fields else err literal
  visit (name id) fields = if id == "state" then ok fields else err (unknown_name id)
  visit (list es) fields = visit_all es fields
  visit (tuple es) fields = visit_all es fields
  visit (set es) fields = visit_all es fields
  visit (attribute e a) fields =
      let walk = visit_slices e (fields ++ top_field (attribute e a)) in
      if not (rooted e) then err not_rooted else elim (private_in_chain (attribute e a)) [
        | some p ↦ err (private_attribute p)
        | none ↦ walk
      ]
  visit (subscript e s) fields =
      let inner = λ (fields' : List String). visit e fields' in
      let slice = visit s (fields ++ literal_field e s) in
      if not (rooted e)
      then err not_rooted
      else slice >>= λ fields'. if is_name e then ok fields' else inner fields'
  visit (call f args keywords) fields = check_call f args keywords >> visit_first args fields
  visit (other s) fields = err (construct s)

  pub visit_all : Exprs → List String → Result Forbidden (List String)
  visit_all no_exprs fields = ok fields
  visit_all (exprs e es) fields = visit e fields >>= visit_all es

  pub visit_first : Exprs → List String → Result Forbidden (List String)
  visit_first no_exprs fields = ok fields
  visit_first (exprs e es) fields = visit e fields

  -- The last loop of `visit_Attribute`: the slices in the chain.
  pub visit_slices : Expr → List String → Result Forbidden (List String)
  visit_slices (attribute e a) fields = visit_slices e fields
  visit_slices (subscript e s) fields = visit s fields >>= visit_slices e
  visit_slices (name id) fields = ok fields
  visit_slices (bool_op es) fields = ok fields
  visit_slices (unary_op o e) fields = ok fields
  visit_slices (compare e es) fields = ok fields
  visit_slices (constant c) fields = ok fields
  visit_slices (list es) fields = ok fields
  visit_slices (tuple es) fields = ok fields
  visit_slices (set es) fields = ok fields
  visit_slices (call f args keywords) fields = ok fields
  visit_slices (other s) fields = ok fields

pub record CompiledPredicate : Type 0 where
  pub source : String
  pub tree : Expr
  pub state_fields : List String

pub data CompileError : Type 0 where
  not_an_expression : CompileError
  forbidden : Forbidden → CompileError
  unknown_fields : List String → CompileError

-- `dict.fromkeys`: each once, where it came first.
unfoldable pub deduplicated : List String → List String → List String
deduplicated seen [] = seen
deduplicated seen (x ∷ xs) = deduplicated (if contains x seen then seen else seen ++ x ∷ []) xs

-- The fields that the schema does not have, where one is given.
unfoldable pub unknown_to : Option (List String) → List String → List String
unknown_to none fields = []
unknown_to (some known) fields = sorted (difference fields known)

unfoldable pub compile_predicate :
    (String → Option Expr) → Option (List String) → String → Result CompileError CompiledPredicate
compile_predicate parse schema source = elim (parse source) [
  | none ↦ err not_an_expression
  | some tree ↦ elim (visit tree []) [
    | err why ↦ err (forbidden why)
    | ok fields ↦ elim (unknown_to schema fields) [
      | f ∷ fs ↦ err (unknown_fields (f ∷ fs))
      | [] ↦ ok (record { source = source; tree = tree; state_fields = deduplicated [] fields })
    ]
  ]
]
