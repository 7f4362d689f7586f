-- ===== src/Orchestration/Predicates/Grammar.antt =====
-- The language of predicates as a grammar, and that the validator of
-- src/foundry/orchestration/predicates.py accepts just this language.
use agent_foundry.Prelude.{
  String, ◌≡◌, inl, inr, refl, sym, subst, Bool, true, false, not, ◌&&◌, ◌||◌, Option, none, some,
  List, [], ◌∷◌, ◌++◌, if◌then◌else◌, Result, ok, err, ◌>>=◌, arith, Bool-cases, eq_nat, eq_string,
  ◌==◌, ==_iff, contains,
}
use Prim.Native.Char.{code}
use agent_foundry.Orchestration.Predicates.{
  Expr, bool_op, unary_op, compare, constant, name, list, tuple, set, attribute, subscript, call,
  other, Exprs, no_exprs, exprs, not_op, minus_op, plus_op, invert_op, text, plain, exotic,
  allowed_calls, isinstance_arguments, Forbidden, is_private, rooted, private_in_chain, top_field,
  is_name, literal_field, check_call, visit, visit_all, visit_first, visit_slices,
}

module _ {ℓ κ} {E : Type ℓ} {A : Type κ} where
  abbrev pub is_ok : Result E A → Bool
  is_ok (ok a) = true
  is_ok (err e) = false

abbrev is_public : String → Bool
is_public String.[] = true
is_public (String.◌∷◌ c s) = if code c == 95 then false else true

-- The functions of one argument, and the types that a value may be tested for.
abbrev is_function : String → Bool
is_function f = contains {A = String} f ("bool" ∷ "float" ∷ "int" ∷ "len" ∷ "str" ∷ [])

abbrev is_type : String → Bool
is_type t = contains {A = String} t ("bool" ∷ "dict" ∷ "float" ∷ "int" ∷ "list" ∷ "str" ∷ [])

abbrev names_type : Expr → Bool
names_type (name t) = is_type t
names_type _ = false

-- What is called, and with what: a function with one argument, or `isinstance` with a value and the
-- name of a type; no keyword arguments.
abbrev arguments_form : String → Exprs → Bool
arguments_form f no_exprs = false
arguments_form f (exprs e no_exprs) = is_function f
arguments_form f (exprs e (exprs t no_exprs)) = f == "isinstance" && names_type t
arguments_form f (exprs e (exprs t (exprs u us))) = false

abbrev call_form : Expr → Exprs → Bool → Bool
call_form (name f) args keywords = not keywords && arguments_form f args
call_form _ args keywords = false

-- A predicate: operators, allowed literals and displays of predicates, the name `state`, a chain from
-- it, and a call of an allowed function. In a chain no attribute is private and each slice is a
-- predicate.
unfoldable mutual
  pub is_predicate : Expr → Bool
  is_predicate (bool_op es) = are_predicates es
  is_predicate (unary_op not_op e) = is_predicate e
  is_predicate (unary_op minus_op e) = is_predicate e
  is_predicate (unary_op plus_op e) = false
  is_predicate (unary_op invert_op e) = false
  is_predicate (compare e es) = is_predicate e && are_predicates es
  is_predicate (constant (text s)) = true
  is_predicate (constant (plain s)) = true
  is_predicate (constant (exotic s)) = false
  is_predicate (name id) = id == "state"
  is_predicate (list es) = are_predicates es
  is_predicate (tuple es) = are_predicates es
  is_predicate (set es) = are_predicates es
  is_predicate (attribute e a) = is_public a && is_chain e
  is_predicate (subscript e s) = is_predicate s && is_chain e
  is_predicate (call f args keywords) = call_form f args keywords && is_first args
  is_predicate (other s) = false

  pub are_predicates : Exprs → Bool
  are_predicates no_exprs = true
  are_predicates (exprs e es) = is_predicate e && are_predicates es

  pub is_first : Exprs → Bool
  is_first no_exprs = true
  is_first (exprs e es) = is_predicate e

  pub is_chain : Expr → Bool
  is_chain (name id) = id == "state"
  is_chain (attribute e a) = is_public a && is_chain e
  is_chain (subscript e s) = is_predicate s && is_chain e
  is_chain (bool_op es) = false
  is_chain (unary_op o e) = false
  is_chain (compare e es) = false
  is_chain (constant c) = false
  is_chain (list es) = false
  is_chain (tuple es) = false
  is_chain (set es) = false
  is_chain (call f args keywords) = false
  is_chain (other s) = false

public-is_private : (a : String) → is_public a ≡ not (is_private a)
public-is_private String.[] = refl
public-is_private (String.◌∷◌ c s) = ground arith

one_argument-call_form :
    (f : String)
    → (contains {A = String} f allowed_calls && not (f == "isinstance")) ≡ is_function f
one_argument-call_form f = elim (Bool-cases (f == "isinstance")) [
  | inl same ↦
      subst
        (λ x. (contains {A = String} x allowed_calls && not (x == "isinstance")) ≡ is_function x)
        (sym ((==_iff f "isinstance").0 same)) refl
  | inr differs ↦ ground (arith, differs, ==_iff f "isinstance", ==_iff "isinstance" f)
]

isinstance-call_form :
    (f : String)
    → (contains {A = String} f allowed_calls && f == "isinstance") ≡ (f == "isinstance")
isinstance-call_form f = ground (arith, ==_iff f "isinstance", ==_iff "isinstance" f)

isinstance_arguments-names_type :
    (e t : Expr) → is_ok (isinstance_arguments (exprs e (exprs t no_exprs))) ≡ names_type t
isinstance_arguments-names_type e' (name t) = ground arith
isinstance_arguments-names_type e' (bool_op es) = refl
isinstance_arguments-names_type e' (unary_op o e) = refl
isinstance_arguments-names_type e' (compare e es) = refl
isinstance_arguments-names_type e' (constant c) = refl
isinstance_arguments-names_type e' (list es) = refl
isinstance_arguments-names_type e' (tuple es) = refl
isinstance_arguments-names_type e' (set es) = refl
isinstance_arguments-names_type e' (attribute e a) = refl
isinstance_arguments-names_type e' (subscript e s) = refl
isinstance_arguments-names_type e' (call f args keywords) = refl
isinstance_arguments-names_type e' (other s) = refl

arguments_form_lem :
    (f : String) (args : Exprs) → is_ok (check_call (name f) args false) ≡ arguments_form f args
unfolding check_call
arguments_form_lem f no_exprs = ground arith
arguments_form_lem f (exprs e no_exprs) = ground (arith, one_argument-call_form f)
arguments_form_lem f (exprs e (exprs t no_exprs)) =
    ground (arith, isinstance-call_form f, isinstance_arguments-names_type e t)
arguments_form_lem f (exprs e (exprs t (exprs u us))) = ground arith

check_call_lem :
    (f : Expr) (args : Exprs) (keywords : Bool)
    → is_ok (check_call f args keywords) ≡ call_form f args keywords
unfolding check_call
check_call_lem (name f) args false = arguments_form_lem f args
check_call_lem (name f) args true = ground arith
check_call_lem (bool_op es) args keywords = refl
check_call_lem (unary_op o e) args keywords = refl
check_call_lem (compare e es) args keywords = refl
check_call_lem (constant c) args keywords = refl
check_call_lem (list es) args keywords = refl
check_call_lem (tuple es) args keywords = refl
check_call_lem (set es) args keywords = refl
check_call_lem (attribute e a) args keywords = refl
check_call_lem (subscript e s) args keywords = refl
check_call_lem (call f as1 k1) args keywords = refl
check_call_lem (other s) args keywords = refl

-- A chain is rooted at the state, and a predicate that is rooted there is a chain.
chain-predicate : (e : Expr) → (is_chain e ≡ (rooted e && is_predicate e))
unfolding is_chain is_predicate rooted
chain-predicate (name id) = ground arith
chain-predicate (attribute e a) = ground (arith, chain-predicate e)
chain-predicate (subscript e s) = ground (arith, chain-predicate e)
chain-predicate (bool_op es) = refl
chain-predicate (unary_op o e) = refl
chain-predicate (compare e es) = refl
chain-predicate (constant c) = refl
chain-predicate (list es) = refl
chain-predicate (tuple es) = refl
chain-predicate (set es) = refl
chain-predicate (call f args keywords) = refl
chain-predicate (other s) = refl

named-rooted : (e : Expr) → is_name e ≡ true → is_predicate e ≡ rooted e
unfolding is_predicate rooted
named-rooted (name id) h = refl
named-rooted (bool_op es) h = absurd cc
named-rooted (unary_op o e) h = absurd cc
named-rooted (compare e es) h = absurd cc
named-rooted (constant c) h = absurd cc
named-rooted (list es) h = absurd cc
named-rooted (tuple es) h = absurd cc
named-rooted (set es) h = absurd cc
named-rooted (call f args keywords) h = absurd cc
named-rooted (other s) h = absurd cc
named-rooted (attribute e a) h = absurd cc
named-rooted (subscript e s) h = absurd cc

slices_ok : Expr → Bool
slices_ok (attribute e a) = slices_ok e
slices_ok (subscript e s) = is_predicate s && slices_ok e
slices_ok (name id) = true
slices_ok (bool_op es) = true
slices_ok (unary_op o e) = true
slices_ok (compare e es) = true
slices_ok (constant c) = true
slices_ok (list es) = true
slices_ok (tuple es) = true
slices_ok (set es) = true
slices_ok (call f args keywords) = true
slices_ok (other s) = true

abbrev none_private : Option String → Bool
none_private none = true
none_private (some p) = false

-- The three loops over a chain see what the grammar asks of it.
chain_parts :
    (e : Expr) → (rooted e && (none_private (private_in_chain e) && slices_ok e)) ≡ is_chain e
unfolding slices_ok rooted private_in_chain is_chain
chain_parts (attribute e a) = ground (arith, chain_parts e, public-is_private a)
chain_parts (subscript e s) = ground (arith, chain_parts e)
chain_parts (name id) = ground arith
chain_parts (bool_op es) = refl
chain_parts (unary_op o e) = refl
chain_parts (compare e es) = refl
chain_parts (constant c) = refl
chain_parts (list es) = refl
chain_parts (tuple es) = refl
chain_parts (set es) = refl
chain_parts (call f args keywords) = refl
chain_parts (other s) = refl

-- A sequence succeeds where its first part does, and its second one on what that gives.
is_ok-bind :
    {A B : Type 0} (m : Result Forbidden A) (f : A → Result Forbidden B) (b : Bool)
    → ((a : A) → is_ok (f a) ≡ b)
    → is_ok (m >>= f) ≡ (is_ok m && b)
is_ok-bind (ok a) f b h = h a
is_ok-bind (err e) f b h = refl

if_ok :
    (b : Bool) (m : Result Forbidden (List String)) (fields : List String) (p : Bool)
    → is_ok m ≡ p
    → is_ok (if b then ok fields else m) ≡ (b || p)
if_ok true m fields p h = refl
if_ok false m fields p h = h

mutual
  unfolding slices_ok visit visit_all visit_first visit_slices is_predicate are_predicates is_first
      is_chain rooted private_in_chain

  visit_lem : (e : Expr) (fields : List String) → is_ok (visit e fields) ≡ is_predicate e
  visit_lem (bool_op es) fields = visit_all_lem es fields
  visit_lem (unary_op not_op e) fields = visit_lem e fields
  visit_lem (unary_op minus_op e) fields = visit_lem e fields
  visit_lem (unary_op plus_op e) fields = refl
  visit_lem (unary_op invert_op e) fields = refl
  visit_lem (compare e es) fields = ground (
    arith,
    is_ok-bind (visit e fields) (visit_all es) (are_predicates es) (visit_all_lem es),
    visit_lem e fields,
  )
  visit_lem (constant (text s)) fields = refl
  visit_lem (constant (plain s)) fields = refl
  visit_lem (constant (exotic s)) fields = refl
  visit_lem (name id) fields = ground arith
  visit_lem (list es) fields = visit_all_lem es fields
  visit_lem (tuple es) fields = visit_all_lem es fields
  visit_lem (set es) fields = visit_all_lem es fields
  visit_lem (attribute e a) fields = ground (
    arith,
    chain_parts e,
    public-is_private a,
    visit_slices_lem e (fields ++ top_field (attribute e a)),
  )
  visit_lem (subscript e s) fields = ground (
    arith,
    chain-predicate e,
    visit_lem s (fields ++ literal_field e s),
    is_ok-bind (visit s (fields ++ literal_field e s))
        (λ fields'. if is_name e then ok fields' else visit e fields') (is_name e || is_predicate e)
        (λ fields'.
          if_ok (is_name e) (visit e fields') fields' (is_predicate e) (visit_lem e fields')),
    named-rooted e,
  )
  visit_lem (call f args keywords) fields =
      ground (arith, visit_first_lem args fields, check_call_lem f args keywords)
  visit_lem (other s) fields = refl

  visit_all_lem :
      (es : Exprs) (fields : List String) → is_ok (visit_all es fields) ≡ are_predicates es
  visit_all_lem no_exprs fields = refl
  visit_all_lem (exprs e es) fields = ground (
    arith,
    is_ok-bind (visit e fields) (visit_all es) (are_predicates es) (visit_all_lem es),
    visit_lem e fields,
  )

  visit_first_lem :
      (es : Exprs) (fields : List String) → is_ok (visit_first es fields) ≡ is_first es
  visit_first_lem no_exprs fields = refl
  visit_first_lem (exprs e es) fields = visit_lem e fields

  visit_slices_lem : (e : Expr) (fields : List String) → is_ok (visit_slices e fields) ≡ slices_ok e
  visit_slices_lem (attribute e a) fields = visit_slices_lem e fields
  visit_slices_lem (subscript e s) fields = ground (
    arith,
    is_ok-bind (visit s fields) (visit_slices e) (slices_ok e) (visit_slices_lem e),
    visit_lem s fields,
  )
  visit_slices_lem (name id) fields = refl
  visit_slices_lem (bool_op es) fields = refl
  visit_slices_lem (unary_op o e) fields = refl
  visit_slices_lem (compare e es) fields = refl
  visit_slices_lem (constant c) fields = refl
  visit_slices_lem (list es) fields = refl
  visit_slices_lem (tuple es) fields = refl
  visit_slices_lem (set es) fields = refl
  visit_slices_lem (call f args keywords) fields = refl
  visit_slices_lem (other s) fields = refl

-- The validator accepts an expression exactly where it is a predicate of the grammar: whatever it has
-- recorded before.
pub visit-is_predicate : (e : Expr) (fields : List String) → is_ok (visit e fields) ≡ is_predicate e
visit-is_predicate e fields = visit_lem e fields
