-- ===== src/Orchestration/StateScope.antt =====
-- src/foundry/orchestration/state_scope.py: what of the shared state an agent sees and may write, and
-- the checks of a state specification. The types that `parse_type_string` gives are an argument, and
-- so are the values. The compiled model itself, a class that pydantic makes, is left out; the types of
-- a view are the fields with their types.
mod Tests
pub mod Views
pub mod Checks
pub mod Compiles
use agent_foundry.Prelude.{
  String, ◌≡◌, Bool, true, false, Option, none, some, List, [], ◌∷◌, ◌++◌, if◌then◌else◌, Result,
  ok, err, ◌>>=◌, ◌>>◌, and_then, eq_string, ◌==◌, contains, sorted, difference,
}
use agent_foundry.Prelude.Dict
use agent_foundry.Prelude.Dict.{Dict, keys}

pub data Reducer : Type 0 where
  append merge last_write_wins replace_if_set : Reducer

pub record FieldSpec : Type 0 where
  pub type_str : String

pub record StateVisibility : Type 0 where
  pub read : List String
  pub write : List String

pub record StateSpec : Type 0 where
  pub state_schema : Dict String FieldSpec
  pub reducers : Dict String Reducer
  pub visibility : Dict String StateVisibility

pub data StateError : Type 0 where
  config_error : String → StateError
  unknown_reducers : List String → StateError
  no_visibility : String → StateError
  unknown_fields : String → String → List String → StateError
  unknown_agents : List String → StateError
  forbidden_write : String → List String → StateError
  key_error : String → StateError

pub record AgentStateView (T : Type 0) : Type 0 where
  pub agent : String
  pub read : List String
  pub write : List String
  pub input_type : Dict String T
  pub output_type : Dict String T

module _ {V : Type 0} where
  -- `{name: state[name] for name in self.read if name in state}`
  projected : List String → Dict String V → Dict String V → Dict String V
  projected [] state seen = seen
  projected (name ∷ names) state seen = elim (Dict.get state name) [
    | none ↦ projected names state seen
    | some v ↦ projected names state (Dict.put seen name v)
  ]

  unfoldable pub project_input : {T : Type 0} → AgentStateView T → Dict String V → Dict String V
  unfolding projected
  project_input view state = projected view.read state []

  unfoldable pub validate_writes :
      {T : Type 0} → AgentStateView T → Dict String V → Result StateError (Dict String V)
  validate_writes view delta = elim (sorted (difference (keys delta) view.write)) [
    | [] ↦ ok delta
    | name ∷ names ↦ err (forbidden_write view.agent (name ∷ names))
  ]

-- `if names: raise …`
abbrev pub refuse_any : (List String → StateError) → List String → Result StateError (Unit {0})
refuse_any e [] = ok tt
refuse_any e (name ∷ names) = err (e (name ∷ names))

-- A round of the loop of `_validate_visibility`.
unfoldable pub validate_node : StateSpec → String → Result StateError (Unit {0})
validate_node spec node = elim (Dict.get spec.visibility node) [
  | none ↦ err (no_visibility node)
  | some v ↦
      refuse_any (unknown_fields node "read") (sorted (difference v.read (keys spec.state_schema)))
      >> refuse_any (unknown_fields node "write")
          (sorted (difference v.write (keys spec.state_schema)))
]

unfoldable pub validate_nodes : StateSpec → List String → Result StateError (Unit {0})
validate_nodes spec [] = ok tt
validate_nodes spec (node ∷ nodes) = validate_node spec node >> validate_nodes spec nodes

unfoldable pub validate_visibility : StateSpec → List String → Result StateError (Unit {0})
validate_visibility spec nodes =
    validate_nodes spec nodes
    >> refuse_any unknown_agents (sorted (difference (keys spec.visibility) nodes))

pub record CompiledState (T : Type 0) : Type 0 where
  pub reducers : Dict String Reducer
  pub agent_views : Dict String (AgentStateView T)
  pub field_types : Dict String T

abbrev pub reducer_or_default : Option Reducer → Reducer
reducer_or_default none = last_write_wins
reducer_or_default (some r) = r

-- `{name: spec.reducers.get(name, Reducer.LAST_WRITE_WINS) for name in spec.state_schema}`
unfoldable pub all_reducers :
    Dict String Reducer → List String → Dict String Reducer → Dict String Reducer
all_reducers declared [] d = d
all_reducers declared (name ∷ names) d =
    all_reducers declared names (Dict.put d name (reducer_or_default (Dict.get declared name)))

module _ {T : Type 0} (parse_type_string : String → Result String T) where
  -- The first loop of `compile_state`.
  unfoldable pub parse_fields :
      Dict String FieldSpec → Dict String T → Result StateError (Dict String T)
  parse_fields [] types = ok types
  parse_fields ((name, field) ∷ fields) types = elim (parse_type_string field.type_str) [
    | err e ↦ err (config_error e)
    | ok t ↦ parse_fields fields (Dict.put types name t)
  ]

module _ {T : Type 0} where
  -- `{name: field_types[name] for name in names}`
  unfoldable pub typed_fields :
      Dict String T → List String → Dict String T → Result StateError (Dict String T)
  typed_fields types [] d = ok d
  typed_fields types (name ∷ names) d = elim (Dict.get types name) [
    | none ↦ err (key_error name)
    | some t ↦ typed_fields types names (Dict.put d name t)
  ]

  unfoldable pub build_view :
      String → StateVisibility → Dict String T → Result StateError (AgentStateView T)
  build_view agent v types = typed_fields types v.read [] >>= λ input.
      typed_fields types v.write [] >>= λ output. ok (record {
        agent = agent;
        read = v.read;
        write = v.write;
        input_type = input;
        output_type = output;
      })

  -- The views by their agents; `spec.visibility[agent]` raises on a missing agent.
  unfoldable pub build_views :
      Dict String StateVisibility
      → List String
      → Dict String T
      → Dict String (AgentStateView T)
      → Result StateError (Dict String (AgentStateView T))
  build_views visibility [] types views = ok views
  build_views visibility (agent ∷ agents) types views = elim (Dict.get visibility agent) [
    | none ↦ err (key_error agent)
    | some v ↦ elim (build_view agent v types) [
      | err e ↦ err e
      | ok view ↦ build_views visibility agents types (Dict.put views agent view)
    ]
  ]

  unfoldable pub compile_state :
      (String → Result String T) → StateSpec → List String → Result StateError (CompiledState T)
  compile_state parse spec nodes = parse_fields parse spec.state_schema [] >>= λ types.
      refuse_any unknown_reducers
        (sorted (difference (keys spec.reducers) (keys spec.state_schema)))
      >> (validate_visibility spec nodes
          >> (build_views spec.visibility nodes types [] >>= λ views. ok (record {
            reducers = all_reducers spec.reducers (keys spec.state_schema) [];
            agent_views = views;
            field_types = types;
          })))
