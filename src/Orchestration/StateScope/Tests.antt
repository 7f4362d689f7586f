-- ===== src/Orchestration/StateScope/Tests.antt =====
-- State scopes at concrete inputs.
use agent_foundry.Prelude.{
  String, ◌≡◌, refl, false, not, ◌&&◌, some, [], ◌∷◌, Result, ok, err, if◌then◌else◌, eq_string,
  ◌==◌, contains, sorted, difference,
}
use agent_foundry.Prelude.Dict
use agent_foundry.Prelude.Dict.{Dict, keys}
use agent_foundry.Orchestration.StateScope.{
  StateVisibility, StateSpec, Reducer, AgentStateView, validate_node, validate_nodes,
  validate_visibility, CompiledState, parse_fields, typed_fields, build_view, build_views,
  compile_state, all_reducers,
}
use agent_foundry.Orchestration.StateScope.Compiles.{compile_state-scopes}

abbrev writer : StateVisibility
writer = record { read = "topic" ∷ []; write = "draft" ∷ [] }

abbrev spec : StateSpec
spec = record {
  state_schema =
      ("topic", record { type_str = "str" }) ∷ ("draft", record { type_str = "str" }) ∷ [];
  reducers = [];
  visibility = ("writer", writer) ∷ [];
}

abbrev parse : String → Result String String
parse s = if s == "str" then ok "text" else err s

abbrev view : AgentStateView String
view = record {
  agent = "writer";
  read = "topic" ∷ [];
  write = "draft" ∷ [];
  input_type = ("topic", "text") ∷ [];
  output_type = ("draft", "text") ∷ [];
}

abbrev compiled : CompiledState String
compiled = record {
  reducers = ("topic", Reducer.last_write_wins) ∷ ("draft", Reducer.last_write_wins) ∷ [];
  agent_views = ("writer", view) ∷ [];
  field_types = ("topic", "text") ∷ ("draft", "text") ∷ [];
}

compiles : compile_state parse spec ("writer" ∷ []) ≡ ok compiled
unfolding compile_state parse_fields validate_visibility validate_nodes validate_node build_views
    build_view typed_fields all_reducers sorted difference Dict.get Dict.put
compiles = refl

abbrev state : Dict String String
state = ("topic", "bees") ∷ ("draft", "") ∷ []

compile_state-scopes_example :
    (v : StateVisibility) × (w : AgentStateView String) × (Dict.get spec.visibility "writer"
      ≡ some v)
    × (Dict.get compiled.agent_views "writer" ≡ some w)
    × (w.read ≡ v.read)
    × (w.write ≡ v.write)
    × ((contains "topic" v.read && not (contains "topic" (keys spec.state_schema))) ≡ false)
    × ((contains "topic" v.write && not (contains "topic" (keys spec.state_schema))) ≡ false)
compile_state-scopes_example =
    compile_state-scopes parse spec ("writer" ∷ []) compiled "writer" "topic" compiles refl
