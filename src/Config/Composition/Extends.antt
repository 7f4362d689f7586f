-- ===== src/Config/Composition/Extends.antt =====
-- The mapping that `apply_extends` of src/foundry/config/composition.py gives.
use agent_foundry.Prelude.{Option, none, some, eq_string}
use agent_foundry.Prelude.Dict
use agent_foundry.Prelude.Dict.{Dict}
use agent_foundry.Config.Composition.{Yaml}

abbrev pub first_of : Option Yaml → Option Yaml → Option Yaml
first_of none o = o
first_of (some v) o = some v
