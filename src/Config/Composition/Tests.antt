-- ===== src/Config/Composition/Tests.antt =====
-- The composition of configurations at concrete inputs.
use agent_foundry.Prelude.{String, Option, none, some, if◌then◌else◌, ◌==◌, eq_string}
use agent_foundry.Prelude.Dict
use agent_foundry.Config.Composition.{
  str, mapping, other, Entries, entry, no_entries, Loaded, loaded, missing, interpolate_env,
}
use agent_foundry.Config.Composition.Environment.{Raises, unset, interpolate_env-Raises}

abbrev base : Entries
base = entry "model" (str "small") (entry "retries" (other "3") no_entries)

abbrev file : Entries
file = entry "extends" (str "base.yaml") (entry "model" (str "large") no_entries)

abbrev load : String → Loaded
load path = if path == "base.yaml" then loaded (mapping base) else missing

abbrev matched : String → Option (String × Option String)
matched s = if s == "${ENV:KEY}" then some ("KEY", none) else none

abbrev unset_env : String → Option String
unset_env name = none

interpolate_env-Raises_example :
    Raises
      (interpolate_env matched unset_env (mapping (entry "key" (str "${ENV:KEY}") no_entries)))
      (unset matched unset_env (mapping (entry "key" (str "${ENV:KEY}") no_entries)))
interpolate_env-Raises_example =
    interpolate_env-Raises matched unset_env (mapping (entry "key" (str "${ENV:KEY}") no_entries))
