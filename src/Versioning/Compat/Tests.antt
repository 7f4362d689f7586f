-- ===== src/Versioning/Compat/Tests.antt =====
-- Contract diffs at concrete inputs.
use agent_foundry.Prelude.{◌≡◌, refl, true, false, [], ◌∷◌, eq_string}
use agent_foundry.Prelude.Dict
use agent_foundry.Prelude.Dict.{Dict}
use agent_foundry.Versioning.Compat.{Schema, ToolContract, slot_diff}
use agent_foundry.Versioning.Compat.Slots.{slot_diff-put}

abbrev query : Schema
query = record { properties = ("q", "string") ∷ []; required = "q" ∷ [] }

abbrev paged_query : Schema
paged_query = record {
  properties = ("q", "string") ∷ ("page", "integer") ∷ [];
  required = "q" ∷ [];
}

abbrev tool : ToolContract
tool = record { input = query; output = query; slots = ("db", false) ∷ [] }

abbrev paged_tool : ToolContract
paged_tool = record {
  input = paged_query;
  output = query;
  slots = ("db", false) ∷ ("log", true) ∷ [];
}

slot_diff-put_example :
    slot_diff (("log", true) ∷ []) (Dict.put (("log", true) ∷ []) "log" false)
    ≡ record { breaking = []; additions = [] }
slot_diff-put_example = slot_diff-put (("log", true) ∷ []) "log" false refl
