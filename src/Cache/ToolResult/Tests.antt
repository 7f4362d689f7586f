-- ===== src/Cache/ToolResult/Tests.antt =====
-- The in-process result cache of src/foundry/cache/tool_result.py on a small table.
use agent_foundry.Prelude.{
  ◌+◌, String, ◌≡◌, refl, none, some, [], ◌∷◌, if◌then◌else◌, ltb, eq_string, ◌==◌,
}
use agent_foundry.Prelude.Dict
use agent_foundry.Prelude.Dict.{Dict}
use agent_foundry.Cache.ToolResult.{
  ResultKey, ResultRow, eq_result_key, delete_expired, lookup, store, lookup-store,
}

abbrev weather : ResultKey
weather = record { tool_ref = "catalog/weather"; tool_version = "v1"; input_hash = "a1" }

abbrev news : ResultKey
news = record { tool_ref = "catalog/news"; tool_version = "v1"; input_hash = "b2" }

abbrev table : Dict ResultKey (ResultRow String)
table =
    (news, record { output = "headlines"; cached_at = 90; expires_at = 140 })
    ∷ (weather, record { output = "rain"; cached_at = 50; expires_at = 95 })
    ∷ []

-- The stale row is gone with the lookup.
stale :
    lookup 100 weather table
    ≡ ((news, record { output = "headlines"; cached_at = 90; expires_at = 140 }) ∷ [], none)
unfolding lookup delete_expired Dict.get
stale = refl

lookup-store_example : (lookup 159 weather (store 100 weather "sun" 60 table)).1 ≡ (
    if weather == weather
    then (if ltb 159 (100 + 60) then some ("sun", 100) else none)
    else (lookup 159 weather table).1)
lookup-store_example = lookup-store 100 159 60 weather weather "sun" table (refl, (refl, tt))
