-- ===== src/Connections/Accessor/Tests.antt =====
-- The accessor at a concrete input.
use agent_foundry.Prelude.{◌≡◌, refl, true, none, [], ◌∷◌, ok, err, if◌then◌else◌, eq_string}
use agent_foundry.Prelude.Dict
use agent_foundry.Connections.Pool
use agent_foundry.Connections.Pool.{PoolKey, eq_key, selects}
use agent_foundry.Connections.Pool.Interleaving.{start}
use agent_foundry.Connections.Accessor.{
  Accessor, PreparedConnection, Lifecycle, connection_slot_not_declared, get, on_auth_error,
  release_all,
}
use agent_foundry.Connections.Accessor.Auth.{refreshes, any_refreshes, on_auth_error_lem}

abbrev prepared : PreparedConnection
prepared = record {
  canonical_ref = "catalog/postgres";
  config_hash = "c1";
  refresh_mode = "on_auth_error";
  max_concurrent = 2;
}

abbrev key : PoolKey
key = record { ref = "catalog/postgres"; config_hash = "c1"; project = "hello" }

abbrev holding : Accessor
holding = record {
  pool = record start.pool { entries = (key, 7) ∷ []; by_conn_id = (7, key) ∷ [] };
  project = "hello";
  slots = ("db", prepared) ∷ [];
  has_emit = true;
  acquired = ("db", 7) ∷ [];
  emitted = [];
}

undeclared : (get "queue" (ok 9) 5 holding).0 ≡ err (connection_slot_not_declared "queue")
unfolding get Dict.get
undeclared = refl

evicts_once : (on_auth_error holding).1.emitted ≡ ("db", Lifecycle.evict) ∷ []
unfolding on_auth_error Dict.get Dict.pop Pool.evict Pool.evict_one Pool.evict_keys Pool.selects
evicts_once = refl

gives_back : (release_all holding).acquired ≡ []
unfolding release_all Dict.pop
gives_back = refl

on_auth_error_lem_example :
    ((on_auth_error holding).0 ≡ ok (any_refreshes holding holding.acquired))
    × (Dict.get (on_auth_error holding).1.acquired "db"
        ≡ (if refreshes holding "db" then none else Dict.get holding.acquired "db"))
on_auth_error_lem_example =
    on_auth_error_lem holding "db" (unfold Dict.get in (λ e. cc), tt) (refl, tt)
