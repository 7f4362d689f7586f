-- ===== src/Connections/Accessor.antt =====
-- src/foundry/connections/pool.py, `SlotConnectionAccessor`: slot names in, pooled connections out,
-- for one tool call. `emitted` is what the accessor has sent to its `emit` callback, if it has one;
-- latencies are left out of the events. `on_auth_error` stands for a run of it in which no other task
-- runs at its awaits.
pub mod Auth
mod Tests
use agent_foundry.Prelude.{
  ℕ, String, ◌≡◌, Bool, true, false, Option, none, some, List, [], ◌∷◌, ◌++◌, if◌then◌else◌, ◌==◌,
  eq_string, ltb, Result, ok, err,
}
use agent_foundry.Prelude.Dict
use agent_foundry.Prelude.Dict.{Dict}
use agent_foundry.Connections.Pool
use agent_foundry.Connections.Pool.{Pool, PoolError, BuildFailure}

pub record PreparedConnection : Type 0 where
  pub canonical_ref : String
  pub config_hash : String
  pub refresh_mode : String
  pub max_concurrent : ℕ

pub data Lifecycle : Type 0 where
  acquire cache_hit evict : Lifecycle

pub record Accessor : Type 0 where
  pub pool : Pool
  pub project : String
  pub slots : Dict String PreparedConnection
  pub has_emit : Bool
  pub acquired : Dict String ℕ
  pub emitted : List (String × Lifecycle)

pub data AccessError : Type 0 where
  connection_slot_not_declared : String → AccessError
  slot_key_error : String → AccessError
  pool_error : PoolError → AccessError

-- `if self._emit is not None: self._emit(ConnectionEvent, …)`
abbrev emit : String → Lifecycle → Accessor → Accessor
emit slot lifecycle a =
    if a.has_emit then record a { emitted = a.emitted ++ (slot, lifecycle) ∷ [] } else a

got : String → ℕ → Result PoolError ℕ × Pool → Accessor → Result AccessError ℕ × Accessor
got slot builds_before (err e, p) a = (err (pool_error e), record a { pool = p })
got slot builds_before (ok c, p) a =
    let lifecycle = if ltb builds_before p.metrics.builds then acquire else cache_hit in
    (ok c, emit slot lifecycle (record a { pool = p; acquired = Dict.put a.acquired slot c }))

-- `get`: `built` is what the slot's factory gives if it is called.
unfoldable pub get : String → Result BuildFailure ℕ → ℕ → Accessor → Result AccessError ℕ × Accessor
unfolding got
get slot built now a = elim (Dict.get a.slots slot) [
  | none ↦ (err (connection_slot_not_declared slot), a)
  | some s ↦
      let key : Pool.PoolKey = record {
        ref = s.canonical_ref;
        config_hash = s.config_hash;
        project = a.project;
      } in
      got slot a.pool.metrics.builds (Pool.acquire key built s.max_concurrent now a.pool) a
]

evicted :
    String → Result PoolError (Unit {0}) × Pool → Accessor → Result AccessError Bool × Accessor
evicted slot (err e, p) a = (err (pool_error e), record a { pool = p })
evicted slot (ok _, p) a =
    (ok true, emit slot evict (record a { pool = p; acquired = Dict.pop a.acquired slot }))

-- A round of the loop of `on_auth_error`: whether it evicted.
auth_round : String → Accessor → Result AccessError Bool × Accessor
unfolding evicted
auth_round slot a = elim (Dict.get a.slots slot) [
  | none ↦ (err (slot_key_error slot), a)
  | some s ↦
      if s.refresh_mode == "on_auth_error"
      then evicted slot (Pool.evict s.canonical_ref (some a.project) a.pool) a
      else (ok false, a)
]

auth_rounds : List (String × ℕ) → Bool → Accessor → Result AccessError Bool × Accessor
auth_rounds [] done a = (ok done, a)
auth_rounds ((slot, c) ∷ rest) done a =
    let (r, a') = auth_round slot a in
    elim r [ err e ↦ (err e, a') | ok now ↦ auth_rounds rest (if now then true else done) a' ]

-- Evicts the acquired slots whose policy is to refresh on an auth error; `true` if there was one.
unfoldable pub on_auth_error : Accessor → Result AccessError Bool × Accessor
unfolding auth_round auth_rounds
on_auth_error a = auth_rounds a.acquired false a

release_rounds : List (String × ℕ) → Accessor → Accessor
release_rounds [] a = a
release_rounds ((slot, c) ∷ rest) a =
    release_rounds rest
      (record a { pool = Pool.release c a.pool; acquired = Dict.pop a.acquired slot })

-- Gives every acquired connection back.
unfoldable pub release_all : Accessor → Accessor
unfolding release_rounds
release_all a = release_rounds a.acquired a
