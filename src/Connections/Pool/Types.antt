-- ===== src/Connections/Pool/Types.antt =====
-- The state of the connection pool.
use agent_foundry.Prelude.{
  ℕ, String, ◌≡◌, ◌↔◌, Bool, true, ◌&&◌, List, arith, DecEq, ◌==◌, eq_string, ==_iff,
}
use agent_foundry.Prelude.Dict.{Dict}

-- (canonical ref, config_hash, project)
pub record PoolKey : Type 0 where
  pub ref : String
  pub config_hash : String
  pub project : String

abbrev pub same_key : PoolKey → PoolKey → Bool
same_key a b = a.ref == b.ref && a.config_hash == b.config_hash && a.project == b.project

pub same_key_iff : (a b : PoolKey) → (same_key a b ≡ true) ↔ (a ≡ b)
same_key_iff a b =
    ground
      (arith, ==_iff a.ref b.ref, ==_iff a.config_hash b.config_hash, ==_iff a.project b.project)

instance abbrev pub eq_key : DecEq PoolKey
eq_key = record { test = same_key; decides = same_key_iff }

-- `asyncio.Semaphore(n)` counts the free slots. `initial` is the n that it was made with.
pub record Semaphore : Type 0 where
  pub value : ℕ
  pub initial : ℕ

abbrev pub semaphore : ℕ → Semaphore
semaphore n = record { value = n; initial = n }

pub record Entry : Type 0 where
  pub connection : ℕ
  pub semaphore : Semaphore
  pub built_at : ℕ
  pub last_acquired_at : ℕ

pub record PoolMetrics : Type 0 where
  pub acquires : ℕ
  pub cache_hits : ℕ
  pub builds : ℕ
  pub evictions : ℕ
  pub refreshes : ℕ
  pub releases : ℕ

pub record Pool : Type 0 where
  pub entries : Dict PoolKey ℕ
  pub objects : Dict ℕ Entry
  pub key_state : Dict PoolKey Bool
  pub by_conn_id : Dict ℕ PoolKey
  pub metrics : PoolMetrics
  pub closed : List ℕ

-- What the factory raised: a classified error of the program, or any other exception.
pub data BuildFailure : Type 0 where
  foundry_error : String → BuildFailure
  other_exception : String → BuildFailure

pub data PoolError : Type 0 where
  passed_through : String → PoolError
  connection_config_error : String → PoolError
  connection_pool_exhausted : PoolError
  key_error : PoolKey → PoolError
