-- ===== src/Connections/Pool.antt =====
-- src/foundry/connections/pool.py, `InProcessConnectionPool`. A coroutine runs from one `await` to
-- the next without interruption: `begin`, `lookup`, `finish_build` or `fail_build`, and `take_slot`
-- are these parts of `acquire`, and `evict_one` is a round of the loop of `evict`. A connection is
-- the identity of its object. An entry is made together with its connection, so `objects` holds the
-- entry objects under the identities of their connections: a task that waits for a slot keeps the
-- entry also when the pool no longer does. `closed` lists the connections whose `close` was awaited.
mod Types
pub mod Interleaving
pub mod Invariant
pub mod Acquire
pub mod Evict
mod Tests
pub use Types.*
use agent_foundry.Prelude.{
  ℕ, zero, suc, ◌+◌, String, ◌≡◌, Bool, true, false, ◌&&◌, Option, none, some, List, [], ◌∷◌, ◌++◌,
  if◌then◌else◌, ◌==◌, eq_string, eq_nat, Result, ok, err, and_then,
}
use agent_foundry.Prelude.Dict
use agent_foundry.Prelude.Dict.{Dict, keys}

-- `_state_for`: the lock of a key is made when it is first asked for, and is free then.
state_for : PoolKey → Pool → Pool
state_for key p = elim (Dict.get p.key_state key) [
  | none ↦ record p { key_state = Dict.put p.key_state key false }
  | some held ↦ p
]

-- `acquire` up to the lock.
unfoldable pub begin : PoolKey → Pool → Pool
unfolding state_for
begin key p =
    state_for key (record p { metrics = record p.metrics { acquires = p.metrics.acquires + 1 } })

-- Under the lock: a hit gives the lock back at once, a miss keeps it while the factory runs.
unfoldable pub lookup : PoolKey → Pool → Option ℕ × Pool
lookup key p = elim (Dict.get p.entries key) [
  | none ↦ (none, record p { key_state = Dict.put p.key_state key true })
  | some c ↦
      (some c, record p { metrics = record p.metrics { cache_hits = p.metrics.cache_hits + 1 } })
]

-- `_build` behind the factory call, and the end of the lock's block.
unfoldable pub finish_build : PoolKey → ℕ → ℕ → ℕ → Pool → Pool
finish_build key c max_concurrent now p = record p {
  entries = Dict.put p.entries key c;
  objects = Dict.put p.objects c (record {
    connection = c;
    semaphore = semaphore max_concurrent;
    built_at = now;
    last_acquired_at = now;
  });
  by_conn_id = Dict.put p.by_conn_id c key;
  metrics = record p.metrics { builds = p.metrics.builds + 1 };
  key_state = Dict.put p.key_state key false;
}

-- The factory raised: the lock is given back, and nothing else was written.
unfoldable pub fail_build : PoolKey → Pool → Pool
fail_build key p = record p { key_state = Dict.put p.key_state key false }

-- What `_build` makes of the factory's exception.
unfoldable pub classify : BuildFailure → PoolError
classify (foundry_error name) = passed_through name
classify (other_exception name) = connection_config_error name

-- `entry.semaphore.acquire()` where a slot is free, and the time stamp behind it.
abbrev pub taken : Entry → ℕ → ℕ → Entry
taken e free now = record e {
  semaphore = record e.semaphore { value = free };
  last_acquired_at = now;
}

unfoldable pub take_slot : ℕ → ℕ → Pool → Option Pool
take_slot c now p = elim (Dict.get p.objects c) [
  | none ↦ none
  | some e ↦ elim e.semaphore.value [
    | zero ↦ none
    | suc free ↦ some (record p { objects = Dict.put p.objects c (taken e free now) })
  ]
]

slot_or_exhausted : ℕ → Option Pool → Pool → Result PoolError ℕ × Pool
slot_or_exhausted c (some p') p = (ok c, p')
slot_or_exhausted c none p = (err connection_pool_exhausted, p)

found_or_built :
    PoolKey → Result BuildFailure ℕ → ℕ → ℕ → Option ℕ × Pool → Result PoolError ℕ × Pool
found_or_built key built max_concurrent now (some c, p) = slot_or_exhausted c (take_slot c now p) p
found_or_built key (ok c) max_concurrent now (none, p) =
    let p' = finish_build key c max_concurrent now p in slot_or_exhausted c (take_slot c now p') p'
found_or_built key (err e) max_concurrent now (none, p) = (err (classify e), fail_build key p)

-- `acquire` with no other task between its parts: `built` is what the factory gives if it is
-- called, and where no slot is free none is freed before the timeout.
unfoldable pub acquire : PoolKey → Result BuildFailure ℕ → ℕ → ℕ → Pool → Result PoolError ℕ × Pool
unfolding begin lookup finish_build fail_build take_slot slot_or_exhausted found_or_built
acquire key built max_concurrent now p =
    found_or_built key built max_concurrent now (lookup key (begin key p))

-- `entry.semaphore.release()`
abbrev pub returned : Entry → Entry
returned e = record e { semaphore = record e.semaphore { value = e.semaphore.value + 1 } }

release_slot : ℕ → Option Entry → Pool → Pool
release_slot c none p = p
release_slot c (some e) p = record p {
  objects = Dict.put p.objects c (returned e);
  metrics = record p.metrics { releases = p.metrics.releases + 1 };
}

-- The slot goes back only to an entry that the pool still holds, for this very connection.
unfoldable pub release : ℕ → Pool → Pool
unfolding release_slot
release c p = elim (Dict.get p.by_conn_id c) [
  | none ↦ p
  | some key ↦ elim (Dict.get p.entries key) [
    | none ↦ p
    | some c' ↦ if c' == c then release_slot c (Dict.get p.objects c) p else p
  ]
]

-- `key[0] == ref and (project is None or key[2] == project)`
unfoldable pub selects : String → Option String → PoolKey → Bool
selects ref none key = key.ref == ref
selects ref (some project) key = key.ref == ref && key.project == project

-- The keys that `evict` lists before its loop.
pub selected : String → Option String → List PoolKey → List PoolKey
selected ref project [] = []
selected ref project (key ∷ rest) =
    let more = selected ref project rest in if selects ref project key then key ∷ more else more

abbrev pub evicted : PoolKey → ℕ → Pool → Pool
evicted key c p = record p {
  entries = Dict.pop p.entries key;
  by_conn_id = Dict.pop p.by_conn_id c;
  metrics = record p.metrics { evictions = p.metrics.evictions + 1 };
  closed = p.closed ++ c ∷ [];
}

-- A round of the loop of `evict`: `self._entries.pop(key)` raises `KeyError` on a missing key.
unfoldable pub evict_one : PoolKey → Pool → Result PoolError (Unit {0}) × Pool
evict_one key p = elim (Dict.get p.entries key) [
  | none ↦ (err (key_error key), p)
  | some c ↦ (ok tt, evicted key c p)
]

unfoldable pub evict_keys : List PoolKey → Pool → Result PoolError (Unit {0}) × Pool
evict_keys [] p = (ok tt, p)
evict_keys (key ∷ rest) p = and_then (evict_one key p) (evict_keys rest)

-- `evict` with no other task between its rounds.
unfoldable pub evict : String → Option String → Pool → Result PoolError (Unit {0}) × Pool
unfolding selected evict_keys
evict ref project p = evict_keys (selected ref project (keys p.entries)) p

unfoldable pub refresh : String → String → Pool → Result PoolError (Unit {0}) × Pool
refresh ref project p =
    evict ref (some project)
      (record p { metrics = record p.metrics { refreshes = p.metrics.refreshes + 1 } })

-- A round of the loop of `close_all`: an eviction that is not counted.
unfoldable pub close_one : PoolKey → Pool → Result PoolError (Unit {0}) × Pool
close_one key p = elim (Dict.get p.entries key) [
  | none ↦ (err (key_error key), p)
  | some c ↦ (
    ok tt,
    record p {
      entries = Dict.pop p.entries key;
      by_conn_id = Dict.pop p.by_conn_id c;
      closed = p.closed ++ c ∷ [];
    },
  )
]

close_keys : List PoolKey → Pool → Result PoolError (Unit {0}) × Pool
close_keys [] p = (ok tt, p)
close_keys (key ∷ rest) p = and_then (close_one key p) (close_keys rest)

unfoldable pub close_all : Pool → Result PoolError (Unit {0}) × Pool
unfolding close_keys
close_all p = close_keys (keys p.entries) p
