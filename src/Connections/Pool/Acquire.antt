-- ===== src/Connections/Pool/Acquire.antt =====
-- `acquire` and `release` of src/foundry/connections/pool.py, without interruption: reuse of a
-- connection, the cap on its checkouts, failing builds, and the way back of a slot.
use agent_foundry.Prelude.{
  ℕ, suc, ◌+◌, ◌-◌, ◌<◌, ◌≡◌, refl, none, some, arith, ==_iff, Result, ok, err, eq_nat,
}
use agent_foundry.Prelude.Dict
use agent_foundry.Prelude.Dict.{get-put}
use agent_foundry.Connections.Pool.{
  Pool, PoolKey, Entry, eq_key, BuildFailure, connection_pool_exhausted, acquire, release, taken,
  returned,
}

-- The entry that a build at time `now` makes, with `free` slots left.
abbrev built_entry : ℕ → ℕ → ℕ → ℕ → Entry
built_entry c max_concurrent now free = record {
  connection = c;
  semaphore = record { value = free; initial = max_concurrent };
  built_at = now;
  last_acquired_at = now;
}

module _ (key : PoolKey) (built : Result BuildFailure ℕ) (max_concurrent now : ℕ) (p : Pool) where
  -- A key that the pool holds is served from the pool, whatever the factory would give: the same
  -- connection with one slot fewer, and no build is counted.
  pub acquire-hit :
      (c free : ℕ) (e : Entry)
      → Dict.get p.entries key ≡ some c
      → Dict.get p.objects c ≡ some e
      → e.semaphore.value ≡ suc free
      → let r = acquire key built max_concurrent now p in
        (r.0 ≡ ok c)
        × (Dict.get r.1.objects c ≡ some (taken e free now))
        × (r.1.metrics.builds ≡ p.metrics.builds)
        × (r.1.metrics.cache_hits ≡ p.metrics.cache_hits + 1)
  unfolding acquire
  acquire-hit c free e q o v = ground (arith, get-put p.objects c c (taken e free now), ==_iff c c)

  -- With no slot left the call raises, and neither the entries nor their slots change.
  pub acquire-exhausted :
      (c : ℕ) (e : Entry)
      → Dict.get p.entries key ≡ some c
      → Dict.get p.objects c ≡ some e
      → e.semaphore.value ≡ 0
      → let r = acquire key built max_concurrent now p in
        (r.0 ≡ err connection_pool_exhausted)
        × (r.1.entries ≡ p.entries)
        × (r.1.objects ≡ p.objects)
  unfolding acquire
  acquire-exhausted c e q o v = ground arith

  -- On a key that the pool does not hold, with at least one slot to give: what the factory makes is
  -- stored under the key and leads back to it, with one slot taken, and one build is counted.
  acquire-cold :
      (c : ℕ)
      → Dict.get p.entries key ≡ none
      → built ≡ ok c
      → 0 < max_concurrent
      → let r = acquire key built max_concurrent now p in
        (r.0 ≡ ok c)
        × (Dict.get r.1.entries key ≡ some c)
        × (Dict.get r.1.by_conn_id c ≡ some key)
        × (Dict.get r.1.objects c ≡ some (built_entry c max_concurrent now (max_concurrent - 1)))
        × (r.1.metrics.builds ≡ p.metrics.builds + 1)
        × (r.1.metrics.cache_hits ≡ p.metrics.cache_hits)
  unfolding acquire
  acquire-cold c cold b room =
      let e = built_entry c max_concurrent now max_concurrent in
      ground (
        arith,
        get-put p.entries key key c,
        get-put p.by_conn_id c c key,
        get-put p.objects c c e,
        get-put (Dict.put p.objects c e) c c (taken e (max_concurrent - 1) now),
        ==_iff c c,
        ==_iff key key,
      )

  -- Giving a connection back that was just acquired restores its entry, but for the time stamp.
  pub release-acquire :
      (c free : ℕ) (e : Entry)
      → Dict.get p.entries key ≡ some c
      → Dict.get p.by_conn_id c ≡ some key
      → Dict.get p.objects c ≡ some e
      → e.semaphore.value ≡ suc free
      → Dict.get (release c (acquire key built max_concurrent now p).1).objects c
        ≡ some (record e { last_acquired_at = now })
  unfolding acquire release
  release-acquire c free e q b o v = ground (
    arith,
    get-put p.objects c c (taken e free now),
    ==_iff c c,
    get-put (Dict.put p.objects c (taken e free now)) c c (returned (taken e free now)),
  )

-- Two calls for a key that the pool does not hold, where more than one slot may be checked out and the
-- first call's factory gives a connection, share it and one build: the second is a cache hit, whatever
-- its factory would have given.
pub acquire-acquire :
    (key : PoolKey) (c max_concurrent now now' : ℕ) (other : Result BuildFailure ℕ) (p : Pool)
    → Dict.get p.entries key ≡ none
    → 1 < max_concurrent
    → let first = acquire key (ok c) max_concurrent now p in
      let second = acquire key other max_concurrent now' first.1 in
      (first.0 ≡ ok c)
      × (second.0 ≡ ok c)
      × (second.1.metrics.builds ≡ p.metrics.builds + 1)
      × (second.1.metrics.cache_hits ≡ p.metrics.cache_hits + 1)
acquire-acquire key c m now now' other p cold room =
    let one = acquire-cold key (ok c) m now p c cold refl (omega arith) in
    let two =
      acquire-hit key other m now' (acquire key (ok c) m now p).1 c (m - 2)
        (built_entry c m now (m - 1)) one.1 one.3 (omega arith) in
    (one.0, two.0, omega (arith, one.4, two.2), omega (arith, one.5, two.3))
