-- ===== src/Connections/Pool/Interleaving.antt =====
-- The pool of src/foundry/connections/pool.py under any interleaving of tasks: a step is what one
-- task does between two of its `await`s. `held c` counts the checkouts of connection c that were
-- not given back, `pending` the tasks between the start of `acquire` and the end of its lock's
-- block, `failed` the builds that raised, and `abandoned` the tasks that were cancelled in that part,
-- while they waited for the lock or for the factory.
use agent_foundry.Prelude.{
  ℕ, suc, ◌+◌, ◌≡◌, true, false, none, some, [], if◌then◌else◌, ◌==◌, eq_nat, ok,
}
use agent_foundry.Prelude.Dict
use agent_foundry.Connections.Pool.{
  Pool, PoolKey, eq_key, begin, lookup, finish_build, fail_build, take_slot, release, evict_one,
  close_one,
}

pub record World : Type 0 where
  pub pool : Pool
  pub held : ℕ → ℕ
  pub pending : ℕ
  pub failed : ℕ
  pub abandoned : ℕ

abbrev pub start : World
start = record {
  pool = record {
    entries = [];
    objects = [];
    key_state = [];
    by_conn_id = [];
    metrics = record {
      acquires = 0;
      cache_hits = 0;
      builds = 0;
      evictions = 0;
      refreshes = 0;
      releases = 0;
    };
    closed = [];
  };
  held = λ c. 0;
  pending = 0;
  failed = 0;
  abandoned = 0;
}

abbrev pub update : (ℕ → ℕ) → ℕ → ℕ → ℕ → ℕ
update f c n j = if c == j then n else f j

-- The premises are what the code has tested where the step begins: the lock is free, a slot is free,
-- the connection is checked out. Two are assumptions: a factory makes a connection that none made
-- before, which the code takes for granted, and who gives a connection back has it checked out.
pub data Step (w u : World) : Type 0 where
  enter :
      (key : PoolKey) → u ≡ record w { pool = begin key w.pool; pending = w.pending + 1 } → Step w u
  hit :
      (key : PoolKey) (c n : ℕ)
      → Dict.get w.pool.key_state key ≡ some false
      → w.pending ≡ suc n
      → Dict.get w.pool.entries key ≡ some c
      → u ≡ record w { pool = (lookup key w.pool).1; pending = n }
      → Step w u
  miss :
      (key : PoolKey)
      → Dict.get w.pool.key_state key ≡ some false
      → Dict.get w.pool.entries key ≡ none
      → u ≡ record w { pool = (lookup key w.pool).1 }
      → Step w u
  built :
      (key : PoolKey) (c max_concurrent now n : ℕ)
      → Dict.get w.pool.key_state key ≡ some true
      → Dict.get w.pool.objects c ≡ none
      → w.pending ≡ suc n
      → u ≡ record w { pool = finish_build key c max_concurrent now w.pool; pending = n }
      → Step w u
  build_fails :
      (key : PoolKey) (n : ℕ)
      → Dict.get w.pool.key_state key ≡ some true
      → w.pending ≡ suc n
      → u ≡ record w { pool = fail_build key w.pool; pending = n; failed = w.failed + 1 }
      → Step w u
  abandon_wait :
      (n : ℕ)
      → w.pending ≡ suc n
      → u ≡ record w { pending = n; abandoned = w.abandoned + 1 }
      → Step w u
  abandon_build :
      (key : PoolKey) (n : ℕ)
      → Dict.get w.pool.key_state key ≡ some true
      → w.pending ≡ suc n
      → u ≡ record w { pool = fail_build key w.pool; pending = n; abandoned = w.abandoned + 1 }
      → Step w u
  take :
      (c now : ℕ) (p : Pool)
      → take_slot c now w.pool ≡ some p
      → u ≡ record w { pool = p; held = update w.held c (w.held c + 1) }
      → Step w u
  give_back :
      (c n : ℕ)
      → w.held c ≡ suc n
      → u ≡ record w { pool = release c w.pool; held = update w.held c n }
      → Step w u
  evict :
      (key : PoolKey) (p : Pool)
      → evict_one key w.pool ≡ (ok tt, p)
      → u ≡ record w { pool = p }
      → Step w u
  close :
      (key : PoolKey) (p : Pool)
      → close_one key w.pool ≡ (ok tt, p)
      → u ≡ record w { pool = p }
      → Step w u

pub data Reach (w : World) : World → Type 0 where
  here : Reach w w
  next : {u v : World} → Reach w u → Step u v → Reach w v
