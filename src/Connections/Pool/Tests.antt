-- ===== src/Connections/Pool/Tests.antt =====
-- The pool at concrete inputs.
use agent_foundry.Prelude.{◌+◌, ◌≡◌, refl, none, some, [], ◌∷◌, arith, ok, err}
use agent_foundry.Prelude.Dict
use agent_foundry.Connections.Pool.{
  Pool, PoolKey, eq_key, other_exception, connection_pool_exhausted, key_error, acquire, release,
  evict, evict_one, evict_keys, selects, selected, close_one, close_all, refresh, lookup, begin,
  finish_build,
}
use agent_foundry.Connections.Pool.Interleaving.{World, start, Step, Reach, here, next}
use agent_foundry.Connections.Pool.Invariant.{IsSound, Reach-IsSound}
use agent_foundry.Connections.Pool.Acquire.{acquire-acquire}
use agent_foundry.Connections.Pool.Evict.{EvictedAbout, evict_lem, evict-overlap}

abbrev key_a : PoolKey
key_a = record { ref = "catalog/postgres"; config_hash = "c1"; project = "hello" }

abbrev key_b : PoolKey
key_b = record { ref = "catalog/postgres"; config_hash = "c2"; project = "hello" }

-- Both keys are built with one slot each, and 7 is checked out.
abbrev one_slot : Pool
one_slot = record start.pool {
  entries = (key_a, 7) ∷ (key_b, 8) ∷ [];
  objects =
      (
        7,
        record {
          connection = 7;
          semaphore = record { value = 0; initial = 1 };
          built_at = 5;
          last_acquired_at = 5;
        },
      )
      ∷ (
        8,
        record {
          connection = 8;
          semaphore = record { value = 1; initial = 1 };
          built_at = 5;
          last_acquired_at = 5;
        },
      )
      ∷ [];
  by_conn_id = (7, key_a) ∷ (8, key_b) ∷ [];
}

program : Unit {0}
unfolding acquire release evict evict_one evict_keys selects selected close_one close_all refresh
    Dict.get Dict.put Dict.pop
program = tt

exhausted : (acquire key_a (ok 9) 1 6 one_slot).0 ≡ err connection_pool_exhausted
unfolding program
exhausted = refl

release_then_acquire : (acquire key_a (ok 9) 1 6 (release 7 one_slot)).0 ≡ ok 7
unfolding program
release_then_acquire = refl

evict_both : (evict "catalog/postgres" none one_slot).1.closed ≡ 7 ∷ 8 ∷ []
unfolding program
evict_both = refl

refresh_other_project : (refresh "catalog/postgres" "other" one_slot).1.closed ≡ []
unfolding program
refresh_other_project = refl

close_both : (close_all one_slot).1.closed ≡ 7 ∷ 8 ∷ []
unfolding program
close_both = refl

abbrev entered : World
entered = record start { pool = begin key_a start.pool; pending = 1 }

abbrev locked : World
locked = record entered { pool = (lookup key_a entered.pool).1 }

abbrev built : World
built = record locked { pool = finish_build key_a 7 1 5 locked.pool; pending = 0 }

Reach-built : Reach start built
unfolding begin lookup finish_build Dict.get Dict.put
Reach-built =
    next (next (next here (Step.enter key_a refl)) (Step.miss key_a refl refl refl))
      (Step.built key_a 7 1 5 0 refl refl refl refl)

Reach-IsSound_example : IsSound built
Reach-IsSound_example = Reach-IsSound Reach-built

acquire-acquire_example :
    let first = acquire key_a (ok 7) 2 5 start.pool in
    let second = acquire key_a (err (other_exception "OSError")) 2 6 first.1 in
    (first.0 ≡ ok 7)
    × (second.0 ≡ ok 7)
    × (second.1.metrics.builds ≡ start.pool.metrics.builds + 1)
    × (second.1.metrics.cache_hits ≡ start.pool.metrics.cache_hits + 1)
acquire-acquire_example =
    acquire-acquire key_a 7 2 5 6 (err (other_exception "OSError")) start.pool
      (unfold Dict.get in refl) (omega arith)

evict_lem_example :
    let r = evict "catalog/postgres" (some "hello") one_slot in
    EvictedAbout "catalog/postgres" (some "hello") one_slot r.0 r.1
evict_lem_example = evict_lem "catalog/postgres" (some "hello") one_slot (refl, (refl, tt))

evict-overlap_example :
    let second = (evict "catalog/postgres" none (evict_one key_a one_slot).1).1 in
    evict_keys (key_b ∷ []) second ≡ (err (key_error key_b), second)
evict-overlap_example =
    evict-overlap "catalog/postgres" none one_slot key_a key_b [] (refl, (refl, tt))
      (unfold selected selects in refl)
