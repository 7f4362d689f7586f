-- ===== src/Connections/Accessor/Auth.antt =====
-- What `on_auth_error` and `release_all` of src/foundry/connections/pool.py leave behind.
use agent_foundry.Prelude.{
  ℕ, String, ◌≡◌, ◌≢◌, refl, Bool, true, false, ◌||◌, ◌&&◌, none, some, List, [], ◌∷◌, arith,
  if◌then◌else◌, contains, Distinct, ==_iff, ◌==◌, eq_string, Result, ok, Option-cases, inl, inr,
  Bool-cases,
}
use agent_foundry.Prelude.Dict
use agent_foundry.Prelude.Dict.{Dict, keys, get-pop, get-eq_none, get-ne_none}
use agent_foundry.Connections.Pool
use agent_foundry.Connections.Pool.{PoolKey, eq_key, selects, evict}
use agent_foundry.Connections.Pool.Evict.{evict_lem, selects-is_about, evict-Distinct}
use agent_foundry.Connections.Accessor.{
  Accessor, PreparedConnection, AccessError, auth_round, auth_rounds, on_auth_error, release_rounds,
  release_all,
}

-- The slot's policy is to refresh on an auth error.
abbrev pub refreshes : Accessor → String → Bool
refreshes a slot = elim (Dict.get a.slots slot) [
  | none ↦ false
  | some s ↦ s.refresh_mode == "on_auth_error"
]

abbrev pub any_refreshes : Accessor → List (String × ℕ) → Bool
any_refreshes a [] = false
any_refreshes a ((slot, c) ∷ rest) = refreshes a slot || any_refreshes a rest

abbrev Declared : Accessor → List (String × ℕ) → Type 0
Declared a [] = Unit
Declared a ((slot, c) ∷ rest) = (Dict.get a.slots slot ≢ none) × Declared a rest

-- What one round does.
record Round (slot : String) (a : Accessor) (r : Result AccessError Bool) (a' : Accessor)
    : Type 0 where
  succeeds : r ≡ ok (refreshes a slot)
  same_slots : a'.slots ≡ a.slots
  same_project : a'.project ≡ a.project
  acquired_left :
      (s : String)
      → Dict.get a'.acquired s
        ≡ (if refreshes a slot && slot == s then none else Dict.get a.acquired s)
  entries_left :
      (k : PoolKey) → Dict.get a.pool.entries k ≡ none → Dict.get a'.pool.entries k ≡ none
  evicts :
      (p : PreparedConnection) (k : PoolKey)
      → Dict.get a.slots slot ≡ some p
      → refreshes a slot ≡ true
      → selects p.canonical_ref (some a.project) k ≡ true
      → Dict.get a'.pool.entries k ≡ none
  keys_once : Distinct (keys a'.pool.entries)

auth_round-Round :
    (slot : String) (a : Accessor)
    → Dict.get a.slots slot ≢ none
    → Distinct (keys a.pool.entries)
    → Round slot a (auth_round slot a).0 (auth_round slot a).1
unfolding auth_round
auth_round-Round slot a declared d = elim (Option-cases (Dict.get a.slots slot)) [
  | inl absent ↦ absurd (declared absent)
  | inr (p, found) ↦
      let e = evict_lem p.canonical_ref (some a.project) a.pool d in
      let fine = e.succeeds in
      let left : (k : PoolKey)
          → Dict.get (evict p.canonical_ref (some a.project) a.pool).1.entries k ≡ (
              if selects p.canonical_ref (some a.project) k
              then none
              else Dict.get a.pool.entries k) =
        λ k.
          ground (arith, e.entries_left k, selects-is_about p.canonical_ref (some a.project) k) in
      let once = evict-Distinct p.canonical_ref (some a.project) a.pool d in
      record {
        succeeds = ground (arith, fine);
        same_slots = ground (arith, fine);
        same_project = ground (arith, fine);
        acquired_left = λ s. ground (arith, fine, get-pop a.acquired slot s);
        entries_left = λ k. ground (arith, fine, left k);
        evicts = λ q k. ground (arith, fine, left k);
        keys_once = ground (arith, fine, once);
      }
]

refreshes-cong :
    (a a' : Accessor) (s : String) → a'.slots ≡ a.slots → refreshes a' s ≡ refreshes a s
refreshes-cong a a' s e = rw e

Declared-cong :
    (a a' : Accessor) (items : List (String × ℕ))
    → a'.slots ≡ a.slots
    → Declared a items
    → Declared a' items
Declared-cong a a' [] e h = tt
Declared-cong a a' ((slot, c) ∷ rest) e h = (rw e h.0, Declared-cong a a' rest e h.1)

any_refreshes-cong :
    (a a' : Accessor) (items : List (String × ℕ))
    → a'.slots ≡ a.slots
    → any_refreshes a' items ≡ any_refreshes a items
any_refreshes-cong a a' [] e = refl
any_refreshes-cong a a' ((slot, c) ∷ rest) e = rw (e, any_refreshes-cong a a' rest e)

-- What the loop does over some of the acquired slots.
record Rounds (items : List (String × ℕ)) (done : Bool) (a : Accessor) (r : Result AccessError Bool)
    (a' : Accessor) : Type 0 where
  succeeds : r ≡ ok (done || any_refreshes a items)
  acquired_left :
      (s : String)
      → Dict.get a'.acquired s
        ≡ (if refreshes a s && contains s (keys items) then none else Dict.get a.acquired s)
  entries_left :
      (k : PoolKey) → Dict.get a.pool.entries k ≡ none → Dict.get a'.pool.entries k ≡ none
  evicts :
      (slot : String) (p : PreparedConnection) (k : PoolKey)
      → contains slot (keys items) ≡ true
      → Dict.get a.slots slot ≡ some p
      → refreshes a slot ≡ true
      → selects p.canonical_ref (some a.project) k ≡ true
      → Dict.get a'.pool.entries k ≡ none

auth_rounds-Rounds :
    (items : List (String × ℕ)) (done : Bool) (a : Accessor)
    → Declared a items
    → Distinct (keys a.pool.entries)
    → Rounds items done a (auth_rounds items done a).0 (auth_rounds items done a).1
unfolding auth_rounds
auth_rounds-Rounds [] done a h d = record {
  succeeds = ground arith;
  acquired_left = λ s. ground arith;
  entries_left = λ k e. e;
  evicts = λ slot p k listed found on selected. cc;
}
auth_rounds-Rounds ((slot, c) ∷ rest) done a h d =
    let first = auth_round-Round slot a h.0 d in
    let a1 = (auth_round slot a).1 in
    let now : Bool = (if refreshes a slot then true else done) in
    let later =
      auth_rounds-Rounds rest now a1 (Declared-cong a a1 rest first.same_slots h.1)
        first.keys_once in
    rw (first.succeeds, auth_rounds)
      (record {
        succeeds = ground (arith, later.succeeds, any_refreshes-cong a a1 rest first.same_slots);
        acquired_left = λ s. ground (
          arith,
          later.acquired_left s,
          first.acquired_left s,
          refreshes-cong a a1 s first.same_slots,
          ==_iff slot s,
        );
        entries_left = λ k e. later.entries_left k (first.entries_left k e);
        evicts = λ s p k listed found on selected. elim (Bool-cases (slot == s)) [
          | inl same ↦ later.entries_left k (
              first.evicts p k (rw ((==_iff slot s).0 same) found) (rw ((==_iff slot s).0 same) on)
                selected)
          | inr other ↦
              later.evicts s p k (ground arith) (rw first.same_slots found)
                (ground (arith, refreshes-cong a a1 s first.same_slots))
                (rw first.same_project selected)
        ];
      })

-- A run of `on_auth_error` in which no other task runs at its awaits: where every acquired slot is
-- declared and the pool's entries hold each key once, it does not raise, and answers whether an
-- acquired slot has the policy to refresh on an auth error. A slot with that policy is no longer
-- acquired, and any other slot is acquired as before.
pub on_auth_error_lem :
    (a : Accessor) (s : String)
    → Declared a a.acquired
    → Distinct (keys a.pool.entries)
    → ((on_auth_error a).0 ≡ ok (any_refreshes a a.acquired))
      × (Dict.get (on_auth_error a).1.acquired s
          ≡ (if refreshes a s then none else Dict.get a.acquired s))
unfolding on_auth_error
on_auth_error_lem a s h d =
    let all = auth_rounds-Rounds a.acquired false a h d in
    (all.succeeds, ground (arith, all.acquired_left s, get-eq_none a.acquired s))

-- Under the same conditions, for an acquired slot with that policy the pool holds no entry of the
-- slot's reference in the accessor's project any more.
pub on_auth_error-evicts :
    (a : Accessor) (s : String) (p : PreparedConnection) (k : PoolKey)
    → Declared a a.acquired
    → Distinct (keys a.pool.entries)
    → Dict.get a.acquired s ≢ none
    → Dict.get a.slots s ≡ some p
    → refreshes a s ≡ true
    → selects p.canonical_ref (some a.project) k ≡ true
    → Dict.get (on_auth_error a).1.pool.entries k ≡ none
unfolding on_auth_error
on_auth_error-evicts a s p k h d held found on selected =
    (auth_rounds-Rounds a.acquired false a h d).evicts s p k
      (ground (arith, held, get-eq_none a.acquired s)) found on selected

release_rounds-acquired :
    (items : List (String × ℕ)) (a : Accessor) (s : String)
    → Dict.get (release_rounds items a).acquired s
      ≡ (if contains s (keys items) then none else Dict.get a.acquired s)
unfolding release_rounds
release_rounds-acquired [] a s = refl
release_rounds-acquired ((slot, c) ∷ rest) a s =
    let a1 = record a { pool = Pool.release c a.pool; acquired = Dict.pop a.acquired slot } in
    ground (arith, release_rounds-acquired rest a1 s, get-pop a.acquired slot s)

is_empty : (d : Dict String ℕ) → ((s : String) → Dict.get d s ≡ none) → d ≡ []
unfolding Dict.get
is_empty [] h = refl
is_empty ((s, c) ∷ d) h = ground (arith, h s, ==_iff s s)

-- After `release_all` no slot is acquired, so a second call gives nothing back again.
pub release_all_idem : (a : Accessor) → release_all (release_all a) ≡ release_all a
unfolding release_all
release_all_idem a = rw (
  is_empty (release_rounds a.acquired a).acquired
      λ s. ground (arith, release_rounds-acquired a.acquired a s, get-eq_none a.acquired s),
  release_rounds,
)
