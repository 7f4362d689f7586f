-- ===== src/Connections/Pool/Invariant.antt =====
-- What holds of the pool in every interleaving.
use agent_foundry.Prelude.{
  ℕ, suc, ◌+◌, ◌≤◌, ◌≡◌, ◌-◌, ◌≢◌, ◌⊎◌, inl, inr, refl, Bool, true, false, Option, Option-cases,
  none, some, arith, Distinct, eq_nat, ==_iff,
}
use agent_foundry.Prelude.Dict
use agent_foundry.Prelude.Dict.{
  keys, keys-put-Distinct, keys-pop-Distinct, dict_laws, get-put, get-pop, get-empty,
}
use agent_foundry.Connections.Pool.{
  Pool, PoolKey, Entry, semaphore, taken, returned, eq_key, begin, lookup, finish_build, fail_build,
  take_slot, release, evict_one, close_one,
}
use agent_foundry.Connections.Pool.Interleaving.{World, start, Step, Reach, here, next}

-- A key whose lock is held for a build has no entry, so a build replaces none.
abbrev pub LockedIsCold : World → Type 0
LockedIsCold w =
    (key : PoolKey) → Dict.get w.pool.key_state key ≡ some true → Dict.get w.pool.entries key ≡ none

-- Each entry's connection leads back to the entry's key.
abbrev pub LeadsBack : World → Type 0
LeadsBack w =
    (key : PoolKey) (c : ℕ)
    → Dict.get w.pool.entries key ≡ some c
    → Dict.get w.pool.by_conn_id c ≡ some key

-- The pool's entries have their objects, and only what was made is checked out.
abbrev pub EntriesMade : World → Type 0
EntriesMade w =
    (key : PoolKey) (c : ℕ)
    → Dict.get w.pool.entries key ≡ some c
    → Dict.get w.pool.objects c ≢ none

abbrev pub HeldMade : World → Type 0
HeldMade w = (c : ℕ) → Dict.get w.pool.objects c ≡ none → w.held c ≡ 0

-- The checkouts of a connection and the free slots of its entry are no more than the slots.
abbrev pub WithinSlots : World → Type 0
WithinSlots w =
    (c : ℕ) (e : Entry)
    → Dict.get w.pool.objects c ≡ some e
    → e.semaphore.value + w.held c ≤ e.semaphore.initial

-- Every acquire so far was a hit, a build, a failed build, was cancelled, or is still under way.
abbrev pub Accounted : World → Type 0
Accounted w =
    w.pool.metrics.acquires
    ≡ w.pool.metrics.cache_hits + w.pool.metrics.builds + w.failed + w.abandoned + w.pending

-- The dictionary of entries holds each key once.
abbrev pub KeysOnce : World → Type 0
KeysOnce w = Distinct (keys w.pool.entries)

-- What `take_slot` and `release` do to the objects.
take_slot-eq-some :
    (c now : ℕ) (p p' : Pool)
    → take_slot c now p ≡ some p'
    → (e : Entry) × (free : ℕ) × (Dict.get p.objects c ≡ some e)
      × (e.semaphore.value ≡ suc free)
      × (p' ≡ record p { objects = Dict.put p.objects c (taken e free now) })
unfolding take_slot
take_slot-eq-some c now p p' t = go (Dict.get p.objects c) refl
  where
    go :
        (o : Option Entry)
        → Dict.get p.objects c ≡ o
        → (e : Entry) × (free : ℕ) × (Dict.get p.objects c ≡ some e)
          × (e.semaphore.value ≡ suc free)
          × (p' ≡ record p { objects = Dict.put p.objects c (taken e free now) })
    go none q = ground arith
    go (some e) q = (e, e.semaphore.value - 1, q, ground arith, ground arith)

release_cases :
    (c : ℕ) (p : Pool)
    → (release c p ≡ p)
      ⊎ ((e : Entry) × (Dict.get p.objects c ≡ some e)
          × (release c p ≡ record p {
            objects = Dict.put p.objects c (returned e);
            metrics = record p.metrics { releases = p.metrics.releases + 1 };
          }))
unfolding release
release_cases c p = go (Dict.get p.objects c) refl
  where
    go :
        (o : Option Entry)
        → Dict.get p.objects c ≡ o
        → (release c p ≡ p)
          ⊎ ((e : Entry) × (Dict.get p.objects c ≡ some e)
              × (release c p ≡ record p {
                objects = Dict.put p.objects c (returned e);
                metrics = record p.metrics { releases = p.metrics.releases + 1 };
              }))
    go none q = inl (ground arith)
    go (some e) q = ground arith

Step-Accounted : (w u : World) → Step w u → Accounted w → Accounted u
unfolding begin lookup finish_build fail_build take_slot release evict_one close_one
Step-Accounted w u (Step.enter key e) h = ground arith
Step-Accounted w u (Step.hit key c n l m g e) h = ground arith
Step-Accounted w u (Step.miss key l g e) h = ground arith
Step-Accounted w u (Step.built key c m now n l o q e) h = ground arith
Step-Accounted w u (Step.build_fails key n l q e) h = ground arith
Step-Accounted w u (Step.abandon_build key n l q e) h = ground arith
Step-Accounted w u (Step.abandon_wait n q e) h = ground arith
Step-Accounted w u (Step.take c now p t e) h = ground arith
Step-Accounted w u (Step.give_back c n q e) h = ground arith
Step-Accounted w u (Step.evict key p r e) h = ground arith
Step-Accounted w u (Step.close key p r e) h = ground arith

Step-LockedIsCold : (w u : World) → Step w u → LockedIsCold w → LockedIsCold u
unfolding begin lookup finish_build fail_build take_slot release evict_one close_one
Step-LockedIsCold w u (Step.enter key e) h k =
    ground (arith, h k, get-put w.pool.key_state key k false, ==_iff key k)
Step-LockedIsCold w u (Step.hit key c n l m g e) h k = ground (arith, h k)
Step-LockedIsCold w u (Step.miss key l g e) h k =
    ground (arith, h k, get-put w.pool.key_state key k true, ==_iff key k)
Step-LockedIsCold w u (Step.built key c m now n l o q e) h k =
    ground (
      arith,
      h k,
      get-put w.pool.key_state key k false,
      get-put w.pool.entries key k c,
      ==_iff key k,
    )
Step-LockedIsCold w u (Step.build_fails key n l q e) h k =
    ground (arith, h k, get-put w.pool.key_state key k false, ==_iff key k)
Step-LockedIsCold w u (Step.abandon_build key n l q e) h k =
    ground (arith, h k, get-put w.pool.key_state key k false, ==_iff key k)
Step-LockedIsCold w u (Step.abandon_wait n q e) h k = ground (arith, h k)
Step-LockedIsCold w u (Step.take c now p t e) h k = ground (arith, h k)
Step-LockedIsCold w u (Step.give_back c n q e) h k = ground (arith, h k)
Step-LockedIsCold w u (Step.evict key p r e) h k = ground (arith, h k, get-pop w.pool.entries key k)
Step-LockedIsCold w u (Step.close key p r e) h k = ground (arith, h k, get-pop w.pool.entries key k)

Step-EntriesMade : (w u : World) → Step w u → EntriesMade w → EntriesMade u
unfolding begin lookup finish_build fail_build evict_one close_one
Step-EntriesMade w u (Step.enter key e) h k c = ground (arith, h k c)
Step-EntriesMade w u (Step.hit key a n l m g e) h k c = ground (arith, h k c)
Step-EntriesMade w u (Step.miss key l g e) h k c = ground (arith, h k c)
Step-EntriesMade w u (Step.built key a m now n l o q e) h k c = ground (
  arith,
  h k c,
  get-put w.pool.entries key k a,
  get-put w.pool.objects a c
      (record { connection = a; semaphore = semaphore m; built_at = now; last_acquired_at = now }),
  ==_iff a c,
)
Step-EntriesMade w u (Step.build_fails key n l q e) h k c = ground (arith, h k c)
Step-EntriesMade w u (Step.abandon_build key n l q e) h k c = ground (arith, h k c)
Step-EntriesMade w u (Step.abandon_wait n q e) h k c = ground (arith, h k c)
Step-EntriesMade w u (Step.take a now p t e) h k c =
    let (o, free, found, left, r) = take_slot-eq-some a now w.pool p t in
    ground (arith, h k c, get-put w.pool.objects a c (taken o free now), ==_iff a c)
Step-EntriesMade w u (Step.give_back a n q e) h k c = elim (release_cases a w.pool) [
  | inl r ↦ ground (arith, h k c)
  | inr (o, found, r) ↦ ground (arith, h k c, get-put w.pool.objects a c (returned o), ==_iff a c)
]
Step-EntriesMade w u (Step.evict key p r e) h k c =
    ground (arith, h k c, get-pop w.pool.entries key k)
Step-EntriesMade w u (Step.close key p r e) h k c =
    ground (arith, h k c, get-pop w.pool.entries key k)

Step-HeldMade : (w u : World) → Step w u → HeldMade w → HeldMade u
unfolding begin lookup finish_build fail_build evict_one close_one
Step-HeldMade w u (Step.enter key e) h c = ground (arith, h c)
Step-HeldMade w u (Step.hit key a n l m g e) h c = ground (arith, h c)
Step-HeldMade w u (Step.miss key l g e) h c = ground (arith, h c)
Step-HeldMade w u (Step.built key a m now n l o q e) h c = ground (
  arith,
  h c,
  get-put w.pool.objects a c
      (record { connection = a; semaphore = semaphore m; built_at = now; last_acquired_at = now }),
  ==_iff a c,
)
Step-HeldMade w u (Step.build_fails key n l q e) h c = ground (arith, h c)
Step-HeldMade w u (Step.abandon_build key n l q e) h c = ground (arith, h c)
Step-HeldMade w u (Step.abandon_wait n q e) h c = ground (arith, h c)
Step-HeldMade w u (Step.take a now p t e) h c =
    let (o, free, found, left, r) = take_slot-eq-some a now w.pool p t in
    ground (arith, h c, get-put w.pool.objects a c (taken o free now), ==_iff a c)
Step-HeldMade w u (Step.give_back a n q e) h c = elim (release_cases a w.pool) [
  | inl r ↦ ground (arith, h c, ==_iff a c)
  | inr (o, found, r) ↦ ground (arith, h c, get-put w.pool.objects a c (returned o), ==_iff a c)
]
Step-HeldMade w u (Step.evict key p r e) h c = ground (arith, h c)
Step-HeldMade w u (Step.close key p r e) h c = ground (arith, h c)

Step-WithinSlots : (w u : World) → Step w u → HeldMade w → WithinSlots w → WithinSlots u
unfolding begin lookup finish_build fail_build evict_one close_one
Step-WithinSlots w u (Step.enter key e) made h c e0 = ground (arith, h c e0)
Step-WithinSlots w u (Step.hit key a n l m g e) made h c e0 = ground (arith, h c e0)
Step-WithinSlots w u (Step.miss key l g e) made h c e0 = ground (arith, h c e0)
Step-WithinSlots w u (Step.built key a m now n l o q e) made h c e0 = ground (
  arith,
  h c e0,
  get-put w.pool.objects a c
      (record { connection = a; semaphore = semaphore m; built_at = now; last_acquired_at = now }),
  ==_iff a c,
  made c,
)
Step-WithinSlots w u (Step.build_fails key n l q e) made h c e0 = ground (arith, h c e0)
Step-WithinSlots w u (Step.abandon_build key n l q e) made h c e0 = ground (arith, h c e0)
Step-WithinSlots w u (Step.abandon_wait n q e) made h c e0 = ground (arith, h c e0)
Step-WithinSlots w u (Step.take a now p t e) made h c e0 =
    let (o, free, found, left, r) = take_slot-eq-some a now w.pool p t in
    ground (arith, h c e0, get-put w.pool.objects a c (taken o free now), ==_iff a c, h c o)
Step-WithinSlots w u (Step.give_back a n q e) made h c e0 = elim (release_cases a w.pool) [
  | inl r ↦ ground (arith, h c e0, ==_iff a c, h c e0)
  | inr (o, found, r) ↦
      ground (arith, h c e0, get-put w.pool.objects a c (returned o), ==_iff a c, h c o)
]
Step-WithinSlots w u (Step.evict key p r e) made h c e0 = ground (arith, h c e0)
Step-WithinSlots w u (Step.close key p r e) made h c e0 = ground (arith, h c e0)

Step-LeadsBack : (w u : World) → Step w u → EntriesMade w → LeadsBack w → LeadsBack u
unfolding begin lookup finish_build fail_build evict_one close_one
Step-LeadsBack w u (Step.enter key e) made h k c = ground (arith, h k c)
Step-LeadsBack w u (Step.hit key a n l m g e) made h k c = ground (arith, h k c)
Step-LeadsBack w u (Step.miss key l g e) made h k c = ground (arith, h k c)
Step-LeadsBack w u (Step.built key a m now n l o q e) made h k c = ground (
  arith,
  h k c,
  made k c,
  get-put w.pool.entries key k a,
  get-put w.pool.by_conn_id a c key,
  ==_iff a c,
  ==_iff key k,
)
Step-LeadsBack w u (Step.build_fails key n l q e) made h k c = ground (arith, h k c)
Step-LeadsBack w u (Step.abandon_build key n l q e) made h k c = ground (arith, h k c)
Step-LeadsBack w u (Step.abandon_wait n q e) made h k c = ground (arith, h k c)
Step-LeadsBack w u (Step.take a now p t e) made h k c =
    let (o, free, found, left, r) = take_slot-eq-some a now w.pool p t in ground (arith, h k c)
Step-LeadsBack w u (Step.give_back a n q e) made h k c = elim (release_cases a w.pool) [
  | inl r ↦ ground (arith, h k c)
  | inr (o, found, r) ↦ ground (arith, h k c)
]
Step-LeadsBack w u (Step.evict key p r e) made h k c =
    elim (Option-cases (Dict.get w.pool.entries key)) [
      | inl absent ↦ ground (arith)
      | inr (x, found) ↦ ground (
        arith,
        h k c,
        h key x,
        get-pop w.pool.entries key k,
        get-pop w.pool.by_conn_id x c,
        ==_iff x c,
        ==_iff key k,
      )
    ]
Step-LeadsBack w u (Step.close key p r e) made h k c =
    elim (Option-cases (Dict.get w.pool.entries key)) [
      | inl absent ↦ ground (arith)
      | inr (x, found) ↦ ground (
        arith,
        h k c,
        h key x,
        get-pop w.pool.entries key k,
        get-pop w.pool.by_conn_id x c,
        ==_iff x c,
        ==_iff key k,
      )
    ]

Step-KeysOnce : (w u : World) → Step w u → KeysOnce w → KeysOnce u
unfolding begin lookup finish_build fail_build evict_one close_one
Step-KeysOnce w u (Step.enter key e) h = ground (arith, h)
Step-KeysOnce w u (Step.hit key a n l m g e) h = ground (arith, h)
Step-KeysOnce w u (Step.miss key l g e) h = ground (arith, h)
Step-KeysOnce w u (Step.built key a m now n l o q e) h =
    ground (arith, h, keys-put-Distinct w.pool.entries key a h)
Step-KeysOnce w u (Step.build_fails key n l q e) h = ground (arith, h)
Step-KeysOnce w u (Step.abandon_build key n l q e) h = ground (arith, h)
Step-KeysOnce w u (Step.abandon_wait n q e) h = ground (arith, h)
Step-KeysOnce w u (Step.evict key p r e) h =
    ground (arith, h, keys-pop-Distinct w.pool.entries key h)
Step-KeysOnce w u (Step.close key p r e) h =
    ground (arith, h, keys-pop-Distinct w.pool.entries key h)
Step-KeysOnce w u (Step.take a now p t e) h =
    let (o, free, found, left, r) = take_slot-eq-some a now w.pool p t in ground (arith, h)
Step-KeysOnce w u (Step.give_back a n q e) h = elim (release_cases a w.pool) [
  | inl r ↦ ground (arith, h)
  | inr (o, found, r) ↦ ground (arith, h)
]

-- The invariant, and that every interleaving keeps it.
pub record IsSound (w : World) : Type 0 where
  pub cold : LockedIsCold w
  pub back : LeadsBack w
  pub entries_made : EntriesMade w
  pub held_made : HeldMade w
  pub slots : WithinSlots w
  pub accounted : Accounted w
  pub keys_once : KeysOnce w

Step-IsSound : (w u : World) → Step w u → IsSound w → IsSound u
Step-IsSound w u s h = record {
  cold = Step-LockedIsCold w u s h.cold;
  back = Step-LeadsBack w u s h.entries_made h.back;
  entries_made = Step-EntriesMade w u s h.entries_made;
  held_made = Step-HeldMade w u s h.held_made;
  slots = Step-WithinSlots w u s h.held_made h.slots;
  accounted = Step-Accounted w u s h.accounted;
  keys_once = Step-KeysOnce w u s h.keys_once;
}

start-IsSound : IsSound start
start-IsSound = record {
  cold = λ key l. cc (get-empty {V = Bool} key);
  back = λ key c e. cc (get-empty {V = ℕ} key);
  entries_made = λ key c e. cc (get-empty {V = ℕ} key);
  held_made = λ c e. refl;
  slots = λ c e q. cc (get-empty {V = Entry} c);
  accounted = omega arith;
  keys_once = tt;
}

-- In every state that an interleaving of tasks reaches from an empty pool: a key whose lock is held
-- for a build has no entry, so no build replaces an entry; the connection of each entry leads back
-- to the entry's key; the checkouts of a connection and the free slots of its entry are together no
-- more than the slots that the entry was built with; and each `acquire` was a cache hit, a build, a
-- failed build, was cancelled before it left its lock's block, or has not left it. The entries hold
-- each key once. It is assumed that no factory gives a connection that one gave before, and that only
-- a connection that is checked out is given back.
pub Reach-IsSound : {w : World} → Reach start w → IsSound w
Reach-IsSound here = start-IsSound
Reach-IsSound (next r s) = Step-IsSound _ _ s (Reach-IsSound r)
