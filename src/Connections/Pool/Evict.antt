-- ===== src/Connections/Pool/Evict.antt =====
-- `evict` of src/foundry/connections/pool.py: what it removes when no other task runs between its
-- rounds, and what happens when one does.
use agent_foundry.Prelude.{
  ℕ, ◌+◌, String, ◌≡◌, ◌≢◌, refl, ◌∙◌, true, ◌&&◌, Option, none, some, List, [], ◌∷◌, arith,
  if◌then◌else◌, contains, Distinct, length, ==_iff, Result, and_then, ok, err, Option-cases, inl,
  inr, Bool, false, ◌++◌, sym, ap, append-nil, append_assoc, ==-refl, ◌==◌, eq_string, eq_nat,
}
use agent_foundry.Prelude.Dict
use agent_foundry.Prelude.Dict.{Dict, keys, get-pop, get-ne_none, get-eq_none, keys-pop-Distinct}
use agent_foundry.Connections.Pool.{
  Pool, PoolKey, PoolError, key_error, eq_key, selects, selected, evict_one, evict_keys, evict,
  evicted,
}

contains-selected :
    (ref : String) (project : Option String) (ks : List PoolKey) (k : PoolKey)
    → contains k (selected ref project ks) ≡ (selects ref project k && contains k ks)
unfolding selected
contains-selected ref project [] k = ground arith
contains-selected ref project (j ∷ ks) k =
    ground (arith, contains-selected ref project ks k, ==_iff j k)

selected-Distinct :
    (ref : String) (project : Option String) (ks : List PoolKey)
    → Distinct ks
    → Distinct (selected ref project ks)
unfolding selected
selected-Distinct ref project [] h = tt
selected-Distinct ref project (j ∷ ks) h =
    ground (arith, contains-selected ref project ks j, selected-Distinct ref project ks)

-- Which keys an eviction is about: those of the reference, in the project if one is given.
abbrev pub is_about : String → Option String → PoolKey → Bool
is_about ref none key = key.ref == ref
is_about ref (some project) key = key.ref == ref && key.project == project

pub selects-is_about :
    (ref : String) (project : Option String) (k : PoolKey)
    → selects ref project k ≡ is_about ref project k
unfolding selects
selects-is_about ref none k = refl
selects-is_about ref (some project) k = refl

-- The connections that the entries hold under such keys, in the order of the entries.
abbrev pub connections_about : String → Option String → Dict PoolKey ℕ → List ℕ
connections_about ref project [] = []
connections_about ref project ((key, c) ∷ entries) =
    if is_about ref project key
    then c ∷ connections_about ref project entries
    else connections_about ref project entries

-- The connections that are under some keys.
abbrev add_found : Option ℕ → List ℕ → List ℕ
add_found none cs = cs
add_found (some c) cs = c ∷ cs

abbrev found_at : Dict PoolKey ℕ → List PoolKey → List ℕ
found_at entries [] = []
found_at entries (k ∷ ks) = add_found (Dict.get entries k) (found_at entries ks)

found_at-pop :
    (entries : Dict PoolKey ℕ) (j : PoolKey) (ks : List PoolKey)
    → contains j ks ≡ false
    → found_at (Dict.pop entries j) ks ≡ found_at entries ks
found_at-pop entries j [] h = refl
found_at-pop entries j (k ∷ ks) h =
    ground (arith, h, get-pop entries j k, found_at-pop entries j ks, ==_iff j k, ==_iff k j)

found_at-cons :
    (j : PoolKey) (c : ℕ) (entries : Dict PoolKey ℕ) (ks : List PoolKey)
    → contains j ks ≡ false
    → found_at ((j, c) ∷ entries) ks ≡ found_at entries ks
unfolding Dict.get
found_at-cons j c entries [] h = refl
found_at-cons j c entries (k ∷ ks) h =
    ground (arith, h, found_at-cons j c entries ks, ==_iff j k, ==_iff k j)

found_at-selected :
    (ref : String) (project : Option String) (entries : Dict PoolKey ℕ)
    → Distinct (keys entries)
    → found_at entries (selected ref project (keys entries)) ≡ connections_about ref project entries
unfolding selected Dict.get
found_at-selected ref project [] d = refl
found_at-selected ref project ((j, c) ∷ entries) d = ground (
  arith,
  d,
  found_at-selected ref project entries d.1,
  selects-is_about ref project j,
  found_at-cons j c entries (selected ref project (keys entries)),
  contains-selected ref project (keys entries) j,
  ==-refl j,
)

-- What a run of the rounds has done, if each key is there and is listed once.
record Evicted (ks : List PoolKey) (p : Pool) (r : Result PoolError (Unit {0})) (p' : Pool)
    : Type 0 where
  succeeds : r ≡ ok tt
  entries_left :
      (k : PoolKey) → Dict.get p'.entries k ≡ (if contains k ks then none else Dict.get p.entries k)
  counted : p'.metrics.evictions ≡ p.metrics.evictions + length ks
  each_closed : p'.closed ≡ p.closed ++ found_at p.entries ks
  unlinked :
      (c : ℕ)
      → Dict.get p'.by_conn_id c
        ≡ (if contains c (found_at p.entries ks) then none else Dict.get p.by_conn_id c)

evict_one_hit :
    (key : PoolKey) (c : ℕ) (p : Pool)
    → Dict.get p.entries key ≡ some c
    → evict_one key p ≡ (ok tt, evicted key c p)
unfolding evict_one
evict_one_hit key c p found = ground arith

evict_keys_hit :
    (key : PoolKey) (c : ℕ) (rest : List PoolKey) (p : Pool)
    → Dict.get p.entries key ≡ some c
    → evict_keys (key ∷ rest) p ≡ evict_keys rest (evicted key c p)
unfolding evict_keys
evict_keys_hit key c rest p found = rw (evict_one_hit key c p found, and_then)

evict_keys-Evicted :
    (ks : List PoolKey) (p : Pool)
    → Distinct ks
    → ((k : PoolKey) → contains k ks ≡ true → Dict.get p.entries k ≢ none)
    → Evicted ks p (evict_keys ks p).0 (evict_keys ks p).1
unfolding evict_keys
evict_keys-Evicted [] p d h = record {
  succeeds = refl;
  entries_left = λ k. refl;
  counted = omega arith;
  each_closed = sym (append-nil p.closed);
  unlinked = λ c. refl;
}
evict_keys-Evicted (j ∷ ks) p d h = elim (Option-cases (Dict.get p.entries j)) [
  | inl absent ↦ absurd (h j (ground (arith, ==_iff j j)) absent)
  | inr (c, found) ↦
      let ih =
        evict_keys-Evicted ks (evicted j c p) d.1
          λ k m. ground (arith, h k, d.0, get-pop p.entries j k, ==_iff j k) in
      rw (evict_keys_hit j c ks p found) (record {
        succeeds = ih.succeeds;
        entries_left = λ k. ground (arith, ih.entries_left k, get-pop p.entries j k, d.0);
        counted = omega (arith, ih.counted);
        each_closed = ground (
          arith,
          ih.each_closed,
          found,
          found_at-pop p.entries j ks d.0,
          append_assoc p.closed (c ∷ []) (found_at p.entries ks),
        );
        unlinked = λ i. ground (
          arith,
          ih.unlinked i,
          found,
          found_at-pop p.entries j ks d.0,
          get-pop p.by_conn_id c i,
        );
      })
]

-- How many of the pool's keys an eviction is about.
abbrev pub matching : String → Option String → Pool → ℕ
matching ref project p = length (selected ref project (keys p.entries))

-- What an eviction has done: it does not raise; the keys that it is about have no entry, and the
-- others have theirs; each of those keys is counted; their connections are closed, in the order of
-- the entries, and no longer lead to a key, and the others do.
pub record EvictedAbout (ref : String) (project : Option String) (p : Pool)
    (r : Result PoolError (Unit {0})) (p' : Pool) : Type 0 where
  pub succeeds : r ≡ ok tt
  pub entries_left :
      (k : PoolKey)
      → Dict.get p'.entries k ≡ (if is_about ref project k then none else Dict.get p.entries k)
  pub counted :
      p'.metrics.evictions ≡ p.metrics.evictions + length (connections_about ref project p.entries)
  pub each_closed : p'.closed ≡ p.closed ++ connections_about ref project p.entries
  pub unlinked :
      (c : ℕ)
      → Dict.get p'.by_conn_id c ≡ (
          if contains c (connections_about ref project p.entries)
          then none
          else Dict.get p.by_conn_id c)

length-found_at :
    (entries : Dict PoolKey ℕ) (ks : List PoolKey)
    → ((k : PoolKey) → contains k ks ≡ true → Dict.get entries k ≢ none)
    → length (found_at entries ks) ≡ length ks
length-found_at entries [] h = refl
length-found_at entries (k ∷ ks) h = elim (Option-cases (Dict.get entries k)) [
  | inl absent ↦ absurd (h k (ground (arith, ==-refl k)) absent)
  | inr (c, found) ↦
      ground (arith, found, length-found_at entries ks (λ j i. h j (ground (arith, i))))
]

-- Run without interruption on a pool whose entries hold each key once, `evict` does not raise; it
-- removes the entries of the keys that have the given reference and, if one is given, the project, and
-- no other; it counts an eviction for each of them; and it closes the connection of each of them, in
-- the order of the entries, and these connections no longer lead to a key.
pub evict_lem :
    (ref : String) (project : Option String) (p : Pool)
    → Distinct (keys p.entries)
    → EvictedAbout ref project p (evict ref project p).0 (evict ref project p).1
unfolding evict
evict_lem ref project p d =
    let ks = selected ref project (keys p.entries) in
    let listed : (k : PoolKey) → contains k ks ≡ true → Dict.get p.entries k ≢ none = λ k m.
      get-ne_none p.entries k
        (ground (arith, m, contains-selected ref project (keys p.entries) k)) in
    let e = evict_keys-Evicted ks p (selected-Distinct ref project (keys p.entries) d) listed in
    let same = found_at-selected ref project p.entries d in
    record {
      succeeds = e.succeeds;
      entries_left = λ k. ground (
        arith,
        e.entries_left k,
        contains-selected ref project (keys p.entries) k,
        get-eq_none p.entries k,
        selects-is_about ref project k,
      );
      counted = omega (arith, e.counted, ap length same, length-found_at p.entries ks listed);
      each_closed = e.each_closed ∙ ap (λ cs. p.closed ++ cs) same;
      unlinked = λ c. ground (arith, e.unlinked c, same);
    }

evict_one-Distinct :
    (k : PoolKey) (p : Pool) → Distinct (keys p.entries) → Distinct (keys (evict_one k p).1.entries)
unfolding evict_one
evict_one-Distinct k p d = ground (arith, keys-pop-Distinct p.entries k d)

stale_round :
    (k : PoolKey) (rest : List PoolKey) (p : Pool)
    → Dict.get p.entries k ≡ none
    → evict_keys (k ∷ rest) p ≡ (err (key_error k), p)
unfolding evict_keys evict_one
stale_round k rest p gone = ground arith

-- Two evictions of one reference that overlap: the first has listed the keys `j`, `k` and more and
-- has removed `j`; while it awaits the close of that connection, the second runs to its end. Then
-- the first one's next round raises `KeyError` for `k`, and changes nothing.
pub evict-overlap :
    (ref : String) (project : Option String) (p : Pool) (j k : PoolKey) (rest : List PoolKey)
    → Distinct (keys p.entries)
    → selected ref project (keys p.entries) ≡ j ∷ k ∷ rest
    → let second = (evict ref project (evict_one j p).1).1 in
      evict_keys (k ∷ rest) second ≡ (err (key_error k), second)
evict-overlap ref project p j k rest d e = stale_round k rest second (
    (evict_lem ref project first (evict_one-Distinct j p d)).entries_left k
    ∙ ground (
      arith,
      contains-selected ref project (keys p.entries) k,
      ==_iff k k,
      selects-is_about ref project k,
    ))
  where
    first : Pool
    first = (evict_one j p).1

    second : Pool
    second = (evict ref project first).1

evict_keys-Distinct :
    (ks : List PoolKey) (p : Pool)
    → Distinct (keys p.entries)
    → Distinct (keys (evict_keys ks p).1.entries)
unfolding evict_keys
evict_keys-Distinct [] p d = d
evict_keys-Distinct (k ∷ ks) p d =
    continue (evict_one k p).0 (evict_one k p).1 (evict_one-Distinct k p d) ks
      (evict_keys-Distinct ks)
  where
    continue :
        (r : Result PoolError (Unit {0})) (q : Pool)
        → Distinct (keys q.entries)
        → (js : List PoolKey)
        → ((q : Pool) → Distinct (keys q.entries) → Distinct (keys (evict_keys js q).1.entries))
        → Distinct (keys (and_then (r, q) (evict_keys js)).1.entries)
    continue (ok _) q h js ih = ih q h
    continue (err e) q h js ih = h

-- An eviction keeps the keys of the entries apart.
pub evict-Distinct :
    (ref : String) (project : Option String) (p : Pool)
    → Distinct (keys p.entries)
    → Distinct (keys (evict ref project p).1.entries)
unfolding evict
evict-Distinct ref project p = evict_keys-Distinct (selected ref project (keys p.entries)) p
