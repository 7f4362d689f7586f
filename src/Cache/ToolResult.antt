-- ===== src/Cache/ToolResult.antt =====
-- src/foundry/cache/tool_result.py, `InProcessResultCache`: its table is a dictionary from the primary
-- key, and times are whole numbers. An output stands for the text that it is stored as. Errors of the
-- database are left out.
mod Tests
use agent_foundry.Prelude.{
  ℕ, ◌+◌, String, ◌≡◌, ◌↔◌, refl, Bool, true, false, ◌&&◌, Option, none, some, List, [], ◌∷◌,
  if◌then◌else◌, ltb, arith, Bool-cases, Option-cases, DecEq, eq_string, ◌==◌, ==_iff, ==-refl,
  contains, Distinct,
}
use agent_foundry.Prelude.Dict
use agent_foundry.Prelude.Dict.{Dict, keys, get-put, get-eq_none, keys-put-Distinct}

pub record ResultKey : Type 0 where
  pub tool_ref : String
  pub tool_version : String
  pub input_hash : String

abbrev pub same_result_key : ResultKey → ResultKey → Bool
same_result_key k j =
    k.tool_ref == j.tool_ref && (k.tool_version == j.tool_version && k.input_hash == j.input_hash)

pub same_result_key_iff : (k j : ResultKey) → (same_result_key k j ≡ true) ↔ (k ≡ j)
same_result_key_iff k j = ground (
  arith,
  ==_iff k.tool_ref j.tool_ref,
  ==_iff k.tool_version j.tool_version,
  ==_iff k.input_hash j.input_hash,
)

instance abbrev pub eq_result_key : DecEq ResultKey
eq_result_key = record { test = same_result_key; decides = same_result_key_iff }

pub record ResultRow (A : Type 0) : Type 0 where
  pub output : A
  pub cached_at : ℕ
  pub expires_at : ℕ

module _ {A : Type 0} where
  -- DELETE … WHERE expires_at <= now
  unfoldable pub delete_expired : ℕ → Dict ResultKey (ResultRow A) → Dict ResultKey (ResultRow A)
  delete_expired now [] = []
  delete_expired now ((k, row) ∷ table) =
      let rest = delete_expired now table in
      if ltb now row.expires_at then (k, row) ∷ rest else rest

  abbrev pub cached_result : Option (ResultRow A) → Option (A × ℕ)
  cached_result none = none
  cached_result (some row) = some (row.output, row.cached_at)

  -- `lookup`: the table after it, and what it finds.
  unfoldable pub lookup :
      ℕ → ResultKey → Dict ResultKey (ResultRow A) → Dict ResultKey (ResultRow A) × Option (A × ℕ)
  lookup now key table =
      let kept = delete_expired now table in (kept, cached_result (Dict.get kept key))

  -- `store`: an insert that updates on a conflict of the primary key.
  unfoldable pub store :
      ℕ → ResultKey → A → ℕ → Dict ResultKey (ResultRow A) → Dict ResultKey (ResultRow A)
  store now key output ttl_s table =
      Dict.put table key (record { output = output; cached_at = now; expires_at = now + ttl_s })

  -- What a row is worth at a time.
  abbrev alive : ℕ → Option (ResultRow A) → Option (ResultRow A)
  alive now none = none
  alive now (some row) = if ltb now row.expires_at then some row else none

  contains-delete_expired :
      (now : ℕ) (table : Dict ResultKey (ResultRow A)) (k : ResultKey)
      → contains k (keys table) ≡ false
      → contains k (keys (delete_expired now table)) ≡ false
  unfolding delete_expired
  contains-delete_expired now [] k h = refl
  contains-delete_expired now ((j, row) ∷ table) k h =
      ground (arith, h, contains-delete_expired now table k)

  delete_expired-Distinct :
      (now : ℕ) (table : Dict ResultKey (ResultRow A))
      → Distinct (keys table)
      → Distinct (keys (delete_expired now table))
  unfolding delete_expired
  delete_expired-Distinct now [] d = tt
  delete_expired-Distinct now ((j, row) ∷ table) d =
      ground
        (arith, d, contains-delete_expired now table j d.0, delete_expired-Distinct now table d.1)

  get-delete_expired :
      (now : ℕ) (table : Dict ResultKey (ResultRow A)) (k : ResultKey)
      → Distinct (keys table)
      → Dict.get (delete_expired now table) k ≡ alive now (Dict.get table k)
  unfolding delete_expired Dict.get
  get-delete_expired now [] k d = refl
  get-delete_expired now ((j, row) ∷ table) k d =
      ground (arith, get-delete_expired now table k d.1, get-eq_none table j d.0, ==_iff j k)

  -- A lookup after a store finds the stored output with the time of the store until its time to live
  -- has passed, and nothing then; for every other key it finds what it would have found without the
  -- store. Keys are in the table once.
  pub lookup-store :
      (now later ttl_s : ℕ) (key k : ResultKey) (output : A) (table : Dict ResultKey (ResultRow A))
      → Distinct (keys table)
      → (lookup later k (store now key output ttl_s table)).1 ≡ (
          if key == k
          then (if ltb later (now + ttl_s) then some (output, now) else none)
          else (lookup later k table).1)
  unfolding lookup store
  lookup-store now later ttl_s key k output table d =
      let row : ResultRow A = record {
        output = output;
        cached_at = now;
        expires_at = now + ttl_s;
      } in
      ground (
        arith,
        get-delete_expired later (Dict.put table key row) k (keys-put-Distinct table key row d),
        get-delete_expired later table k d,
        get-put table key k row,
      )

  -- A lookup takes no result away that a later lookup would find, and keeps the keys unique.
  pub lookup-lookup :
      (now later : ℕ) (key k : ResultKey) (table : Dict ResultKey (ResultRow A))
      → ltb later now ≡ false
      → Distinct (keys table)
      → ((lookup later k (lookup now key table).0).1 ≡ (lookup later k table).1)
        × Distinct (keys (lookup now key table).0)
  unfolding lookup
  lookup-lookup now later key k table le d = (
    ground (
      arith,
      le,
      get-delete_expired later (delete_expired now table) k (delete_expired-Distinct now table d),
      get-delete_expired later table k d,
      get-delete_expired now table k d,
    ),
    delete_expired-Distinct now table d,
  )
