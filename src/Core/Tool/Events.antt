-- ===== src/Core/Tool/Events.antt =====
-- What `ToolRegistry.dispatch` of src/foundry/core/tool.py does on each path: the events, the calls
-- of the handler and the writes to the cache.
use mathlib.Core.Option
use agent_foundry.Prelude.{
  ℕ, suc, String, ◌≡◌, ◌≢◌, ◌⊎◌, inl, inr, Bool-cases, Option-cases, Bool, true, false, Option,
  none, some, List, [], ◌∷◌, arith, if◌then◌else◌, Result, ok, err, contains, eq_string,
}
use agent_foundry.Prelude.Dict
use agent_foundry.Core.Tool.{
  World, RegisteredTool, ToolRegistry, RetryPolicy, Ended, Exn, Event, Dispatched,
  approval_required, cancelled_error, uncaught, tool_error, tool_started, tool_completed, cache_key,
  cache_hit, tool_cache_hit, caching, dispatch,
}
use agent_foundry.Core.Cache.{Text}

-- How often the handler was reported to start, and to have completed with the given success.
abbrev pub starts : List Event → ℕ
starts [] = 0
starts (tool_started ref version hash ∷ es) = suc (starts es)
starts (_ ∷ es) = starts es

abbrev one_if : Bool → Bool → ℕ → ℕ
one_if true true n = suc n
one_if false false n = suc n
one_if _ _ n = n

abbrev pub completions : Bool → List Event → ℕ
completions b [] = 0
completions b (tool_completed ref version success count name ∷ es) =
    one_if b success (completions b es)
completions b (_ ∷ es) = completions b es

-- What should be reported of a run of the handler that led to a result: a success, a failure, or
-- neither where the run pauses for an approval, the task is cancelled, or the accessor raises what
-- is no error of the program.
abbrev pub successes : {Output : Type 0} → Result Exn Output → ℕ
successes (ok v) = 1
successes (err x) = 0

abbrev pub failures : {Output : Type 0} → Result Exn Output → ℕ
failures (ok v) = 0
failures (err approval_required) = 0
failures (err cancelled_error) = 0
failures (err (uncaught name)) = 0
failures (err x) = 1

abbrev pub if_run : {Output : Type 0} → World Output → Option (Ended Output) → ℕ → ℕ
if_run w none n = 0
if_run w (some e) n = if w.has_emit then n else 0

pub record IsReported {Output : Type 0} (w : World Output) (d : Dispatched Output) : Type 0 where
  pub started : starts d.events ≡ if_run w d.ended 1
  pub succeeded : completions true d.events ≡ if_run w d.ended (successes d.outcome)
  pub failed : completions false d.events ≡ if_run w d.ended (failures d.outcome)

module _ {Output : Type 0} (w : World Output) where
  -- The dispatch comes to a result, and what it reported is right.
  abbrev Reports : Option (Dispatched Output) → Type 0
  Reports o = (d : Dispatched Output) × (o ≡ some d) × IsReported w d

abbrev pub to_store :
    {Output : Type 0}
    → World Output
    → RegisteredTool
    → Option ℕ
    → Option (Ended Output)
    → Result Exn Output
    → List (Text × Output × ℕ)
to_store w tool (some ttl) (some e) (ok v) = (cache_key w tool, v, ttl) ∷ []
to_store w tool _ _ _ = []

module _ {Output : Type 0} (w : World Output) (registry : ToolRegistry) (policy : RetryPolicy)
    (name : String) (allowlist : List String) where
  -- A call that is not allowed, that names no registered tool, or whose input does not fit the
  -- schema, is refused with the error of the first of these: no event, no run, no cache write.
  pub dispatch-refused :
      (d : Dispatched Output)
      → dispatch w registry policy name allowlist ≡ some d
      → (contains name allowlist ≡ false)
        ⊎ (Dict.get registry.by_name name ≡ none)
        ⊎ (w.input_valid ≡ false)
      → (d.events ≡ [])
        × (d.ended ≡ none)
        × (d.store_calls ≡ [])
        × (((contains name allowlist ≡ false)
              × (d.outcome ≡ err (tool_error "ToolNotAllowedError")))
            ⊎ ((contains name allowlist ≡ true)
                × (Dict.get registry.by_name name ≡ none)
                × (d.outcome ≡ err (tool_error "ToolNotFoundError")))
            ⊎ ((contains name allowlist ≡ true)
                × (Dict.get registry.by_name name ≢ none)
                × (w.input_valid ≡ false)
                × (d.outcome ≡ err (tool_error "ToolInputValidationError"))))
  unfolding dispatch
  dispatch-refused d e h = elim (Bool-cases (contains name allowlist)) [
    | inr absent ↦ ground (arith, absent, e)
    | inl listed ↦ elim (Option-cases (Dict.get registry.by_name name)) [
      | inl unknown ↦ ground (arith, listed, unknown, e)
      | inr (tool, known) ↦ ground (arith, listed, known, e, h)
    ]
  ]

  -- A result that the cache holds is returned with no run of the handler and nothing stored.
  pub dispatch-cached :
      (tool : RegisteredTool) (ttl : ℕ) (v : Output)
      → contains name allowlist ≡ true
      → Dict.get registry.by_name name ≡ some tool
      → w.input_valid ≡ true
      → caching w tool ≡ some ttl
      → w.cache_lookup tool.ref tool.version (cache_key w tool) ≡ cache_hit v
      → dispatch w registry policy name allowlist
        ≡ some (record {
          outcome = ok v;
          events = if w.has_emit then tool_cache_hit tool.ref tool.version ∷ [] else [];
          ended = none;
          store_calls = [];
        })
  unfolding dispatch
  dispatch-cached tool ttl v al re va ca hit = ground arith

  -- The cache is asked to store exactly the output of a run that succeeded, where caching is on,
  -- and under the key by which the next call looks it up.
  pub dispatch-stores :
      (tool : RegisteredTool) (d : Dispatched Output)
      → Dict.get registry.by_name name ≡ some tool
      → dispatch w registry policy name allowlist ≡ some d
      → d.store_calls ≡ to_store w tool (caching w tool) d.ended d.outcome
  unfolding dispatch
  dispatch-stores tool d re e = ground arith
