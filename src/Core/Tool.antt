-- ===== src/Core/Tool.antt =====
-- src/foundry/core/tool.py: the registry of tools and `ToolRegistry.dispatch`, through which every
-- tool call flows. What is outside of the dispatcher enters as a `World`: the schemas' verdicts, the
-- handler's outcome at each attempt, the accessor's answer to an auth error, the cancel token and
-- the tool-result cache. Latencies and previews are left out of the events.
mod Types
mod Tests
pub mod Retries
pub mod Events
pub use Types.*
use agent_foundry.Prelude.{
  ℕ, zero, suc, ◌+◌, ◌-◌, ◌*◌, ◌^◌, min, String, ◌≡◌, Bool, true, false, not, ◌&&◌, ◌||◌, Option,
  none, some, List, [], ◌∷◌, ◌++◌, if◌then◌else◌, ◌==◌, eq_string, leb, Result, ok, err, contains,
}
use mathlib.Core.Option
use agent_foundry.Prelude.Dict
use agent_foundry.Prelude.Dict.{Dict, values}
use agent_foundry.Core.Cache.{Text, scoped_input_hash}

-- Backoff before retry number `attempt`, which is at least 1; delays are in one unit of time.
unfoldable pub delay_for : RetryPolicy → ℕ → ℕ
delay_for policy attempt =
    min
      (elim policy.backoff [
        | constant ↦ policy.initial_delay
        | linear ↦ policy.initial_delay * attempt
        | exponential ↦ policy.initial_delay * 2 ^ (attempt - 1)
      ])
      policy.max_delay

unfoldable pub register : RegisteredTool → ToolRegistry → ToolRegistry
register tool r = record {
  by_name = Dict.put r.by_name tool.name tool;
  by_ref = Dict.put r.by_ref (record { ref = tool.ref; version = tool.version }) tool;
}

module _ {Output : Type 0} where
  -- `_one_attempt`: a timeout and any exception that is not the program's own become
  -- `ToolHandlerError`; so do those of the program's errors that the handler may not raise.
  one_attempt : Outcome Output → Result Exn (Option Output)
  one_attempt (returned v) = ok (some v)
  one_attempt returned_invalid = ok none
  one_attempt timed_out = err (tool_error "ToolHandlerError")
  one_attempt (raised (uncaught name)) = err (tool_error "ToolHandlerError")
  one_attempt (raised e) = err e
  one_attempt (raised_other name) = err (tool_error "ToolHandlerError")

-- What the loop of `_run_with_retries` does about an exception. `refreshes` is what
-- `on_auth_error` answers or raises, which is called only where the tests before it pass.
pub data Reaction : Type 0 where
  propagate refreshed delayed : Reaction
  raises : Exn → Reaction

abbrev pub reaction_to_answer : Result Exn Bool → Reaction
reaction_to_answer (ok true) = refreshed
reaction_to_answer (ok false) = propagate
reaction_to_answer (err e) = raises e

reaction : RetryPolicy → Bool → Result Exn Bool → Bool → ℕ → Exn → Reaction
reaction policy auth_error_retry refreshes auth_used attempt approval_required = propagate
reaction policy auth_error_retry refreshes auth_used attempt cancelled_error = propagate
reaction policy auth_error_retry refreshes auth_used attempt connection_auth_error =
    if auth_error_retry && not auth_used then reaction_to_answer refreshes else propagate
reaction policy auth_error_retry refreshes auth_used attempt (uncaught name) = propagate
reaction policy auth_error_retry refreshes auth_used attempt e =
    if not (contains (exn_name e) policy.retryable_errors) || leb policy.max_attempts attempt
    then propagate
    else delayed

-- How a call of the handler with its retries ended, and the delays that were slept. `retry_count`
-- is written before each attempt.
pub record Ended (Output : Type 0) : Type 0 where
  pub outcome : Result Exn (Option Output)
  pub retry_count : ℕ
  pub slept : List ℕ

module _ {Output : Type 0} (w : World Output) (tool : RegisteredTool) (policy : RetryPolicy) where
  -- The loop, on fuel: `none` means that the fuel ran out.
  run : ℕ → ℕ → Bool → List ℕ → Option (Ended Output)
  run zero attempt auth_used slept = none
  run (suc fuel) attempt auth_used slept =
      let again = run fuel (attempt + 1) true slept in
      let later = run fuel (attempt + 1) auth_used (slept ++ delay_for policy attempt ∷ []) in
      elim (one_attempt (w.handler attempt)) [
        | ok v ↦ some (record { outcome = ok v; retry_count = attempt - 1; slept = slept })
        | err e ↦
            elim (reaction policy tool.auth_error_retry (w.auth_refreshes attempt) auth_used attempt
              e) [
                | propagate ↦
                    some (record { outcome = err e; retry_count = attempt - 1; slept = slept })
                | raises x ↦
                    some (record { outcome = err x; retry_count = attempt - 1; slept = slept })
                | refreshed ↦ again
                | delayed ↦
                    if w.cancelled attempt
                    then some (record {
                      outcome = err run_cancelled;
                      retry_count = attempt - 1;
                      slept = slept ++ delay_for policy attempt ∷ [];
                    })
                    else later
              ]
      ]

-- Enough fuel, by `run_total` of Core/Tool/Retries.antt: the attempts of the policy, one more for
-- the auth retry, and one for a policy of no attempts.
abbrev pub enough : RetryPolicy → ℕ
enough policy = policy.max_attempts + 2

module _ {Output : Type 0} where
  unfoldable pub run_with_retries :
      World Output → RegisteredTool → RetryPolicy → Option (Ended Output)
  unfolding one_attempt reaction run
  run_with_retries w tool policy = run w tool policy (enough policy) 1 false []

-- What a dispatch gives: its result, the events that it emitted, the run of the handler if there
-- was one, and what it asked the cache to store.
pub record Dispatched (Output : Type 0) : Type 0 where
  pub outcome : Result Exn Output
  pub events : List Event
  pub ended : Option (Ended Output)
  pub store_calls : List (Text × Output × ℕ)

module _ {Output : Type 0} where
  -- `_validate_output`
  abbrev pub validated : Result Exn (Option Output) → Result Exn Output
  validated (ok (some v)) = ok v
  validated (ok none) = err (tool_error "ToolOutputValidationError")
  validated (err e) = err e

  abbrev emitting : World Output → List Event → List Event
  emitting w events = if w.has_emit then events else []

  -- `use_cache and result_cache is not None`, with the time to live.
  abbrev pub caching : World Output → RegisteredTool → Option ℕ
  caching w tool = if tool.cacheable && w.has_result_cache then tool.cache_ttl_s else none

  abbrev pub cache_key : World Output → RegisteredTool → Text
  cache_key w tool = scoped_input_hash tool.cache_scope w.project w.agent_name w.input_hash

  -- A pause for approval emits nothing, and what is no error of the program is not caught.
  completed : World Output → RegisteredTool → ℕ → Result Exn Output → List Event
  completed w tool count (ok v) =
      emitting w (tool_completed tool.ref tool.version true count none ∷ [])
  completed w tool count (err approval_required) = []
  completed w tool count (err cancelled_error) = []
  completed w tool count (err (uncaught name)) = []
  completed w tool count (err e) =
      emitting w (tool_completed tool.ref tool.version false count (some (exn_name e)) ∷ [])

  -- `_cache_store`: a failing store is a warning.
  stored : World Output → RegisteredTool → Option ℕ → Output → List Event
  stored w tool none v = []
  stored w tool (some ttl) v =
      emitting w (elim (w.cache_store tool.ref tool.version (cache_key w tool) v ttl) [
        | none ↦ tool_cache_store tool.ref tool.version ttl ∷ []
        | some name ↦ warning "cache.tool.error" name ∷ []
      ])

  store_call : World Output → RegisteredTool → Option ℕ → Output → List (Text × Output × ℕ)
  store_call w tool none v = []
  store_call w tool (some ttl) v = (cache_key w tool, v, ttl) ∷ []

  -- Behind the run of the handler.
  concluded :
      World Output
      → RegisteredTool
      → List Event
      → Ended Output
      → Result Exn Output
      → Dispatched Output
  concluded w tool before e (ok v) = record {
    outcome = ok v;
    events = before ++ (completed w tool e.retry_count (ok v) ++ stored w tool (caching w tool) v);
    ended = some e;
    store_calls = store_call w tool (caching w tool) v;
  }
  concluded w tool before e (err x) = record {
    outcome = err x;
    events = before ++ completed w tool e.retry_count (err x);
    ended = some e;
    store_calls = [];
  }

  conclude : World Output → RegisteredTool → List Event → Ended Output → Dispatched Output
  conclude w tool before e = concluded w tool before e (validated e.outcome)

  -- `_cache_lookup`: the hit, if there is a good one, and the events.
  cache_looked_up : World Output → RegisteredTool → Option Output × List Event
  cache_looked_up w tool = elim (w.cache_lookup tool.ref tool.version (cache_key w tool)) [
    | cache_hit v ↦ (some v, emitting w (tool_cache_hit tool.ref tool.version ∷ []))
    | cache_hit_invalid ↦
        (none, emitting w (warning "cache.tool.corrupted_entry" "ValidationError" ∷ []))
    | cache_miss ↦ (none, emitting w (tool_cache_miss tool.ref tool.version ∷ []))
    | cache_error name ↦ (none, emitting w (warning "cache.tool.error" name ∷ []))
  ]

  looked_up : World Output → RegisteredTool → Option ℕ → Option Output × List Event
  looked_up w tool none = (none, [])
  looked_up w tool (some ttl) = cache_looked_up w tool

  after_lookup :
      World Output
      → RegisteredTool
      → RetryPolicy
      → Option Output × List Event
      → Option (Dispatched Output)
  after_lookup w tool policy (some v, events) =
      some (record { outcome = ok v; events = events; ended = none; store_calls = [] })
  after_lookup w tool policy (none, events) =
      let started = emitting w (tool_started tool.ref tool.version w.input_hash ∷ []) in
      Option.map (conclude w tool (events ++ started)) (run_with_retries w tool policy)

  abbrev refused : String → Option (Dispatched Output)
  refused name =
      some (record { outcome = err (tool_error name); events = []; ended = none; store_calls = [] })

  with_tool : World Output → RetryPolicy → Option RegisteredTool → Option (Dispatched Output)
  with_tool w policy none = refused "ToolNotFoundError"
  with_tool w policy (some tool) =
      if not w.input_valid
      then refused "ToolInputValidationError"
      else after_lookup w tool policy (looked_up w tool (caching w tool))

  unfoldable pub dispatch :
      World Output → ToolRegistry → RetryPolicy → String → List String → Option (Dispatched Output)
  unfolding completed stored store_call concluded conclude cache_looked_up looked_up after_lookup
      with_tool
  dispatch w registry policy name allowlist =
      if not (contains name allowlist)
      then refused "ToolNotAllowedError"
      else with_tool w policy (Dict.get registry.by_name name)
