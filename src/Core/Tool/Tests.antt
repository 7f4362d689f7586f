-- ===== src/Core/Tool/Tests.antt =====
-- The dispatcher at concrete inputs.
use agent_foundry.Prelude.{
  ◌≢◌, contains, eq_string, false, String, ℕ, ◌≡◌, ◌⊎◌, inl, refl, true, false, if◌then◌else◌, none,
  some, [], ◌∷◌, ok, err, eq_string, ltb,
}
use agent_foundry.Prelude.Dict
use agent_foundry.Core.Cache.{codes, project}
use agent_foundry.Core.Tool.{
  World, RegisteredTool, ToolRegistry, RetryPolicy, Ended, Event, Dispatched, exponential,
  connection_auth_error, tool_error, provider_error, raised, returned, cache_miss, cache_hit,
  tool_started, tool_completed, cache_key, dispatch, run_with_retries, delay_for,
}
use agent_foundry.Core.Tool.Retries.{IsWithin, run_with_retries_total}
use agent_foundry.Core.Tool.Events.{dispatch-refused}

abbrev policy : RetryPolicy
policy = record {
  max_attempts = 3;
  backoff = exponential;
  initial_delay = 1000;
  max_delay = 30000;
  retryable_errors = "ProviderRateLimitError" ∷ [];
}

abbrev word_count : RegisteredTool
word_count = record {
  name = "word_count";
  ref = "catalog/word_count";
  version = "v2";
  auth_error_retry = true;
  cacheable = true;
  cache_ttl_s = some 60;
  cache_scope = project;
}

abbrev registry : ToolRegistry
registry = record { by_name = ("word_count", word_count) ∷ []; by_ref = [] }

-- The handler is limited once, then its connection's credentials have expired, then it answers 42.
abbrev flaky : World ℕ
flaky = record {
  agent_name = codes "bob";
  project = codes "hello";
  input_valid = true;
  input_hash = codes "00ff";
  handler = λ n.
      if ltb n 2
      then raised (provider_error "ProviderRateLimitError")
      else if ltb n 3
      then raised connection_auth_error
      else returned 42;
  auth_refreshes = λ n. ok true;
  cancelled = λ n. false;
  has_result_cache = true;
  cache_lookup = λ r v k. cache_miss;
  cache_store = λ r v k out ttl. none;
  has_emit = true;
}

program : Unit {0}
unfolding dispatch run_with_retries delay_for Dict.get
program = tt

recovers :
    run_with_retries flaky word_count policy
    ≡ some (record { outcome = ok (some 42); retry_count = 2; slept = 1000 ∷ [] })
unfolding program
recovers = refl

abbrev dispatched : Dispatched ℕ
dispatched = record {
  outcome = ok 42;
  events =
      Event.tool_cache_miss "catalog/word_count" "v2"
      ∷ tool_started "catalog/word_count" "v2" (codes "00ff")
      ∷ tool_completed "catalog/word_count" "v2" true 2 none
      ∷ Event.tool_cache_store "catalog/word_count" "v2" 60
      ∷ [];
  ended = some (record { outcome = ok (some 42); retry_count = 2; slept = 1000 ∷ [] });
  store_calls = (cache_key flaky word_count, 42, 60) ∷ [];
}

dispatch-flaky : dispatch flaky registry policy "word_count" ("word_count" ∷ []) ≡ some dispatched
unfolding program
dispatch-flaky = refl

run_with_retries_total_example :
    (e : Ended ℕ) × (run_with_retries flaky word_count policy ≡ some e) × IsWithin policy e
run_with_retries_total_example = run_with_retries_total flaky word_count policy

abbrev broken : World ℕ
broken = record flaky { handler = λ n. raised (tool_error "ToolHandlerError") }

abbrev nothing : Dispatched ℕ
nothing = record {
  outcome = err (tool_error "ToolNotAllowedError");
  events = [];
  ended = none;
  store_calls = [];
}

dispatch-refused_example :
    (nothing.events ≡ [])
    × (nothing.ended ≡ none)
    × (nothing.store_calls ≡ [])
    × (((contains {A = String} "word_count" [] ≡ false)
          × (nothing.outcome ≡ err (tool_error "ToolNotAllowedError")))
        ⊎ ((contains {A = String} "word_count" [] ≡ true)
            × (Dict.get registry.by_name "word_count" ≡ none)
            × (nothing.outcome ≡ err (tool_error "ToolNotFoundError")))
        ⊎ ((contains {A = String} "word_count" [] ≡ true)
            × (Dict.get registry.by_name "word_count" ≢ none)
            × (flaky.input_valid ≡ false)
            × (nothing.outcome ≡ err (tool_error "ToolInputValidationError"))))
dispatch-refused_example =
    dispatch-refused flaky registry policy "word_count" [] nothing (unfold dispatch in refl)
      (inl refl)

abbrev cached : World ℕ
cached = record flaky { cache_lookup = λ r v k. cache_hit 7 }
