-- ===== src/Core/Tool/Types.antt =====
-- The data of the tool dispatcher.
use agent_foundry.Prelude.{
  ℕ, String, ◌≡◌, ◌↔◌, Bool, ◌&&◌, Option, List, Result, true, arith, DecEq, ◌==◌, eq_string,
  ==_iff,
}
use agent_foundry.Prelude.Dict.{Dict}
use agent_foundry.Core.Cache.{Text, CacheScope}

pub data BackoffStrategy : Type 0 where
  constant linear exponential : BackoffStrategy

pub record RetryPolicy : Type 0 where
  pub max_attempts : ℕ
  pub backoff : BackoffStrategy
  pub initial_delay : ℕ
  pub max_delay : ℕ
  pub retryable_errors : List String

pub record RegisteredTool : Type 0 where
  pub name : String
  pub ref : String
  pub version : String
  pub auth_error_retry : Bool
  pub cacheable : Bool
  pub cache_ttl_s : Option ℕ
  pub cache_scope : CacheScope

pub record RefVersion : Type 0 where
  pub ref : String
  pub version : String

abbrev pub same_ref : RefVersion → RefVersion → Bool
same_ref a b = a.ref == b.ref && a.version == b.version

pub same_ref_iff : (a b : RefVersion) → (same_ref a b ≡ true) ↔ (a ≡ b)
same_ref_iff a b = ground (arith, ==_iff a.ref b.ref, ==_iff a.version b.version)

instance abbrev pub eq_ref : DecEq RefVersion
eq_ref = record { test = same_ref; decides = same_ref_iff }

pub record ToolRegistry : Type 0 where
  pub by_name : Dict String RegisteredTool
  pub by_ref : Dict RefVersion RegisteredTool

-- The exceptions that may leave an attempt, by the classes that the dispatcher tells apart; the
-- texts are names of classes. `cancelled_error` is asyncio's and no error of the program, nor is any
-- that is `uncaught`.
pub data Exn : Type 0 where
  approval_required connection_auth_error run_cancelled cancelled_error : Exn
  connection_error tool_error provider_error uncaught : String → Exn

abbrev pub exn_name : Exn → String
exn_name approval_required = "ApprovalRequired"
exn_name connection_auth_error = "ConnectionAuthError"
exn_name run_cancelled = "RunCancelled"
exn_name cancelled_error = "CancelledError"
exn_name (connection_error name) = name
exn_name (tool_error name) = name
exn_name (provider_error name) = name
exn_name (uncaught name) = name

-- What a call of the handler comes to: an output that fits the schema, one that does not, the
-- timeout, an exception of a class above, or any other.
pub data Outcome (Output : Type 0) : Type 0 where
  returned : Output → Outcome Output
  returned_invalid timed_out : Outcome Output
  raised : Exn → Outcome Output
  raised_other : String → Outcome Output

-- The answer of the tool-result cache to a lookup. A hit may fail the output schema.
pub data CacheReply (Output : Type 0) : Type 0 where
  cache_hit : Output → CacheReply Output
  cache_hit_invalid cache_miss : CacheReply Output
  cache_error : String → CacheReply Output

pub record World (Output : Type 0) : Type 0 where
  pub agent_name : Text
  pub project : Text
  pub input_valid : Bool
  pub input_hash : Text
  pub handler : ℕ → Outcome Output
  pub auth_refreshes : ℕ → Result Exn Bool
  pub cancelled : ℕ → Bool
  pub has_result_cache : Bool
  pub cache_lookup : String → String → Text → CacheReply Output
  pub cache_store : String → String → Text → Output → ℕ → Option String
  pub has_emit : Bool

pub data Event : Type 0 where
  tool_started : String → String → Text → Event
  tool_completed : String → String → Bool → ℕ → Option String → Event
  tool_cache_miss tool_cache_hit : String → String → Event
  tool_cache_store : String → String → ℕ → Event
  warning : String → String → Event
