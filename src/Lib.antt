-- ===== src/Lib.antt =====
-- Verification of agent-foundry, the Python kit for building and running multi-agent systems.
--
-- The source is in src/foundry. Modelled are these parts:
--   connections/pool.py: Connections/Pool.antt (the pool of connections, its operations split at
--     their awaits) and Connections/Accessor.antt (slot names in, pooled connections out), which
--     evicts from the pool when a handler meets an auth error;
--   core/tool.py: Core/Tool.antt (the dispatch of tool calls with retries, cache and events), which
--     tells the accessor of auth errors, whose answer may be an exception, and reads its keys from
--   core/cache.py: Core/Cache.antt (the keys of the tool-result cache), and cache/tool_result.py:
--     Cache/ToolResult.antt (its in-process table with expiry);
--   providers/rate_limit.py: Providers/RateLimit.antt (the in-process token bucket) and
--     Providers/RateLimit/Redis.antt (the Lua script of the shared one);
--   auth/token_cache.py: Auth/TokenCache.antt (tokens that several tasks fetch once);
--   storage/retention.py: Storage/Retention.antt (the collection of old runs) and
--     Storage/Retention/Archive.antt (their monthly archives);
--   orchestration/state_scope.py: Orchestration/StateScope.antt (state specifications, and what an
--     agent sees and may write);
--   orchestration/predicates.py: Orchestration/Predicates.antt (the validator of the predicates on
--     edges and terminations, on their syntax trees);
--   orchestration/patterns.py: Orchestration/Graph.antt (the nodes and edges of a graph flow, and the
--     check of its shape), Orchestration/Patterns.antt with Patterns/Build.antt (the plan of a flow and
--     its builder, which compiles predicates and checks graphs), and Patterns/Primary.antt (the agent
--     whose output is the flow's, and `plan_flow`);
--   versioning/pins.py: Versioning/Pins.antt (edits of version pins in the text of a file) and
--     Versioning/Pins/Transaction.antt (edits that are staged over files, all validated and
--     then written);
--   versioning/compat.py: Versioning/Compat.antt (breaking changes between versions of a contract);
--   retrieval/hybrid.py: Retrieval/Hybrid.antt (the merge of ranked lists, failing branches);
--   eval/compare.py: Eval/Compare.antt (comparisons of eval runs, case by case);
--   config/composition.py: Config/Composition.antt (files that extend others, placeholders);
--   config/refs.py: Config/Refs.antt (references to artifacts) and Config/Refs/Paths.antt (where they
--     lead);
--   core/session.py: Core/Session.antt (the cancel token, the budget, checkpoints in memory).
--
-- Where the program awaits, other tasks may run: an operation is split there into steps, and the
-- state behind the await is an argument or the next state of a step relation. What a handler, a
-- factory or a fetch does is an argument. Times and amounts of tokens are whole numbers, in units so
-- small that the arithmetic is exact; the program's floats round. The retry loop of Core/Tool.antt
-- runs on fuel, and two rounds more than the policy's attempts are enough, since one round more than
-- these is possible after a refreshed connection. The search for an archive's path runs on one more
-- than the archives that exist. Of the loops over a graph, the one over the stack runs on two more than
-- the edges of the sources that are not reached, the one that looks for nodes with a path to END on one
-- round more than the nodes, and the depth-first search on a depth of one more than the nodes: each is
-- proved enough.
--
-- Not modelled are the parts that are input and output (the adapters of model vendors, the HTTP API,
-- the command line, the storage backends, observability), those that write prompts or files (the
-- configurator, deployment, the catalog), and, of the program's own logic, the evaluation of predicates,
-- the execution of runs, the eval harness, the memory and the semantic cache.
pub mod Prelude
pub mod Core
pub mod Connections
pub mod Providers
pub mod Auth
pub mod Storage
pub mod Orchestration
pub mod Versioning
pub mod Retrieval
pub mod Eval
pub mod Config
pub mod Cache
