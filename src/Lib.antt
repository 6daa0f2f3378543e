-- ===== src/Lib.antt =====
-- The services that keep a retrieval-augmented generation system up and its documents apart: what
-- guards its calls, its requests and its model versions, how it answers a question, and how its
-- index follows the documents. Each is a part of the Python packages proxy/app and etl, and each is
-- modelled with its state as a record and its methods as functions of it.
--
--   Breaker: proxy/app/shared/circuit_breaker.py. CircuitBreaker's methods are transition,
--     success, failure, check_and_enter, call_sync and call; Breaker/Registry has the module's
--     dictionary of named breakers.
--   Retry: proxy/app/shared/retry.py. sync_retry and async_retry with their delays and their
--     reports to the named breakers of Breaker, which they share with every other caller.
--   Dlq: proxy/app/shared/dlq.py. The SQLite table of failed messages, which queues of several
--     names share, is a list of rows by id.
--   ModelRegistry: proxy/app/model_evolution/model_registry.py. The versions of each model and
--     their way from staging to production.
--   Canary: proxy/app/model_evolution/canary_controller.py. The traffic between a stable version
--     and a canary, and the automatic rollback.
--   Access: proxy/app/shared/access_control.py, with UserContext of proxy/app/auth/jwt.py. Which
--     user sees which document.
--   RateLimiter: proxy/app/shared/rate_limiter.py. One token bucket for each key, and the
--     middleware's answer.
--   Versions: etl/chunker/hash_versioning.py. The chunks of each document by hash, and the
--     changes that an update reports to the index.
--   Lake: etl/indexer/live_vector_lake.py, with index_chunks and delete_chunks of
--     etl/indexer/qdrant_hybrid.py. A document's chunks on their way through the version store
--     of Versions into the index and the history, and back by a rollback.
--   Orchestrator: proxy/app/core/orchestrator. nodes.py is Orchestrator, and graph.py, which
--     joins the nodes, Orchestrator/Graph.
--   Wal: etl/indexer/wal_manager.py. The progress of each pipeline in a file or in Redis.
--   Events: etl/scheduler/event_processor.py. The events of a wiki and of GitLab on their way
--     into the same points, and deletions.
--   Context: proxy/app/core/reorder.py and token_optimizer.py, with TokenBudget of
--     proxy/app/domain/value_objects.py. What of the hits gets into the prompt, and in which
--     order.
--   Pool: proxy/app/shared/connection_pool.py. The connections of a pool, which are available or
--     in use.
--   Rotation: proxy/app/core/hitl.py. The files of the log of interactions.
--   Cache: proxy/app/shared/cache.py. What is remembered for a time, under keys and by
--     similarity.
--   Retrieval: proxy/app/core/retrieval.py, with the scoring service of
--     proxy/app/domain/services.py. Hits of two searches become one list, embeddings are
--     remembered, and paths are searched in a graph of entities.
--   ApiKeys: proxy/app/auth/api_keys.py. The keys of users, which expire, are rotated and are
--     revoked.
--   Chunking: etl/chunker/semantic_chunker.py. The pieces of a document become chunks.
--   Variants: proxy/app/shared/ab_test.py. Which variant of a model a request gets, with the
--     controller of Canary.
--   Memory: proxy/app/shared/memory_manager.py. The conversation of each session: its turns, its
--     summaries and the entities mentioned in it.
--   Base: the shared names, Boolean tests, lists and Python's dict.
--
-- A method that changes its object returns the new state beside its result; an exception is a
-- constructor of the result. Locks make each method one step. A call that is awaited gets the
-- breaker's state and returns another one, which holds whatever other tasks do in the meantime.
--
-- Clocks are arguments, one for each reading in the source, in ticks of any length. Numbers that
-- are floats in the source are counted in a unit that makes the arithmetic exact: hundredths of a
-- tick for delays, ten-thousandths for shares of the traffic, the parts of a token for buckets. The
-- rounding of floats is not modelled. Randomness (jitter, the draw of a request) is an argument.
--
-- The loop of the retries is bounded by the configured number of attempts. The graph that answers a
-- question is run for a number of steps that is an argument. Its runtime is LangGraph, which merges
-- the declared keys that a node returns into the state, drops all others, refuses a node that
-- returns a text, and follows the edges; its own limit on steps is left out. The search for paths
-- has fuel for its queue: with `b` results per hop, 1 + b + b * b + … rounds are enough, up to the
-- power that is the number of hops. The loop that prunes entities has a round for each of them. All
-- other loops follow a list. Ids and dictionaries are as in the source.
--
-- Not modelled: logging and Prometheus (but for the two values that a breaker keeps), the JSON and
-- SQLite files behind a state, and the filters that Qdrant evaluates. The other parts of the system
-- call databases, brokers and language models.
pub mod Access
pub mod ApiKeys
pub mod Base
pub mod Breaker
pub mod Cache
pub mod Canary
pub mod Chunking
pub mod Context
pub mod Dlq
pub mod Events
pub mod Lake
pub mod Memory
pub mod ModelRegistry
pub mod Orchestrator
pub mod Pool
pub mod RateLimiter
pub mod Retrieval
pub mod Retry
pub mod Rotation
pub mod Variants
pub mod Versions
pub mod Wal
