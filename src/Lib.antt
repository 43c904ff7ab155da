-- ===== src/Lib.antt =====
-- The core logic of the Python client of ArcherDB (src/clients/python/src/archerdb): what the client
-- does between an application and the native library that speaks to the cluster.
--
-- The parts, the files that model them and the code they model:
--   Base, Base/*        shared names: Boolean tests, lists over native numbers, bits, signed
--                       integers, results
--   Types               records of requests and replies (types.py)
--   Errors, Errors/*    exception classes, `_is_retryable_error` (client.py); the registry of error codes
--                       (errors.py)
--   Retry, Retry/*      `RetryConfig`, `OperationOptions`, `_calculate_retry_delay`,
--                       `_with_retry_sync` (client.py)
--   Breaker, Breaker/*  `CircuitBreaker` (client.py)
--   IdGenerator, .../*  `_IDGenerator` (client.py)
--   Batch, Batch/*      `GeoEventBatch`, `DeleteEntityBatch`, `insert_event`, `delete_entities`
--                       (client.py)
--   Chunks, Chunks/*    `split_batch`, `_submit_multi_batch_sync`, `_offset_batch_errors` (client.py)
--   Sharding, .../*     `jump_hash`, `compute_shard_key`, `get_shard_for_entity` (types.py)
--   VectorClock, .../*  `VectorClock` (types.py)
--   Topology, .../*     `TopologyCache`, `ShardRouter` (topology.py)
--   Query, Query/*      `get_latest_by_uuid`, `get_latest_batch`, `query_latest` (client.py)
--   Wire, Wire/*        `ShardInfo.from_bytes`, `TopologyResponse.from_bytes`, the messages about times
--                       to live (types.py); an event on the wire (_native.py, bindings.py)
--   Native, Native/*    `NativeClient` (_native.py): the requests in flight (Native, Tags, Inflight,
--                       Delivery), the writes and queries and their replies (Writes, Reads, Layout,
--                       Missing, Lookup, Queries, Outcomes), the rest of the requests (Admin, Replies,
--                       Served)
--   Session, Session/*  `GeoClientSync`: opening, closing, the attempts of its requests (client.py)
--   Scatter, Scatter/*  `merge_results`, `ScatterGatherExecutor` (topology.py)
--   GeoRouting, .../*   `RegionDiscoveryClient`, `LatencyProber`, `RegionSelector`, `GeoRouter` and the
--                       records they use (geo_routing.py)
--
-- A method that changes its object takes the state and returns the new one; a method that raises
-- returns a `Result` or a constructor of its own. The environment enters as arguments: clock
-- readings, random numbers, the outcomes of calls to the cluster, and the order in which threads
-- finish. A method under a lock is one step, so an interleaving of threads is a list of calls. An
-- attempt of a request in Session has several such steps, and takes what the other threads do
-- between them. Integers of Python are natural numbers, or the ℤ of Base/Int where they may be
-- negative. A failure threshold is a fraction; delays, timeouts and clock readings are whole
-- milliseconds; the jump of the shard hash, which the code computes in floating point, is a
-- parameter of which `Advances` states what the code relies on. The averages of round trips are
-- fractions too, and the distance of two places, which is computed in floating point, is a
-- parameter. Rounding of floating-point numbers is otherwise not modelled.
--
-- Fuel: `jump_loop` runs on the number of buckets and one, which is enough because the jump advances;
-- `range` in Chunks runs on the number of items; `pages`, a caller's loop in Query/Paging, takes one
-- step more than there are events; `free_tag` tests each of the 65,535 tags, which finds a free one
-- whenever there is one. All other loops are recursions on their collections.
--
-- The router of regions asks the topology of nothing: it picks the endpoint that a client connects to,
-- and the shard router picks a shard behind it.
--
-- The requests of `NativeClient` take `submit` as an argument, from an operation's code and the bytes of
-- its data to its result, and Native itself models what `submit` does with its locks, tags and waits.
-- The theorems about replies state them against layouts of bytes that are written out by themselves;
-- the server is an argument that answers with such bytes. For the topology that is the server's struct
-- (src/topology.zig), which the client's parser misreads.
--
-- Not modelled: the native library and the rest of its generated bindings,
-- metrics and tracing, GeoJSON and WKT, polygon checks, logging; the asynchronous variants where they
-- differ in awaiting only.
pub mod Base
pub mod Types
pub mod Errors
pub mod Breaker
pub mod VectorClock
pub mod IdGenerator
pub mod Sharding
pub mod Retry
pub mod Batch
pub mod Chunks
pub mod Scatter
pub mod Topology
pub mod GeoRouting
pub mod Wire
pub mod Query
pub mod Native
pub mod Session
