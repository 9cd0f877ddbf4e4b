-- ===== src/Lib.antt =====
-- flashq: a model of the job queue engine of engine/src/queue and of its data in
-- engine/src/protocol.
--
-- Jobs enter by `push`, wait in a priority queue per queue name, are handed out by `pull` under the
-- queue's rate limit, concurrency limit and groups, and end by `ack` or `fail`: as completed, again
-- in the queue with a backoff, or in the dead letter queue. Queues are spread over 32 shards by the
-- hash of their name; a job index says where each job is.
--
--   Protocol    engine/src/protocol/types.rs, builder.rs, command.rs: jobs, inputs, the builder (`data` of the
--               source is `payload`)
--   Dict        HashMap and DashMap as lists of entries
--   Ipq         engine/src/queue/types/indexed_priority_queue.rs: `IndexedPriorityQueue`
--   Limiters    engine/src/queue/types/limiters.rs: `RateLimiter`, `ConcurrencyLimiter`, `QueueState`
--   Circuit     engine/src/queue/types/misc.rs: `CircuitBreakerEntry`
--   Shard       engine/src/queue/types/shard.rs, location.rs
--   Manager     engine/src/queue/manager.rs, types/metrics.rs: the shared state, one record
--   Query       engine/src/queue/query.rs: `get_job`, `get_state`, `get_job_by_custom_id`
--   Validation  engine/src/queue/validation.rs
--   Push, Pull, Ack, Flows, Dlq, Logs
--               engine/src/queue/push.rs, pull.rs, ack.rs, flows.rs, dlq.rs, logs.rs
--   JobOps, Requeue
--               engine/src/queue/job_ops.rs
--   Control     engine/src/queue/queue_control.rs, rate_limit.rs
--   Timeouts    engine/src/queue/background/timeout.rs
--   Cron        engine/src/queue/cron.rs, background/cron.rs
--   Cleanup     engine/src/queue/background/cleanup.rs, logs.rs
--   Stalls      engine/src/queue/monitoring.rs: heartbeats and stalled jobs
--   Browser     engine/src/queue/browser.rs, admin.rs: listing, cleaning, draining, obliterating
--   Engine      engine/src/queue/settings.rs, admin.rs, background/mod.rs: all parts of the state side
--               by side, settings, workers, the background tasks
--   Webhooks    engine/src/queue/webhooks.rs: addresses, which deliveries start, circuits
--   Recover     engine/src/queue/manager.rs: `recover_from_sqlite`
--   Auth        engine/src/queue/manager.rs: `verify_token`
--   Reports     engine/src/queue/queue_control.rs, monitoring.rs: counts and lists
--   Server      engine/src/server/handler, protocol/command.rs, response.rs: commands, their answers,
--               `process_command`, `process_request`
--   Glob, Kv    engine/src/queue/kv.rs: the pattern matcher and the key-value store
--   Examples    small states to which the theorems are applied
--
-- An operation is a function from the state to the state and its answer; the time is an argument.
-- Each operation runs as one step: interleavings inside of one, between two locks, are not
-- modelled. Calls of the storage, subscribers and channels are recorded in `effects`; the hash of
-- queue names, the alphanumeric test of Unicode and the storage's answers are parameters. Sums of
-- `u64` and `u32` wrap, where the sum is of values that callers choose. Errors are constructors in
-- place of texts.
--
-- A scan of a heap runs on fuel one above the heap's length: each turn takes one entry out. The
-- search of a waiting parent runs over the 32 shards. The loop of `pop` runs on the
-- heap's length: each round takes one entry off the heap.
--
-- The tokens of a rate limiter are doubles: Prelude/Doubles counts them in 2^-62 and rounds every result
-- to 53 binary digits. The search for the digits that are beyond runs on fuel 128: quotients of times
-- and limits lie below 2^160. The cleanups take as an argument which of the locks that they
-- only try to take are free.
--
-- The children `Push.Batch` and `Ack.Batch` hold `push_batch` and `ack_batch`. Cron expressions,
-- the parsing of URLs and IP addresses and the lower case of hosts are parameters too; what the
-- storage loads at a start is a record of lists.
--
-- Not modelled: the SQLite layer, the HTTP and gRPC servers, sockets and the parsing of requests, the
-- commands `WaitJob` and `Metrics`, the HTTP requests of webhooks, snapshots, metrics with averages,
-- and the timers that call the background tasks.
mod Prelude
pub mod Dict
pub mod Protocol
pub mod Ipq
pub mod Limiters
pub mod Circuit
pub mod Shard
pub mod Manager
pub mod Query
pub mod Result
pub mod Validation
pub mod Push
pub mod Pull
pub mod Logs
pub mod Flows
pub mod Ack
pub mod JobOps
pub mod Requeue
pub mod Dlq
pub mod Control
pub mod Timeouts
pub mod Glob
pub mod Kv
pub mod Cron
pub mod Cleanup
pub mod Stalls
pub mod Browser
pub mod Webhooks
pub mod Recover
pub mod Auth
pub mod Reports
pub mod Engine
pub mod Examples
pub mod Server
