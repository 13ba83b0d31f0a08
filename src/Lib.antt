-- ===== src/Lib.antt =====
-- gomm2 replicates topics, consumer positions and heartbeats from one Kafka cluster to another. A
-- flow's engine runs a source replicator (records), a topic discovery (which topics, and their
-- copies on the target), a checkpoint emitter (consumer positions, translated by the offset-sync
-- store) and a heartbeat emitter. This library models the parts of the program that decide
-- something, in one module for each part.
--
--   Types           pkg/types/types.go: the values on the internal topics and their bytes.
--                   OffsetSync, Heartbeat and Checkpoint are records; SerializeKey, SerializeValue
--                   and DeserializeOffsetSync are Types.Codec.
--   Offset.Store    internal/offset/sync_store.go: HandleSync and TranslateDownstream over an
--                   association list of 64-slot arrays.
--   Offset.Reader   internal/offset/sync_reader.go: ReadToEnd and Follow over the list of polls.
--   Offset.Writer   internal/offset/sync_writer.go: Write and Close.
--   Filter          internal/filter/topic.go: the three filters, over a regular-expression engine
--                   that is a parameter, as Go's regexp package is not part of the repository.
--   Policy          internal/policy/replication.go: both naming policies.
--   Mirror.Ring     internal/mirror/ring_buffer.go: Put, DrainBatch and Close as steps on a state;
--                   a call that would wait answers that it is blocked. Ring.Waking has the wait loop of
--                   DrainBatch in smaller steps, with the wake-ups of Close and Put outside the lock.
--   Mirror.Retry    internal/mirror/retry.go: Retry, computeBackoff, RetryWithCircuitBreaker.
--   Mirror.Breaker  internal/mirror/retry.go: the circuit breaker.
--   Metrics         internal/metrics/metrics.go: the label names of the metrics that New registers.
--   Config          internal/config/config.go: setDefaults, Validate and BoolDefault over the parsed
--                   configuration.
--   Mirror.Discovery internal/mirror/topic_discovery.go: shouldReplicate and refresh, whose calls on
--                   the target's admin client are listed; source.go's UpdateTopics.
--   Mirror.Source   internal/mirror/source.go: the replication loop with its callbacks, the periodic
--                   commit and, as a step of its own, the final commit of Stop; dlq.go's headers.
--                   How each delivery ends (at once, by a retry, or not at all) is an argument.
--   Mirror.Meters   internal/mirror/source.go: the counters that the replication loop gathers by topic
--                   and partition, and their flushes, which panic where the label names do not fit.
--   Mirror.Lifecycle internal/mirror: Start and Stop of source.go, checkpoint.go, heartbeat.go and
--                   topic_discovery.go with the clients that they open and close, and dlq.go: NewDLQ,
--                   Send and Close.
--   Mirror.Heartbeat internal/mirror/heartbeat.go: the record of emitHeartbeat.
--   Mirror.Parallel internal/mirror/parallel_source.go: the segments of a catch-up, the capacity of
--                   its ring buffer and the loop of a fetch worker over its polls. Parallel.Draining
--                   is drainPartition, Parallel.Pipeline is catchUpPartitionPipelined with one worker
--                   as turns of the worker, the drainer and the closing of the buffer, and
--                   Parallel.Lags are GetPartitionLag and GetAllPartitionLags.
--   Mirror.Emitter  internal/mirror/checkpoint.go: emitCheckpoints over the groups and their offsets.
--   Engine          internal/mirror/engine.go: NewEngine with the constructors that it calls.
--                   Engine.Bootstrap is bootstrapOffsetSyncs with the /readyz handler, Engine.CatchUp
--                   the second phase of Run with NewParallelSource, and Engine.Running the other
--                   phases of Run, Shutdown and parseLogLevel; the catch-up asks no topic filter, which
--                   Engine.CatchUp.Filters is about.
--   Admin           internal/admin/topic_sync.go: SyncTopicConfigs over the described configs.
--
-- How they interact. The replicator's deliveries give HandleSync its syncs (Mirror.Source.Syncs), a
-- restarted process reads those that SyncWriter wrote (Offset.Reader), and the checkpoint emitter
-- translates by the same store (Mirror.Emitter). Discovery asks Filter and Policy which topics to
-- replicate and hands them to the replicator. Fetch workers put records into the ring buffer that
-- the drainer empties in order. The engine keeps the stores, queues and sources that components share
-- in lists, where a pointer is an index, so who shares what is part of the model (Engine.Wiring).
--
-- Conventions. An int64 is its two's-complement pattern, a number below 2^64; sums wrap there and
-- the signed order is the order of `rank`. A string is the list of its bytes. A Go map is an
-- association list. A lock makes a method one step, so interleavings are lists of calls. What a
-- loop reads from outside (polls, clocks, draws, the end of a context) is an argument.
--
-- Bounds. Loops over the 64 slots of an array, over retries, over workers and over the room of a
-- batch recurse on the rounds that are left, which the code bounds itself, so no run stops early.
-- ReadToEnd and a fetch worker recurse on their polls; where those do not end the loop the result
-- says so (`pending`, `fetching`), and theorems say when that cannot be.
--
-- What the two threads of a catch-up do is a list of turns, in any order. Nothing is said of how many
-- turns it takes to end, since a wake-up can be lost (Mirror.Ring.Waking).
--
-- WithLabelValues, of the Prometheus library, is an argument; theorems that need it take the documented
-- behaviour that it returns only for as many values as label names. In a catch-up this is the field
-- `takes_partition`, which does not hold for the label names in metrics.go. Mirror.Source leaves the
-- flushes of the counters out, as if they returned.
--
-- Not modelled: the Kafka client and its network, most updates of metrics, logging, YAML, TLS and SASL
-- set-up, the admin client and the listening of the HTTP server, which only call libraries; the
-- command line; the tickers of the periodic loops. Of a call that sets up a client the model knows
-- only whether it succeeds. Strings for log output are left out. Outside Ring.Waking
-- a call on the ring buffer is one step; the callbacks of the replicator and of the drainer are taken
-- to run when their records are produced. A catch-up with several workers is modelled by its segments
-- and its workers, not as one system.
pub mod Prelude
pub mod Types
pub mod Offset
pub mod Filter
pub mod Policy
pub mod Metrics
pub mod Config
pub mod Admin
pub mod Mirror
pub mod Engine
