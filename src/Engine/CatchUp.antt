-- ===== src/Engine/CatchUp.antt =====
-- internal/mirror/engine.go: the second phase of Run, which decides what is caught up in parallel, and
-- CatchUpMultiPartition's loop over the partitions (parallel_source.go). The topics and the offsets of
-- the source cluster are arguments. Creating the target topic is a call whose error is only logged.
mod Tests
pub mod Overtaking
pub mod Filters
use mathlib.Core.Option
use gomm.Prelude.{
  ℕ, ◌+◌, ◌-◌, ◌^◌, Bool, true, false, not, ◌||◌, List, [], ◌∷◌, ◌++◌, Option, none, some,
  if◌then◌else◌, Int64, sub64, lt64, le64, Bytes, codes, has_prefix, length,
}
use gomm.Policy.{ReplicationPolicy, new_policy, format_remote_topic}
use gomm.Config.{ReplicationConfig}
use gomm.Engine.{retry_config_of}
use gomm.Mirror.Retry.{RetryConfig}
use gomm.Mirror.Parallel.{CatchUpPlan, catch_up_plan}
use gomm.Mirror.Parallel.Lags.{LagResult, lag_found}

-- A partition that is to be caught up: its number, and the offsets of its range.
abbrev pub Range : Type 0
Range = ℕ × (Int64 × Int64)

-- topic[0] is an underscore or a dot.
unfoldable pub skips_topic : Bytes → Bool
skips_topic topic = has_prefix (codes "_") topic || has_prefix (codes ".") topic

abbrev pub parallel_threshold : Int64
parallel_threshold = 100000

-- workersPerPartition, at least two.
unfoldable pub workers_for : ReplicationConfig → Int64
workers_for r = if lt64 r.workers_per_partition 2 then 2 else r.workers_per_partition

-- The range of a partition whose lag is high, from its committed offset and its high watermark.
unfoldable pub high_lag : Int64 → Int64 → Option (Int64 × Int64)
high_lag committed hwm =
    let (lag, from) : Int64 × Int64 =
      if le64 committed 0 then (hwm, 0) else (sub64 hwm committed, committed) in
    if lt64 parallel_threshold lag then some (from, hwm) else none

abbrev pub lag_of : LagResult (Int64 × Int64) → Option (Int64 × Int64)
lag_of (lag_found (committed, hwm)) = high_lag committed hwm
lag_of other = none

abbrev pub add_range : ℕ → Option (Int64 × Int64) → List Range → List Range
add_range partition none ranges = ranges
add_range partition (some range) ranges = (partition, range) ∷ ranges

-- partitionLags: the partitions whose lag could be had and is high.
unfoldable pub partition_lags : (ℕ → LagResult (Int64 × Int64)) → List ℕ → List Range
partition_lags lags [] = []
partition_lags lags (p ∷ more) = add_range p (lag_of (lags p)) (partition_lags lags more)

-- ListTopicPartitions, or partition 0 where it fails.
abbrev pub partitions_or_zero : Option (List ℕ) → List ℕ
partitions_or_zero none = 0 ∷ []
partitions_or_zero (some partitions) = partitions

-- What the second phase does for a topic, in order: it may ask for the target topic, with as many
-- partitions, and then catches up the ranges, if there are any.
pub data CatchUpStep : Type 0 where
  ensure_target : Bytes → ℕ → CatchUpStep
  catch_up : Bytes → List Range → CatchUpStep

abbrev pub ensure_steps :
    ReplicationConfig → Bool → Option ReplicationPolicy → Bytes → ℕ → List CatchUpStep
ensure_steps r target_connects none topic partitions = []
ensure_steps r target_connects (some policy) topic partitions =
    if target_connects
    then ensure_target (format_remote_topic policy r.source topic) partitions ∷ []
    else []

-- Without a policy NewParallelSource fails, and the topic is left.
abbrev pub catch_up_steps : Option ReplicationPolicy → Bytes → List Range → List CatchUpStep
catch_up_steps none topic ranges = []
catch_up_steps (some policy) topic [] = []
catch_up_steps (some policy) topic (range ∷ more) = catch_up topic (range ∷ more) ∷ []

-- What is known of a topic: whether the admin client connects, its partitions, their lags.
pub record TopicState : Type 0 where
  pub topic : Bytes
  pub connects : Bool
  pub partitions : Option (List ℕ)
  pub lags : ℕ → LagResult (Int64 × Int64)

unfoldable pub topic_steps : ReplicationConfig → Bool → TopicState → List CatchUpStep
topic_steps r target_connects t =
    let partitions = partitions_or_zero t.partitions in
    let policy = new_policy r.replication_policy r.separator in
    if skips_topic t.topic
    then []
    else if not t.connects
    then []
    else ensure_steps r target_connects policy t.topic (length partitions)
      ++ catch_up_steps policy t.topic (partition_lags t.lags partitions)

unfoldable pub topics_steps : ReplicationConfig → Bool → List TopicState → List CatchUpStep
topics_steps r target_connects [] = []
topics_steps r target_connects (t ∷ more) =
    topic_steps r target_connects t ++ topics_steps r target_connects more

-- A flow; without its topics, which a client that does not connect or a list that fails leaves out,
-- nothing is done.
unfoldable pub flow_steps : ReplicationConfig → Bool → Option (List TopicState) → List CatchUpStep
flow_steps r target_connects none = []
flow_steps r target_connects (some topics) =
    if r.enabled then topics_steps r target_connects topics else []

-- What NewParallelSource takes from the configuration; `none` is the error of an unknown policy. It
-- also makes a dead-letter queue, which is left without one where that fails.
pub record ParallelSource : Type 0 where
  pub policy : ReplicationPolicy
  pub workers : Int64
  pub fetch_max_part_bytes : Int64
  pub ring_buffer_capacity : Int64
  pub retry_cfg : RetryConfig

abbrev pub or_default : Int64 → Int64 → Int64
or_default def n = if le64 n 0 then def else n

unfoldable pub new_parallel_source : ReplicationConfig → Int64 → Option ParallelSource
new_parallel_source cfg workers =
    Option.map
      (λ policy. record {
        policy = policy;
        workers = if lt64 workers 2 then 2 else workers;
        fetch_max_part_bytes = or_default 5242880 cfg.fetch_max_partition_bytes;
        ring_buffer_capacity = or_default 16384 cfg.ring_buffer_capacity;
        retry_cfg = retry_config_of cfg;
      })
      (new_policy cfg.replication_policy cfg.separator)

-- CatchUpMultiPartition: the plan of catchUpPartitionPipelined for each of the ranges.
unfoldable pub plans : (workers capacity : ℕ) → List Range → List (ℕ × CatchUpPlan)
plans workers capacity [] = []
plans workers capacity ((p, (start, end)) ∷ more) =
    (p, catch_up_plan workers capacity start end) ∷ plans workers capacity more
