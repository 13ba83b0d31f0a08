-- ===== src/Mirror/Parallel/Draining.antt =====
-- internal/mirror/parallel_source.go: drainPartition, which produces what the ring buffer hands out.
-- As in the source replicator, a record comes with the way its delivery ends, and a callback of
-- Produce is taken to run when its record is produced; what it changes is read only for log lines
-- before `inflight.Wait`. The metrics' Add calls are kept as a list.
pub mod Tally
use gomm.Prelude.{
  ℕ, suc, ◌+◌, Bool, true, false, not, ◌&&◌, List, [], ◌∷◌, ◌++◌, Option, none, some, length,
  if◌then◌else◌, Int64, add64, lt64, Bytes,
}
use gomm.Policy.{ReplicationPolicy, format_remote_topic}
use gomm.Mirror.Ring.{Drained, waiting, ended, batch}
use gomm.Mirror.Source.{
  SourceRecord, TargetRecord, Headers, Delivery, acked, recovered, failed, dlq_headers,
}

-- A fetched record and how its delivery ends; the offset that Produce is told is not used here.
abbrev pub Fetched : Type 0
Fetched = SourceRecord × Delivery

pub record DrainConfig : Type 0 where
  pub target_topic : Bytes
  pub source_topic : Bytes
  pub partition : ℕ
  pub has_dlq : Bool
  -- Whether the label names of RecordsReplicated and BytesReplicated fit the four values that they
  -- are given, the last of them the partition. Where they do not, as with the three names in
  -- metrics.go, WithLabelValues panics.
  pub takes_partition : Bool

pub record DrainState : Type 0 where
  pub produce_errors : Int64
  pub period_bytes : Int64
  pub period_records : Int64
  pub total_bytes : Int64
  pub total_records : Int64
  pub produced : List TargetRecord
  pub dead_letters : List (SourceRecord × Headers)
  -- The calls of Add on RecordsReplicated and BytesReplicated.
  pub flushed : List (Int64 × Int64)

abbrev pub new_drain_state : DrainState
new_drain_state = record {
  produce_errors = 0;
  period_bytes = 0;
  period_records = 0;
  total_bytes = 0;
  total_records = 0;
  produced = [];
  dead_letters = [];
  flushed = [];
}

-- How the loop stands after an answer of DrainBatch.
pub data DrainStatus : Type 0 where
  draining drain_done drain_panicked : DrainStatus

abbrev pub flush : DrainState → DrainState
flush d = record d {
  period_bytes = 0;
  period_records = 0;
  flushed = d.flushed ++ ((d.period_records, d.period_bytes) ∷ []);
}

-- After a batch: the counters are flushed when ten seconds have gone by.
unfoldable pub report_progress : Bool → DrainState → DrainState
report_progress due d = if due then flush d else d

-- After the loop; the period's counters are not used again.
unfoldable pub finish_drain : DrainState → DrainState
finish_drain d = if lt64 0 d.period_records then flush d else d

module _ (format_int : ℕ → Bytes) (cfg : DrainConfig) where
  -- The record that is produced; that of a retry has no timestamp.
  unfoldable pub drained_record : Option ℕ → SourceRecord → TargetRecord
  drained_record timestamp r = record {
    topic = cfg.target_topic;
    partition = cfg.partition;
    key = r.key;
    value = r.value;
    headers = r.headers;
    timestamp = timestamp;
  }

  -- What reaches the target.
  unfoldable pub arrivals : Fetched → List TargetRecord
  arrivals (r, acked _) = drained_record (some r.timestamp) r ∷ []
  arrivals (r, recovered _) = drained_record none r ∷ []
  arrivals (r, failed error) = []

  -- What reaches the dead-letter queue: the record under the source's topic and partition.
  unfoldable pub letters : Fetched → List (SourceRecord × Headers)
  letters (r, acked _) = []
  letters (r, recovered _) = []
  letters (r, failed error) =
      let letter : SourceRecord = record r {
        topic = cfg.source_topic;
        partition = cfg.partition;
      } in
      if cfg.has_dlq then (letter, dlq_headers format_int letter error) ∷ [] else []

  abbrev pub errors_of : Fetched → ℕ
  errors_of (r, acked _) = 0
  errors_of (r, recovered _) = 0
  errors_of (r, failed error) = 1

  -- The body of the loop over a batch, with the callback.
  unfoldable pub produce_one : DrainState → Fetched → DrainState
  produce_one d (r, outcome) =
      let size = length r.value + length r.key in
      record {
        produce_errors = add64 d.produce_errors (errors_of (r, outcome));
        period_bytes = add64 d.period_bytes size;
        period_records = add64 d.period_records 1;
        total_bytes = add64 d.total_bytes size;
        total_records = add64 d.total_records 1;
        produced = d.produced ++ arrivals (r, outcome);
        dead_letters = d.dead_letters ++ letters (r, outcome);
        flushed = d.flushed;
      }

  -- The loop over a batch; a nil record panics.
  unfoldable pub produce_batch : DrainState → List (Option Fetched) → Option DrainState
  produce_batch d [] = some d
  produce_batch d (none ∷ more) = none
  produce_batch d (some x ∷ more) = produce_batch (produce_one d x) more

  abbrev pub after_batch : Bool → DrainState → Option DrainState → DrainState × DrainStatus
  after_batch due d none = (d, drain_panicked)
  after_batch due d (some next) =
      if due && not cfg.takes_partition
      then (next, drain_panicked)
      else (report_progress due next, draining)

  -- After the loop.
  abbrev pub end_drain : DrainState → DrainState × DrainStatus
  end_drain d =
      if lt64 0 d.period_records && not cfg.takes_partition
      then (d, drain_panicked)
      else (finish_drain d, drain_done)

  -- One round of the loop, from what DrainBatch answers.
  unfoldable pub drain_round : Bool → DrainState → Drained Fetched → DrainState × DrainStatus
  drain_round due d waiting = (d, draining)
  drain_round due d ended = end_drain d
  drain_round due d (batch []) = end_drain d
  drain_round due d (batch (x ∷ xs)) = after_batch due d (produce_batch d (x ∷ xs))
