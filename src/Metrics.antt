-- ===== src/Metrics.antt =====
-- internal/metrics/metrics.go: the label names of the metrics that New registers, by the fields of
-- Metrics. Names, help texts and buckets are left out.
use gomm.Prelude.{List, [], ◌∷◌, Bytes, codes}

pub record Metrics : Type 0 where
  pub records_replicated : List Bytes
  pub bytes_replicated : List Bytes
  pub replication_lag : List Bytes
  pub record_age : List Bytes
  pub heartbeat_latency : List Bytes
  pub checkpoints_emitted : List Bytes
  pub offset_syncs_emitted : List Bytes
  pub topics_discovered : List Bytes
  pub groups_discovered : List Bytes
  pub poll_batch_size : List Bytes
  pub produce_errors : List Bytes
  pub consume_errors : List Bytes
  pub dlq_records_total : List Bytes
  pub retry_attempts : List Bytes
  pub retry_exhausted : List Bytes
  pub circuit_breaker_state : List Bytes
  pub offset_commits : List Bytes
  pub offset_commit_errors : List Bytes
  pub txn_commits : List Bytes
  pub txn_aborts : List Bytes

abbrev pub flow_labels : List Bytes
flow_labels = codes "source" ∷ codes "target" ∷ []

abbrev pub topic_labels : List Bytes
topic_labels = codes "source" ∷ codes "target" ∷ codes "topic" ∷ []

abbrev pub operation_labels : List Bytes
operation_labels = codes "source" ∷ codes "target" ∷ codes "operation" ∷ []

-- New.
unfoldable pub new_metrics : Metrics
new_metrics = record {
  records_replicated = topic_labels;
  bytes_replicated = topic_labels;
  replication_lag = codes "source" ∷ codes "target" ∷ codes "topic" ∷ codes "partition" ∷ [];
  record_age = topic_labels;
  heartbeat_latency = flow_labels;
  checkpoints_emitted = flow_labels;
  offset_syncs_emitted = flow_labels;
  topics_discovered = flow_labels;
  groups_discovered = flow_labels;
  poll_batch_size = flow_labels;
  produce_errors = topic_labels;
  consume_errors = flow_labels;
  dlq_records_total = topic_labels;
  retry_attempts = operation_labels;
  retry_exhausted = operation_labels;
  circuit_breaker_state = operation_labels;
  offset_commits = flow_labels;
  offset_commit_errors = flow_labels;
  txn_commits = flow_labels;
  txn_aborts = flow_labels;
}
