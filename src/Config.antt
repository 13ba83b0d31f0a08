-- ===== src/Config.antt =====
-- internal/config/config.go: the configuration after YAML parsing, its defaults and its validation.
-- A pointer to a bool is an Option; an int and a Duration are int64 patterns, an int16 a number.
pub mod Defaults
pub mod Validation
mod Tests
use gomm.Prelude.{
  ℕ, suc, ◌*◌, Bool, true, false, not, ◌&&◌, ◌||◌, List, [], ◌∷◌, Option, none, some, length,
  if◌then◌else◌, Int64, Bytes, codes, bytes_beq, bytes_eq, nat_beq, lookup,
}
use gomm.Filter.{RegexpEngine, compile_patterns}

pub record TopicFilterConfig : Type 0 where
  pub whitelist : List Bytes
  pub blacklist : List Bytes

pub record ReplicationConfig : Type 0 where
  pub source : Bytes
  pub target : Bytes
  pub enabled : Bool
  pub topic_filter : TopicFilterConfig
  pub group_filter : TopicFilterConfig
  pub config_filter : TopicFilterConfig
  pub replication_policy : Bytes
  pub separator : Bytes
  pub replication_factor : ℕ
  pub sync_topic_configs : Option Bool
  pub sync_topic_acls : Bool
  pub emit_heartbeats : Option Bool
  pub emit_checkpoints : Option Bool
  pub emit_offset_syncs : Option Bool
  pub refresh_topics_interval : Int64
  pub refresh_groups_interval : Int64
  pub sync_topic_configs_interval : Int64
  pub sync_topic_acls_interval : Int64
  pub heartbeat_interval : Int64
  pub checkpoint_interval : Int64
  pub producer_batch_size : Int64
  pub producer_linger_ms : Int64
  pub consumer_poll_timeout : Int64
  pub max_poll_records : Int64
  pub compression : Bytes
  pub read_committed : Bool
  pub workers_per_partition : Int64
  pub fetch_max_partition_bytes : Int64
  pub ring_buffer_capacity : Int64
  pub exactly_once : Bool
  pub offset_commit_interval : Int64
  pub offset_commit_batch : Int64
  pub max_retries : Int64
  pub retry_backoff_base : Int64
  pub retry_backoff_max : Int64
  pub dlq_enabled : Bool
  pub shutdown_timeout : Int64
  pub offset_sync_interval : Int64

pub record Config : Type 0 where
  -- The bootstrap servers of each cluster: all that validation reads of it.
  pub clusters : List (Bytes × List Bytes)
  pub replications : List ReplicationConfig
  pub metrics_enabled : Bool
  pub metrics_address : Bytes
  pub logging_level : Bytes
  pub logging_format : Bytes

-- BoolDefault, the pointer first.
unfoldable pub bool_default : Option Bool → Bool → Bool
bool_default none def = def
bool_default (some b) def = b

-- The three kinds of test for a value that is not set, with the default first.
unfoldable pub or_number : ℕ → ℕ → ℕ
or_number def n = if nat_beq n 0 then def else n

unfoldable pub or_text : Bytes → Bytes → Bytes
or_text def [] = def
or_text def (c ∷ s) = c ∷ s

unfoldable pub or_true : Option Bool → Option Bool
or_true none = some true
or_true (some b) = some b

abbrev pub seconds : ℕ → Int64
seconds n = n * 1000000000

-- The body of the loop of setDefaults.
unfoldable pub set_flow_defaults : ReplicationConfig → ReplicationConfig
set_flow_defaults r = record r {
  separator = or_text (codes ".") r.separator;
  replication_policy = or_text (codes "default") r.replication_policy;
  replication_factor = or_number 3 r.replication_factor;
  refresh_topics_interval = or_number (seconds 10) r.refresh_topics_interval;
  refresh_groups_interval = or_number (seconds 10) r.refresh_groups_interval;
  sync_topic_configs_interval = or_number (seconds 10) r.sync_topic_configs_interval;
  sync_topic_acls_interval = or_number (seconds 10) r.sync_topic_acls_interval;
  heartbeat_interval = or_number (seconds 1) r.heartbeat_interval;
  checkpoint_interval = or_number (seconds 60) r.checkpoint_interval;
  consumer_poll_timeout = or_number (seconds 1) r.consumer_poll_timeout;
  producer_batch_size = or_number 16384 r.producer_batch_size;
  producer_linger_ms = or_number 5 r.producer_linger_ms;
  max_poll_records = or_number 500 r.max_poll_records;
  compression = or_text (codes "lz4") r.compression;
  emit_heartbeats = or_true r.emit_heartbeats;
  emit_checkpoints = or_true r.emit_checkpoints;
  emit_offset_syncs = or_true r.emit_offset_syncs;
  sync_topic_configs = or_true r.sync_topic_configs;
  workers_per_partition = or_number 4 r.workers_per_partition;
  fetch_max_partition_bytes = or_number 5242880 r.fetch_max_partition_bytes;
  ring_buffer_capacity = or_number 16384 r.ring_buffer_capacity;
  offset_commit_interval = or_number (seconds 5) r.offset_commit_interval;
  offset_commit_batch = or_number 1000 r.offset_commit_batch;
  max_retries = or_number 10 r.max_retries;
  retry_backoff_base = or_number 100000000 r.retry_backoff_base;
  retry_backoff_max = or_number (seconds 30) r.retry_backoff_max;
  shutdown_timeout = or_number (seconds 30) r.shutdown_timeout;
  offset_sync_interval = or_number 100 r.offset_sync_interval;
}

unfoldable pub set_all_defaults : List ReplicationConfig → List ReplicationConfig
set_all_defaults [] = []
set_all_defaults (r ∷ rs) = set_flow_defaults r ∷ set_all_defaults rs

unfoldable pub set_defaults : Config → Config
set_defaults cfg = record cfg {
  replications = set_all_defaults cfg.replications;
  metrics_address = or_text (codes ":9090") cfg.metrics_address;
  logging_level = or_text (codes "info") cfg.logging_level;
  logging_format = or_text (codes "json") cfg.logging_format;
}

-- The errors of Validate, with the index of the flow that they name.
pub data ConfigError : Type 0 where
  no_clusters : ConfigError
  no_bootstrap_servers : Bytes → ConfigError
  no_replications : ConfigError
  source_undefined target_undefined same_cluster exactly_once_unsupported : ℕ → ConfigError
  invalid_whitelist invalid_blacklist unsupported_compression : ℕ → ConfigError

unfoldable pub valid_compression : Bytes → Bool
valid_compression name =
    bytes_beq name (codes "none")
    || bytes_beq name (codes "gzip")
    || bytes_beq name (codes "snappy")
    || bytes_beq name (codes "lz4")
    || bytes_beq name (codes "zstd")
    || bytes_beq name []

abbrev pub is_defined : {A : Type 0} → Option A → Bool
is_defined none = false
is_defined (some a) = true

-- The loop over the clusters, in the order in which Go's range meets them.
unfoldable pub check_clusters : List (Bytes × List Bytes) → Option ConfigError
check_clusters [] = none
check_clusters ((name, []) ∷ more) = some (no_bootstrap_servers name)
check_clusters ((name, server ∷ servers) ∷ more) = check_clusters more

module _ (engine : RegexpEngine) where
  -- The body of the loop over the flows; a flow that is not enabled is passed over.
  unfoldable pub check_flow : List (Bytes × List Bytes) → ℕ → ReplicationConfig → Option ConfigError
  check_flow clusters i r =
      if not r.enabled
      then none
      else if not (is_defined (lookup r.source clusters))
      then some (source_undefined i)
      else if not (is_defined (lookup r.target clusters))
      then some (target_undefined i)
      else if bytes_beq r.source r.target
      then some (same_cluster i)
      else if r.exactly_once
      then some (exactly_once_unsupported i)
      else if not (is_defined (compile_patterns engine r.topic_filter.whitelist))
      then some (invalid_whitelist i)
      else if not (is_defined (compile_patterns engine r.topic_filter.blacklist))
      then some (invalid_blacklist i)
      else if not (valid_compression r.compression)
      then some (unsupported_compression i)
      else none

  unfoldable pub check_flows :
      List (Bytes × List Bytes) → ℕ → List ReplicationConfig → Option ConfigError
  check_flows clusters i [] = none
  check_flows clusters i (r ∷ rs) = elim (check_flow clusters i r) [
    | some err ↦ some err
    | none ↦ check_flows clusters (suc i) rs
  ]

  -- Validate; `none` is nil.
  unfoldable pub validate : Config → Option ConfigError
  validate cfg =
      if nat_beq (length cfg.clusters) 0
      then some no_clusters
      else elim (check_clusters cfg.clusters) [
        | some err ↦ some err
        | none ↦
            if nat_beq (length cfg.replications) 0
            then some no_replications
            else check_flows cfg.clusters 0 cfg.replications
      ]
