-- ===== src/Config/Tests.antt =====
-- internal/config/config.go: one flow between two clusters.
use gomm.Prelude.{
  ◌≡◌, ◌≢◌, ◌↔◌, refl, true, false, List, [], ◌∷◌, none, some, All, Bytes, bytes_beq, bytes_beq_iff,
  has_prefix, codes, if◌then◌else◌, bytes_eq, lookup,
}
use gomm.Filter.{RegexpEngine, compile_patterns}
use gomm.Config.{TopicFilterConfig, ReplicationConfig, Config, valid_compression, validate}
use gomm.Config.Validation.{IsValidFlow, validate-none_iff}

abbrev prefixes : RegexpEngine
prefixes = record {
  Regexp = Bytes;
  compile = λ p. if bytes_beq p (codes "(") then none else some p;
  match_string = has_prefix;
}

abbrev no_filter : TopicFilterConfig
no_filter = record { whitelist = []; blacklist = [] }

abbrev flow : ReplicationConfig
flow = record {
  source = codes "us";
  target = codes "eu";
  enabled = true;
  topic_filter = record { whitelist = codes "orders" ∷ []; blacklist = [] };
  group_filter = no_filter;
  config_filter = no_filter;
  replication_policy = [];
  separator = [];
  replication_factor = 0;
  sync_topic_configs = none;
  sync_topic_acls = false;
  emit_heartbeats = some false;
  emit_checkpoints = none;
  emit_offset_syncs = none;
  refresh_topics_interval = 0;
  refresh_groups_interval = 0;
  sync_topic_configs_interval = 0;
  sync_topic_acls_interval = 0;
  heartbeat_interval = 0;
  checkpoint_interval = 0;
  producer_batch_size = 0;
  producer_linger_ms = 0;
  consumer_poll_timeout = 0;
  max_poll_records = 0;
  compression = [];
  read_committed = false;
  workers_per_partition = 0;
  fetch_max_partition_bytes = 0;
  ring_buffer_capacity = 0;
  exactly_once = false;
  offset_commit_interval = 0;
  offset_commit_batch = 0;
  max_retries = 0;
  retry_backoff_base = 0;
  retry_backoff_max = 0;
  dlq_enabled = false;
  shutdown_timeout = 0;
  offset_sync_interval = 0;
}

abbrev two_clusters : List (Bytes × List Bytes)
two_clusters = (codes "us", codes "a:9092" ∷ []) ∷ (codes "eu", codes "b:9092" ∷ []) ∷ []

abbrev config : Config
config = record {
  clusters = two_clusters;
  replications = flow ∷ [];
  metrics_enabled = true;
  metrics_address = [];
  logging_level = [];
  logging_format = [];
}

validate-none_iff_example : (validate prefixes config ≡ none) ↔ (
    (config.clusters ≢ [])
    × All (λ (c : Bytes × List Bytes). c.1 ≢ []) config.clusters
    × (config.replications ≢ [])
    × All (λ r. r.enabled ≡ true → IsValidFlow prefixes config.clusters r) config.replications)
validate-none_iff_example = validate-none_iff prefixes config

flow-IsValidFlow : IsValidFlow prefixes two_clusters flow
unfolding lookup bytes_beq compile_patterns valid_compression
flow-IsValidFlow =
    (refl, refl, (λ e. cc ((bytes_beq_iff (codes "us") (codes "eu")).1 e)), refl, refl, refl, refl)
