-- ===== src/Engine/Tests.antt =====
-- internal/mirror/engine.go: an engine for two flows, of which one writes no offset syncs.
use gomm.Prelude.{
  ◌≡◌, refl, Bool, true, false, List, [], ◌∷◌, Option, none, some, Bytes, bytes_beq, has_prefix,
  codes, if◌then◌else◌, bytes_eq, lookup,
}
use gomm.Filter.{RegexpEngine, compile_patterns, new_topic_filter, new_group_filter}
use gomm.Policy.{new_policy}
use gomm.Config.{
  TopicFilterConfig, ReplicationConfig, Config, valid_compression, check_clusters, check_flow,
  check_flows, validate,
}
use gomm.Mirror.Lifecycle.{Dialing, new_dlq}
use gomm.Engine.{
  Engine, empty_engine, FlowDialing, built, add_store, add_components, make_queues, before_queues,
  after_queues, add_flow, add_flows, new_engine,
}
use gomm.Engine.Building.{new_engine-built_iff}
use gomm.Engine.Wiring.{Wired, enabled_keys, new_engine-Wired}

abbrev pub prefixes : RegexpEngine
prefixes = record {
  Regexp = Bytes;
  compile = λ p. if bytes_beq p (codes "(") then none else some p;
  match_string = has_prefix;
}

abbrev no_filter : TopicFilterConfig
no_filter = record { whitelist = []; blacklist = [] }

abbrev pub flow : Bytes → Bytes → Option Bool → ReplicationConfig
flow source target emits = record {
  source = source;
  target = target;
  enabled = true;
  topic_filter = record { whitelist = codes "orders" ∷ []; blacklist = [] };
  group_filter = no_filter;
  config_filter = no_filter;
  replication_policy = codes "default";
  separator = codes ".";
  replication_factor = 3;
  sync_topic_configs = some true;
  sync_topic_acls = false;
  emit_heartbeats = some true;
  emit_checkpoints = some true;
  emit_offset_syncs = emits;
  refresh_topics_interval = 10;
  refresh_groups_interval = 10;
  sync_topic_configs_interval = 10;
  sync_topic_acls_interval = 10;
  heartbeat_interval = 1;
  checkpoint_interval = 60;
  producer_batch_size = 16384;
  producer_linger_ms = 5;
  consumer_poll_timeout = 1;
  max_poll_records = 500;
  compression = codes "lz4";
  read_committed = false;
  workers_per_partition = 4;
  fetch_max_partition_bytes = 5242880;
  ring_buffer_capacity = 16384;
  exactly_once = false;
  offset_commit_interval = 5;
  offset_commit_batch = 1000;
  max_retries = 10;
  retry_backoff_base = 100;
  retry_backoff_max = 30;
  dlq_enabled = false;
  shutdown_timeout = 30;
  offset_sync_interval = 100;
}

abbrev pub us_eu : ReplicationConfig
us_eu = flow (codes "us") (codes "eu") (some true)

abbrev pub eu_us : ReplicationConfig
eu_us = flow (codes "eu") (codes "us") (some false)

abbrev pub good : Dialing
good = record { builds_opts = true; connects = true }

abbrev pub flows : List (ReplicationConfig × FlowDialing)
flows =
    (us_eu, record { own_queue = good; queue = good })
    ∷ (eu_us, record { own_queue = good; queue = good })
    ∷ []

abbrev pub two_clusters : List (Bytes × List Bytes)
two_clusters = (codes "us", codes "a:9092" ∷ []) ∷ (codes "eu", codes "b:9092" ∷ []) ∷ []

-- The first flow with a dead-letter queue: the client of the source's own does not connect.
abbrev us_eu_queued : ReplicationConfig
us_eu_queued = record us_eu { dlq_enabled = true }

abbrev queued_flows : List (ReplicationConfig × FlowDialing)
queued_flows =
    (
      us_eu_queued,
      record { own_queue = record { builds_opts = true; connects = false }; queue = good },
    )
    ∷ (eu_us, record { own_queue = good; queue = good })
    ∷ []

abbrev config : Config
config = record {
  clusters = two_clusters;
  replications = us_eu_queued ∷ eu_us ∷ [];
  metrics_enabled = true;
  metrics_address = codes ":9090";
  logging_level = codes "info";
  logging_format = codes "json";
}

new_engine-built_iff_example :
    (e : Engine) × (new_engine prefixes two_clusters queued_flows ≡ built e)
unfolding validate check_clusters check_flows check_flow lookup bytes_beq compile_patterns
    valid_compression new_policy
new_engine-built_iff_example = (new_engine-built_iff prefixes config queued_flows refl refl).1 (
  (λ on. (refl, refl, refl, λ dlq. (refl, refl))),
  ((λ on. (refl, refl, refl, λ dlq. (refl, refl))), tt),
)

-- The engine that is made.
abbrev pub made : Engine
made =
    add_components (add_store (add_components (add_store empty_engine us_eu) us_eu 0 none) eu_us)
      eu_us 1 none

pub made-built : new_engine prefixes two_clusters flows ≡ built made
unfolding new_engine add_flows add_flow before_queues make_queues after_queues new_dlq lookup
    bytes_beq compile_patterns new_topic_filter new_group_filter new_policy
made-built = refl

new_engine-Wired_example : Wired (enabled_keys prefixes flows) made
new_engine-Wired_example = new_engine-Wired prefixes two_clusters flows made made-built
