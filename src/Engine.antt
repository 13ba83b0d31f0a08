-- ===== src/Engine.antt =====
-- internal/mirror/engine.go: the engine and NewEngine, with NewSource (source.go), NewHeartbeat,
-- NewCheckpoint and NewTopicDiscovery. What several components point to is kept in a list, and a
-- pointer is an index: the sync stores, the dead-letter queues and the sources. Whether a Kafka
-- client can be set up is an argument.
mod Tests
pub mod Wiring
pub mod Building
pub mod Bootstrap
pub mod Running
pub mod CatchUp
use mathlib.Core.List.{map}
use gomm.Prelude.{
  ℕ, suc, ◌+◌, Bool, true, false, not, List, [], ◌∷◌, ◌++◌, Option, none, some, if◌then◌else◌,
  length, get_or, set, nat_beq, Bytes, codes, bytes_beq, bytes_eq, insert, lookup, Int64,
}
use gomm.Filter.{RegexpEngine, new_topic_filter, new_group_filter}
use gomm.Policy.{new_policy}
use gomm.Config.{ReplicationConfig, Config}
use gomm.Offset.Store.{SyncStore, new_sync_store}
use gomm.Offset.Writer.{SyncWriter}
use gomm.Mirror.Retry.{RetryConfig, default_retry_config}
use gomm.Mirror.Lifecycle.{
  Clients, Dialing, Pair, new_pair, HeartbeatEmitter, DiscoveryLoop, Dlq, NewDlq, dlq_disabled,
  dlq_opts_failed, dlq_client_failed, dlq_made, new_dlq,
}

-- A source, with the indices of its store, dead-letter queue and sync writer.
pub record Source : Type 0 where
  pub store : ℕ
  pub dlq : Option ℕ
  pub sync_writer : Option ℕ
  pub retry_cfg : RetryConfig
  pub life : Pair

-- With the fields of the flow's configuration.
pub record CheckpointEmitter : Type 0 where
  pub cfg : ReplicationConfig
  pub store : ℕ
  pub life : Pair

pub record HeartbeatTask : Type 0 where
  pub cfg : ReplicationConfig
  pub emitter : HeartbeatEmitter

pub record TopicDiscovery : Type 0 where
  pub source : ℕ
  pub loop : DiscoveryLoop

-- A reader of a topic into a store.
pub record SyncReader : Type 0 where
  pub sync_topic : Bytes
  pub store : ℕ
  pub closed : Bool

pub record Engine : Type 0 where
  pub stores : List SyncStore
  pub queues : List Dlq
  pub clients : Clients
  pub sources : List Source
  pub sources_by_flow : List (Bytes × ℕ)
  pub heartbeats : List HeartbeatTask
  pub checkpoints : List CheckpointEmitter
  pub topic_discoveries : List TopicDiscovery
  pub sync_stores : List (Bytes × ℕ)
  pub sync_readers : List SyncReader
  pub sync_writers : List SyncWriter
  pub dlqs : List ℕ
  pub running : Bool

abbrev pub empty_engine : Engine
empty_engine = record {
  stores = [];
  queues = [];
  clients = record { next_id = 0; opened = [] };
  sources = [];
  sources_by_flow = [];
  heartbeats = [];
  checkpoints = [];
  topic_discoveries = [];
  sync_stores = [];
  sync_readers = [];
  sync_writers = [];
  dlqs = [];
  running = false;
}

-- The errors of NewEngine.
pub data BuildError : Type 0 where
  source_undefined target_undefined source_failed queue_failed : BuildError
  heartbeat_failed checkpoint_failed discovery_failed : BuildError

pub data Built (A : Type 0) : Type 0 where
  built : A → Built A
  build_failed : BuildError → Built A

infixl 5 ◌>>=◌
abbrev pub ◌>>=◌ : {A B : Type 0} → Built A → (A → Built B) → Built B
built a >>= f = f a
build_failed err >>= f = build_failed err

abbrev pub require : {A : Type 0} → Option A → BuildError → Built A
require none err = build_failed err
require (some a) err = built a

-- The key of a flow: the source, an arrow, the target.
unfoldable pub flow_key : ReplicationConfig → Bytes
flow_key r = r.source ++ (codes "->" ++ r.target)

-- The retry configuration of a source and of a parallel source.
unfoldable pub retry_config_of : ReplicationConfig → RetryConfig
retry_config_of cfg = if nat_beq cfg.max_retries 0 then default_retry_config else record {
  max_retries = cfg.max_retries;
  backoff_base = cfg.retry_backoff_base;
  backoff_max = cfg.retry_backoff_max;
}

-- NewSource's own queue: an error is only logged, and leaves the source without one.
abbrev pub own_queue : Engine → NewDlq × Clients → Engine × Option ℕ
own_queue e (dlq_made d, w) =
    (record e { queues = e.queues ++ (d ∷ []); clients = w }, some (length e.queues))
own_queue e (dlq_disabled, w) = (record e { clients = w }, none)
own_queue e (dlq_opts_failed, w) = (record e { clients = w }, none)
own_queue e (dlq_client_failed, w) = (record e { clients = w }, none)

-- The engine's queue, which replaces the source's.
abbrev pub set_queue : Engine → Option ℕ → NewDlq × Clients → Built (Engine × Option ℕ)
set_queue e own (dlq_made d, w) = built (
  record e { queues = e.queues ++ (d ∷ []); dlqs = e.dlqs ++ (length e.queues ∷ []); clients = w },
  some (length e.queues),
)
set_queue e own (dlq_disabled, w) = built (record e { clients = w }, own)
set_queue e own (dlq_opts_failed, w) = build_failed queue_failed
set_queue e own (dlq_client_failed, w) = build_failed queue_failed

-- Whether the clients of the two queues can be set up.
pub record FlowDialing : Type 0 where
  pub own_queue : Dialing
  pub queue : Dialing

-- The components of a flow, added to those that are there.
abbrev pub add_components : Engine → ReplicationConfig → ℕ → Option ℕ → Engine
add_components e r store queue = record e {
  sources =
      e.sources
      ++ (record {
        store = store;
        dlq = queue;
        sync_writer = none;
        retry_cfg = retry_config_of r;
        life = new_pair;
      }
          ∷ []);
  sources_by_flow = insert (flow_key r) (length e.sources) e.sources_by_flow;
  heartbeats =
      e.heartbeats
      ++ (record { cfg = r; emitter = record { running = false; producer = none; loops = 0 } }
          ∷ []);
  checkpoints = e.checkpoints ++ (record { cfg = r; store = store; life = new_pair } ∷ []);
  topic_discoveries =
      e.topic_discoveries
      ++ (record { source = length e.sources; loop = record { running = false; loops = 0 } } ∷ []);
}

-- A new store under the flow's key.
abbrev pub add_store : Engine → ReplicationConfig → Engine
add_store e r = record e {
  stores = e.stores ++ (new_sync_store ∷ []);
  sync_stores = insert (flow_key r) (length e.stores) e.sync_stores;
}

-- The two queues, of NewSource and of NewEngine.
unfoldable pub make_queues : Engine → ReplicationConfig → FlowDialing → Built (Engine × Option ℕ)
make_queues e r dialing =
    let (owning, own) = own_queue e (new_dlq r dialing.own_queue e.clients) in
    set_queue owning own (new_dlq r dialing.queue owning.clients)

module _ (regexp : RegexpEngine) where
  -- The filters and the policy that the constructors build, each with its error.
  abbrev pub require_filter : ReplicationConfig → BuildError → Built Unit
  require_filter r err = do
    filter ← require (new_topic_filter regexp r.topic_filter.whitelist r.topic_filter.blacklist) err
    built tt

  abbrev pub require_group_filter : ReplicationConfig → BuildError → Built Unit
  require_group_filter r err = do
    filter ← require (new_group_filter regexp r.group_filter.whitelist r.group_filter.blacklist) err
    built tt

  abbrev pub require_policy : ReplicationConfig → BuildError → Built Unit
  require_policy r err = do
    policy ← require (new_policy r.replication_policy r.separator) err
    built tt

  -- What is asked for before the queues are made: the clusters, and what NewSource builds.
  unfoldable pub before_queues : List (Bytes × List Bytes) → ReplicationConfig → Built Unit
  before_queues clusters r = do
    source ← require (lookup r.source clusters) source_undefined
    target ← require (lookup r.target clusters) target_undefined
    topics ← require_filter r source_failed
    require_policy r source_failed

  -- What NewHeartbeat, NewCheckpoint and NewTopicDiscovery build.
  unfoldable pub after_queues : ReplicationConfig → Built Unit
  after_queues r = do
    naming ← require_policy r heartbeat_failed
    topics ← require_filter r checkpoint_failed
    groups ← require_group_filter r checkpoint_failed
    checkpoint_naming ← require_policy r checkpoint_failed
    discovery_topics ← require_filter r discovery_failed
    require_policy r discovery_failed

  -- The body of the loop for an enabled flow.
  unfoldable pub add_flow :
      List (Bytes × List Bytes) → Engine → ReplicationConfig → FlowDialing → Built Engine
  add_flow clusters e r dialing = do
    checked ← before_queues clusters r
    (queued, queue) ← make_queues (add_store e r) r dialing
    rest ← after_queues r
    built (add_components queued r (length e.stores) queue)

  -- The loop over the flows.
  unfoldable pub add_flows :
      List (Bytes × List Bytes) → Engine → List (ReplicationConfig × FlowDialing) → Built Engine
  add_flows clusters e [] = built e
  add_flows clusters e ((r, dialing) ∷ more) =
      let skipped = add_flows clusters e more in
      let added = add_flow clusters e r dialing >>= λ next. add_flows clusters next more in
      if not r.enabled then skipped else added

  -- NewEngine.
  unfoldable pub new_engine :
      List (Bytes × List Bytes) → List (ReplicationConfig × FlowDialing) → Built Engine
  new_engine clusters flows = add_flows clusters empty_engine flows
