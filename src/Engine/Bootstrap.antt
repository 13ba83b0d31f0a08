-- ===== src/Engine/Bootstrap.antt =====
-- internal/mirror/engine.go: bootstrapOffsetSyncs, and the handlers of startMetricsServer. What the
-- Kafka clients do is an argument; the error of CreateCompactedTopic is dropped. A reader that has
-- read to the end is followed by `Follow` in the background, which is not part of the call.
mod Tests
pub mod Serving
pub mod Writers
pub mod Loop
pub mod Unready
pub mod Readiness
use gomm.Prelude.{
  ℕ, suc, Bool, true, false, not, ◌&&◌, List, [], ◌∷◌, ◌++◌, Option, none, some, if◌then◌else◌,
  length, get_or, set, Bytes, bytes_eq, lookup,
}
use gomm.Policy.{ReplicationPolicy, new_policy, offset_syncs_topic}
use gomm.Config.{ReplicationConfig, bool_default}
use gomm.Offset.Store.{SyncStore, new_sync_store, is_ready}
use gomm.Offset.Reader.{Poll, ReadEnd, caught_up, timed_out, stopped, crashed, pending, read_to_end}
use gomm.Offset.Writer.{SyncWriter}
use gomm.Mirror.Retry.{default_retry_config}
use gomm.Mirror.Lifecycle.{new_pair}
use gomm.Engine.{Source, SyncReader, Engine, flow_key}

-- What the clients of a flow do: the admin client, NewSyncReader, its polls, NewSyncWriter.
pub record BootClients : Type 0 where
  pub admin_connects : Bool
  pub reader_connects : Bool
  pub polls : List Poll
  pub writer_connects : Bool

-- How it stands after a flow: the loop goes on, or the call returns an error. Without a store, which
-- NewEngine gives to every enabled flow, the reader would crash; `boot_reading` is a read that the polls
-- at hand do not end.
pub data BootStatus : Type 0 where
  boot_goes_on boot_crashed boot_reading : BootStatus
  boot_policy_failed boot_admin_failed boot_reader_failed : BootStatus
  boot_read_failed boot_writer_failed : BootStatus

abbrev pub no_source : Source
no_source = record {
  store = 0;
  dlq = none;
  sync_writer = none;
  retry_cfg = default_retry_config;
  life = new_pair;
}

abbrev pub source_at : Engine → ℕ → Source
source_at e i = get_or e.sources i no_source

abbrev pub store_at : Engine → ℕ → SyncStore
store_at e i = get_or e.stores i new_sync_store

-- SetSyncWriter on the source of the flow, if the map has one.
abbrev pub wire_writer : Engine → Option ℕ → ℕ → Engine
wire_writer e none writer = e
wire_writer e (some i) writer = record e {
  sources = set e.sources i (record (source_at e i) { sync_writer = some writer });
}

abbrev pub add_writer : Engine → ReplicationConfig → Bytes → Bool → Engine × BootStatus
add_writer e r topic connects =
    if connects
    then (
      wire_writer
          (record e {
            sync_writers =
                e.sync_writers
                ++ (record {
                  sync_topic = topic;
                  closed = false;
                  produced = [];
                  producer_closes = 0;
                }
                    ∷ []);
          })
          (lookup (flow_key r) e.sources_by_flow) (length e.sync_writers),
      boot_goes_on,
    )
    else (e, boot_writer_failed)

abbrev pub add_reader : Engine → Bytes → ℕ → Engine
add_reader e topic store = record e {
  sync_readers =
      e.sync_readers ++ (record { sync_topic = topic; store = store; closed = false } ∷ []);
}

-- After ReadToEnd.
abbrev pub after_read :
    Engine → ReplicationConfig → Bytes → ℕ → Bool → SyncStore × ReadEnd → Engine × BootStatus
after_read e r topic i connects (s, caught_up) =
    add_writer (add_reader (record e { stores = set e.stores i s }) topic i) r topic connects
after_read e r topic i connects (s, timed_out) =
    add_writer (add_reader (record e { stores = set e.stores i s }) topic i) r topic connects
after_read e r topic i connects (s, stopped) =
    (record e { stores = set e.stores i s }, boot_read_failed)
after_read e r topic i connects (s, crashed) =
    (record e { stores = set e.stores i s }, boot_crashed)
after_read e r topic i connects (s, pending) =
    (record e { stores = set e.stores i s }, boot_reading)

abbrev pub read_syncs :
    Engine → ReplicationConfig → BootClients → Bytes → Option ℕ → Engine × BootStatus
read_syncs e r clients topic none = (e, boot_crashed)
read_syncs e r clients topic (some i) =
    after_read e r topic i clients.writer_connects (read_to_end (store_at e i) clients.polls)

abbrev pub boot_with :
    Engine → ReplicationConfig → BootClients → Option ReplicationPolicy → Engine × BootStatus
boot_with e r clients none = (e, boot_policy_failed)
boot_with e r clients (some policy) =
    if not clients.admin_connects
    then (e, boot_admin_failed)
    else if not clients.reader_connects
    then (e, boot_reader_failed)
    else read_syncs e r clients (offset_syncs_topic policy r.source)
        (lookup (flow_key r) e.sync_stores)

-- Whether a flow takes part.
abbrev pub emits_syncs : ReplicationConfig → Bool
emits_syncs r = r.enabled && bool_default r.emit_offset_syncs true

-- The body of the loop.
unfoldable pub boot_flow : Engine → ReplicationConfig → BootClients → Engine × BootStatus
boot_flow e r clients =
    if not (emits_syncs r)
    then (e, boot_goes_on)
    else boot_with e r clients (new_policy r.replication_policy r.separator)

abbrev pub boot_rest : (Engine → Engine × BootStatus) → Engine × BootStatus → Engine × BootStatus
boot_rest rest (e, boot_goes_on) = rest e
boot_rest rest (e, status) = (e, status)

-- The loop over the flows; `boot_goes_on` at its end is nil.
unfoldable pub bootstrap_offset_syncs :
    Engine → List (ReplicationConfig × BootClients) → Engine × BootStatus
bootstrap_offset_syncs e [] = (e, boot_goes_on)
bootstrap_offset_syncs e ((r, clients) ∷ more) =
    boot_rest (λ next. bootstrap_offset_syncs next more) (boot_flow e r clients)

-- The loop of /readyz, over the map of the stores.
unfoldable pub stores_ready : Engine → List (Bytes × ℕ) → Bool
stores_ready e [] = true
stores_ready e ((key, i) ∷ more) =
    if not (is_ready (store_at e i)) then false else stores_ready e more

-- The status and the body that /readyz and /healthz answer with.
unfoldable pub readyz : Engine → ℕ
readyz e = if stores_ready e e.sync_stores then 200 else 503

abbrev pub healthz : ℕ
healthz = 200
