-- ===== src/Mirror/Lifecycle.antt =====
-- internal/mirror: Start and Stop of source.go, checkpoint.go, heartbeat.go and topic_discovery.go,
-- and dlq.go. The Kafka clients that are open are a list of their ids; whether BuildClientOpts and
-- NewClient succeed is an argument. A component keeps a client's id where the code keeps a pointer,
-- also after the client is closed. `loops` are the goroutines of the component that run; Stop cancels
-- their context and waits until they have returned. One goroutine calls the operations of a component.
pub mod Ownership
pub mod Burial
mod Tests
use gomm.Prelude.{
  ℕ, suc, ◌+◌, Bool, true, false, not, List, [], ◌∷◌, ◌++◌, Option, none, some, if◌then◌else◌,
  nat_beq, Bytes, codes,
}
use gomm.Config.{ReplicationConfig, bool_default}
use gomm.Mirror.Source.{SourceRecord, Headers, dlq_headers}

pub record Clients : Type 0 where
  pub next_id : ℕ
  pub opened : List ℕ

abbrev pub open_client : Clients → Clients
open_client w = record { next_id = suc w.next_id; opened = w.next_id ∷ w.opened }

abbrev pub remove : ℕ → List ℕ → List ℕ
remove id [] = []
remove id (i ∷ more) = let rest = remove id more in if nat_beq i id then rest else i ∷ rest

-- Close, behind the test for nil.
abbrev pub close_client : Option ℕ → Clients → Clients
close_client none w = w
close_client (some id) w = record w { opened = remove id w.opened }

-- Which of the calls that set up a client succeed.
pub record Dialing : Type 0 where
  pub builds_opts : Bool
  pub connects : Bool

-- A replicator's consumer and producer, or a checkpoint emitter's admin client and producer.
pub record Pair : Type 0 where
  pub running : Bool
  pub first : Option ℕ
  pub second : Option ℕ
  pub loops : ℕ

pub data StartResult : Type 0 where
  started already_running disabled : StartResult
  first_opts_failed first_client_failed second_opts_failed second_client_failed : StartResult

abbrev pub new_pair : Pair
new_pair = record { running = false; first = none; second = none; loops = 0 }

-- From the second client on, with the first open; the first is closed where the second fails.
abbrev pub start_second : Dialing → Pair → Clients → (Pair × Clients) × StartResult
start_second second c w =
    if not second.builds_opts
    then ((c, close_client c.first w), second_opts_failed)
    else if not second.connects
    then ((c, close_client c.first w), second_client_failed)
    else (
      (record c { second = some w.next_id; running = true; loops = suc c.loops }, open_client w),
      started,
    )

abbrev pub start_both : Dialing → Dialing → Pair → Clients → (Pair × Clients) × StartResult
start_both first second c w =
    if not first.builds_opts
    then ((c, w), first_opts_failed)
    else if not first.connects
    then ((c, w), first_client_failed)
    else start_second second (record c { first = some w.next_id }) (open_client w)

-- Source.Start.
unfoldable pub source_start : Dialing → Dialing → Pair → Clients → (Pair × Clients) × StartResult
source_start consumer producer c w =
    if c.running then ((c, w), already_running) else start_both consumer producer c w

-- Checkpoint.Start.
unfoldable pub checkpoint_start :
    ReplicationConfig → Dialing → Dialing → Pair → Clients → (Pair × Clients) × StartResult
checkpoint_start cfg admin producer c w =
    if c.running
    then ((c, w), already_running)
    else if not (bool_default cfg.emit_checkpoints true)
    then ((c, w), disabled)
    else start_both admin producer c w

-- Checkpoint.Stop, and what Source.Stop does with its clients.
unfoldable pub pair_stop : Pair → Clients → Pair × Clients
pair_stop c w =
    if not c.running
    then (c, w)
    else (record c { running = false; loops = 0 }, close_client c.second (close_client c.first w))

pub record HeartbeatEmitter : Type 0 where
  pub running : Bool
  pub producer : Option ℕ
  pub loops : ℕ

-- Heartbeat.Start.
unfoldable pub heartbeat_start :
    ReplicationConfig
    → Dialing
    → HeartbeatEmitter
    → Clients
    → (HeartbeatEmitter × Clients) × StartResult
heartbeat_start cfg target h w =
    if h.running
    then ((h, w), already_running)
    else if not (bool_default cfg.emit_heartbeats true)
    then ((h, w), disabled)
    else if not target.builds_opts
    then ((h, w), first_opts_failed)
    else if not target.connects
    then ((h, w), first_client_failed)
    else (
      (record { running = true; producer = some w.next_id; loops = suc h.loops }, open_client w),
      started,
    )

-- Heartbeat.Stop.
unfoldable pub heartbeat_stop : HeartbeatEmitter → Clients → HeartbeatEmitter × Clients
heartbeat_stop h w =
    if not h.running
    then (h, w)
    else (record h { running = false; loops = 0 }, close_client h.producer w)

-- TopicDiscovery.Start and Stop, which open no client that they keep.
pub record DiscoveryLoop : Type 0 where
  pub running : Bool
  pub loops : ℕ

unfoldable pub discovery_start : DiscoveryLoop → DiscoveryLoop × StartResult
discovery_start td =
    if td.running
    then (td, already_running)
    else (record { running = true; loops = suc td.loops }, started)

unfoldable pub discovery_stop : DiscoveryLoop → DiscoveryLoop
discovery_stop td = if not td.running then td else record { running = false; loops = 0 }

-- DLQ, with the records that it has handed to its producer.
pub record Dlq : Type 0 where
  pub topic : Bytes
  pub producer : ℕ
  pub closed : Bool
  pub handed : List (Bytes × Bytes × Headers)

unfoldable pub dlq_topic : ReplicationConfig → Bytes
dlq_topic cfg = codes "gomm2-dlq-" ++ (cfg.source ++ (codes "-" ++ cfg.target))

pub data NewDlq : Type 0 where
  dlq_disabled dlq_opts_failed dlq_client_failed : NewDlq
  dlq_made : Dlq → NewDlq

-- NewDLQ.
unfoldable pub new_dlq : ReplicationConfig → Dialing → Clients → NewDlq × Clients
new_dlq cfg target w =
    if not cfg.dlq_enabled
    then (dlq_disabled, w)
    else if not target.builds_opts
    then (dlq_opts_failed, w)
    else if not target.connects
    then (dlq_client_failed, w)
    else (
      dlq_made
          (record { topic = dlq_topic cfg; producer = w.next_id; closed = false; handed = [] }),
      open_client w,
    )

-- DLQ.Send of a record and the text of its error: nothing on a closed queue.
unfoldable pub dlq_send : (ℕ → Bytes) → SourceRecord → Bytes → Dlq → Dlq
dlq_send format_int r error d =
    if d.closed
    then d
    else record d { handed = d.handed ++ ((r.key, r.value, dlq_headers format_int r error) ∷ []) }

-- DLQ.Close.
unfoldable pub dlq_close : Dlq → Clients → Dlq × Clients
dlq_close d w =
    if d.closed then (d, w) else (record d { closed = true }, close_client (some d.producer) w)

abbrev pub close_optional : Option Dlq → Clients → Option Dlq × Clients
close_optional none w = (none, w)
close_optional (some d) w = let (closed, after) = dlq_close d w in (some closed, after)

-- Source.Stop: the clients, then the dead-letter queue.
unfoldable pub source_stop : Pair → Option Dlq → Clients → (Pair × Option Dlq) × Clients
source_stop c dlq w =
    let (stopped, after) = pair_stop c w in
    let (closed, last) = close_optional dlq after in
    if not c.running then ((c, dlq), w) else ((stopped, closed), last)
