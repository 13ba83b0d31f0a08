-- ===== src/Engine/Running.antt =====
-- internal/mirror/engine.go: Run from its lock to its end, without the catch-up, Shutdown and
-- parseLogLevel. What the Kafka clients do is an argument: for the clients of the n-th component of a
-- kind a function of n. The metrics server is left out.
mod Tests
pub mod Stopping
pub mod Ending
use gomm.Prelude.{
  ℕ, zero, suc, Bool, true, false, not, ◌&&◌, List, [], ◌∷◌, ◌++◌, Option, none, some,
  if◌then◌else◌, get_or, set, Bytes, bytes_beq, codes,
}
use gomm.Config.{ReplicationConfig}
use gomm.Offset.Writer.{SyncWriter}
use gomm.Offset.Writer as Writer
use gomm.Mirror.Lifecycle.{
  Clients, Dialing, Pair, StartResult, started, already_running, disabled, first_opts_failed,
  first_client_failed, second_opts_failed, second_client_failed, source_start, checkpoint_start,
  heartbeat_start, discovery_start, pair_stop, heartbeat_stop, discovery_stop, Dlq, dlq_close,
}
use gomm.Engine.{Source, CheckpointEmitter, HeartbeatTask, TopicDiscovery, SyncReader, Engine}
use gomm.Engine.Bootstrap.{
  BootClients, BootStatus, boot_goes_on, boot_crashed, boot_reading, bootstrap_offset_syncs,
}

-- Whether Start returns nil.
abbrev pub starts : StartResult → Bool
starts started = true
starts disabled = true
starts other = false

-- A loop of Run that starts the components of a kind, and returns at the first error: the components,
-- what they share, and whether all have started.
module _ {A W : Type 0} (start : ℕ → A → W → (A × W) × Bool) where
  abbrev pub start_all : ℕ → List A → W → (List A × W) × Bool
  start_all n [] w = (([], w), true)
  start_all n (a ∷ more) w =
      let ((a', w'), good) = start n a w in
      let ((more', w''), all_good) = start_all (suc n) more w' in
      if good then ((a' ∷ more', w''), all_good) else ((a' ∷ more, w'), false)

-- A loop of Shutdown.
module _ {A W : Type 0} (stop : A → W → A × W) where
  abbrev pub stop_all : List A → W → List A × W
  stop_all [] w = ([], w)
  stop_all (a ∷ more) w =
      let (a', w') = stop a w in let (more', w'') = stop_all more w' in (a' ∷ more', w'')

-- The clients that are set up while it runs.
pub record RunClients : Type 0 where
  pub boots : List (ReplicationConfig × BootClients)
  pub consumer : ℕ → Dialing
  pub producer : ℕ → Dialing
  pub heartbeat : ℕ → Dialing
  pub checkpoint_admin : ℕ → Dialing
  pub checkpoint_producer : ℕ → Dialing

abbrev pub start_source : RunClients → ℕ → Source → Clients → (Source × Clients) × Bool
start_source cs n s w =
    let ((life, w'), result) = source_start (cs.consumer n) (cs.producer n) s.life w in
    ((record s { life = life }, w'), starts result)

abbrev pub start_discovery : ℕ → TopicDiscovery → Clients → (TopicDiscovery × Clients) × Bool
start_discovery n td w =
    let (loop, result) = discovery_start td.loop in ((record td { loop = loop }, w), starts result)

abbrev pub start_heartbeat :
    RunClients → ℕ → HeartbeatTask → Clients → (HeartbeatTask × Clients) × Bool
start_heartbeat cs n h w =
    let ((emitter, w'), result) = heartbeat_start h.cfg (cs.heartbeat n) h.emitter w in
    ((record h { emitter = emitter }, w'), starts result)

abbrev pub start_checkpoint :
    RunClients → ℕ → CheckpointEmitter → Clients → (CheckpointEmitter × Clients) × Bool
start_checkpoint cs n c w =
    let ((life, w'), result) =
      checkpoint_start c.cfg (cs.checkpoint_admin n) (cs.checkpoint_producer n) c.life w in
    ((record c { life = life }, w'), starts result)

-- The queue that a source or the engine points to.
abbrev pub no_queue : Dlq
no_queue = record { topic = []; producer = 0; closed = true; handed = [] }

abbrev pub close_queue : ℕ → List Dlq × Clients → List Dlq × Clients
close_queue i (queues, w) =
    let (d, w') = dlq_close (get_or queues i no_queue) w in (set queues i d, w')

abbrev pub close_source_queue : Option ℕ → List Dlq × Clients → List Dlq × Clients
close_source_queue none w = w
close_source_queue (some i) w = close_queue i w

-- Source.Stop, on the queues that are shared.
abbrev pub stop_source : Source → List Dlq × Clients → Source × (List Dlq × Clients)
stop_source s (queues, w) =
    let (life, w') = pair_stop s.life w in
    if not s.life.running
    then (s, (queues, w))
    else (record s { life = life }, close_source_queue s.dlq (queues, w'))

abbrev pub stop_discovery : TopicDiscovery → Clients → TopicDiscovery × Clients
stop_discovery td w = (record td { loop = discovery_stop td.loop }, w)

abbrev pub stop_heartbeat : HeartbeatTask → Clients → HeartbeatTask × Clients
stop_heartbeat h w =
    let (emitter, w') = heartbeat_stop h.emitter w in (record h { emitter = emitter }, w')

abbrev pub stop_checkpoint : CheckpointEmitter → Clients → CheckpointEmitter × Clients
stop_checkpoint c w = let (life, w') = pair_stop c.life w in (record c { life = life }, w')

abbrev pub close_readers : List SyncReader → List SyncReader
close_readers [] = []
close_readers (r ∷ more) = record r { closed = true } ∷ close_readers more

abbrev pub close_writers : List SyncWriter → List SyncWriter
close_writers [] = []
close_writers (w ∷ more) = Writer.close w ∷ close_writers more

abbrev pub close_queues : List ℕ → List Dlq × Clients → List Dlq × Clients
close_queues [] w = w
close_queues (i ∷ more) w = close_queues more (close_queue i w)

unfoldable pub shutdown : Engine → Engine
shutdown e =
    let (checkpoints, w₁) = stop_all stop_checkpoint e.checkpoints e.clients in
    let (heartbeats, w₂) = stop_all stop_heartbeat e.heartbeats w₁ in
    let (discoveries, w₃) = stop_all stop_discovery e.topic_discoveries w₂ in
    let (sources, held) = stop_all stop_source e.sources (e.queues, w₃) in
    let (queues, w₄) = close_queues e.dlqs held in
    record e {
      checkpoints = checkpoints;
      heartbeats = heartbeats;
      topic_discoveries = discoveries;
      sources = sources;
      sync_readers = close_readers e.sync_readers;
      sync_writers = close_writers e.sync_writers;
      queues = queues;
      clients = w₄;
      running = false;
    }

-- What Run returns: the error of an engine that runs, an error of a phase, or nil. Or it does not
-- return: it panics in the bootstrap (`run_crashed`), or still reads there when the polls that are at
-- hand are used up (`run_reading`).
pub data RunResult : Type 0 where
  engine_already_running : RunResult
  boot_failed : BootStatus → RunResult
  source_start_failed discovery_start_failed heartbeat_start_failed : RunResult
  checkpoint_start_failed run_done : RunResult
  run_crashed run_reading : RunResult

-- The phases from the sources on, up to the signal.
abbrev pub start_components : RunClients → Engine → Engine × RunResult
start_components cs e =
    let ((sources, w₁), good₁) = start_all (start_source cs) 0 e.sources e.clients in
    let ((discoveries, w₂), good₂) = start_all start_discovery 0 e.topic_discoveries w₁ in
    let ((heartbeats, w₃), good₃) = start_all (start_heartbeat cs) 0 e.heartbeats w₂ in
    let ((checkpoints, w₄), good₄) = start_all (start_checkpoint cs) 0 e.checkpoints w₃ in
    let e₁ : Engine = record e { sources = sources; clients = w₁ } in
    let e₂ : Engine = record e₁ { topic_discoveries = discoveries; clients = w₂ } in
    let e₃ : Engine = record e₂ { heartbeats = heartbeats; clients = w₃ } in
    let e₄ : Engine = record e₃ { checkpoints = checkpoints; clients = w₄ } in
    if not good₁
    then (e₁, source_start_failed)
    else if not good₂
    then (e₂, discovery_start_failed)
    else if not good₃
    then (e₃, heartbeat_start_failed)
    else if not good₄
    then (e₄, checkpoint_start_failed)
    else (e₄, run_done)

-- Run calls Shutdown after the signal, and not where a phase fails.
abbrev pub after_start : Engine × RunResult → Engine × RunResult
after_start (e, run_done) = (shutdown e, run_done)
after_start (e, other) = (e, other)

abbrev pub after_boot : RunClients → Engine × BootStatus → Engine × RunResult
after_boot cs (e, boot_goes_on) = after_start (start_components cs e)
after_boot cs (e, boot_crashed) = (e, run_crashed)
after_boot cs (e, boot_reading) = (e, run_reading)
after_boot cs (e, status) = (e, boot_failed status)

unfoldable pub run : RunClients → Engine → Engine × RunResult
run cs e =
    if e.running
    then (e, engine_already_running)
    else after_boot cs (bootstrap_offset_syncs (record e { running = true }) cs.boots)

-- slog's levels.
pub data Level : Type 0 where
  level_debug level_info level_warn level_error : Level

unfoldable pub parse_log_level : Bytes → Level
parse_log_level level =
    if bytes_beq level (codes "debug")
    then level_debug
    else if bytes_beq level (codes "warn")
    then level_warn
    else if bytes_beq level (codes "error")
    then level_error
    else level_info
