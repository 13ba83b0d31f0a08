-- ===== src/Engine/Running/Stopping.antt =====
-- internal/mirror/engine.go: Shutdown.
use gomm.Prelude.{
  ℕ, zero, suc, ◌≡◌, refl, ap, ◌∙◌, ◌⊎◌, inl, inr, true, false, List, [], ◌∷◌, arith, get_or, set,
  get_or-set_ne, All, bytes_eq,
}
use native.Mathlib.Decide.{ℕ_discrete}
use mathlib.Core.Path.{subst}
use gomm.Offset.Writer.{SyncWriter}
use gomm.Offset.Writer as Writer
use gomm.Mirror.Lifecycle.{
  Clients, Pair, pair_stop, HeartbeatEmitter, heartbeat_stop, DiscoveryLoop, discovery_stop, Dlq,
  dlq_close,
}
use gomm.Engine.{Source, CheckpointEmitter, HeartbeatTask, TopicDiscovery, SyncReader, Engine}
use gomm.Engine.Running.{
  stop_all, stop_source, stop_discovery, stop_heartbeat, stop_checkpoint, close_readers,
  close_writers, no_queue, close_queue, close_queues, shutdown,
}

-- A loop that stops each component stops all.
module _ {A W : Type 0} (P : A → Type 0) (stop : A → W → A × W) where
  stop_all-All :
      ((a : A) (w : W) → P ((stop a w).0))
      → (parts : List A) (w : W) → All P (stop_all stop parts w).0
  stop_all-All h [] w = tt
  stop_all-All h (a ∷ more) w = (h a w, stop_all-All h more (stop a w).1)

pair_stop-idle : (c : Pair) (w : Clients) → (pair_stop c w).0.running ≡ false
unfolding pair_stop
pair_stop-idle c w = ground arith

heartbeat_stop-idle : (h : HeartbeatEmitter) (w : Clients) → (heartbeat_stop h w).0.running ≡ false
unfolding heartbeat_stop
heartbeat_stop-idle h w = ground arith

discovery_stop-idle : (td : DiscoveryLoop) → (discovery_stop td).running ≡ false
unfolding discovery_stop
discovery_stop-idle td = ground arith

stop_source-idle : (s : Source) (w : List Dlq × Clients) → (stop_source s w).0.life.running ≡ false
stop_source-idle s (queues, w) = ground (arith, pair_stop-idle s.life w)

close_readers-All :
    (rs : List SyncReader) → All (λ (r : SyncReader). r.closed ≡ true) (close_readers rs)
close_readers-All [] = tt
close_readers-All (r ∷ rs) = (refl, close_readers-All rs)

close_writers-All :
    (ws : List SyncWriter) → All (λ (w : SyncWriter). w.closed ≡ true) (close_writers ws)
unfolding Writer.close
close_writers-All [] = tt
close_writers-All (w ∷ ws) = (ground arith, close_writers-All ws)

-- Closing a queue closes it, and keeps others closed.
abbrev pub IsClosed : List Dlq → ℕ → Type 0
IsClosed queues i = (get_or queues i no_queue).closed ≡ true

set-IsClosed : (i : ℕ) (queues : List Dlq) (d : Dlq) → d.closed ≡ true → IsClosed (set queues i d) i
set-IsClosed i [] d h = refl
set-IsClosed zero (q ∷ queues) d h = h
set-IsClosed (suc i) (q ∷ queues) d h = set-IsClosed i queues d h

dlq_close-closed : (d : Dlq) (w : Clients) → (dlq_close d w).0.closed ≡ true
unfolding dlq_close
dlq_close-closed d w = ground arith

close_queue-IsClosed :
    (i j : ℕ) (held : List Dlq × Clients)
    → (i ≡ j) ⊎ IsClosed held.0 j
    → IsClosed (close_queue i held).0 j
close_queue-IsClosed i j (queues, w) h = elim (ℕ_discrete i j) [
  | yes same ↦
      subst (IsClosed (close_queue i (queues, w)).0) same
        (set-IsClosed i queues _ (dlq_close-closed (get_or queues i no_queue) w))
  | no differ ↦ elim h [
    | inl same ↦ absurd (differ same)
    | inr closed ↦ ap (λ (d : Dlq). d.closed) (get_or-set_ne queues i j _ no_queue differ) ∙ closed
  ]
]

close_queues-keeps :
    (is : List ℕ) (j : ℕ) (held : List Dlq × Clients)
    → IsClosed held.0 j
    → IsClosed (close_queues is held).0 j
close_queues-keeps [] j held h = h
close_queues-keeps (i ∷ is) j held h =
    close_queues-keeps is j (close_queue i held) (close_queue-IsClosed i j held (inr h))

close_queues-All :
    (is : List ℕ) (held : List Dlq × Clients) → All (IsClosed (close_queues is held).0) is
close_queues-All [] held = tt
close_queues-All (i ∷ is) held = (
  close_queues-keeps is i (close_queue i held) (close_queue-IsClosed i i held (inl refl)),
  close_queues-All is (close_queue i held),
)

-- An engine that is stopped: no component runs, and the sync readers, the sync writers and the queues
-- that the engine keeps are closed.
pub record AllStopped (e : Engine) : Type 0 where
  pub sources : All (λ (s : Source). s.life.running ≡ false) e.sources
  pub discoveries : All (λ (td : TopicDiscovery). td.loop.running ≡ false) e.topic_discoveries
  pub heartbeats : All (λ (h : HeartbeatTask). h.emitter.running ≡ false) e.heartbeats
  pub checkpoints : All (λ (c : CheckpointEmitter). c.life.running ≡ false) e.checkpoints
  pub readers : All (λ (r : SyncReader). r.closed ≡ true) e.sync_readers
  pub writers : All (λ (w : SyncWriter). w.closed ≡ true) e.sync_writers
  pub queues : All (IsClosed e.queues) e.dlqs

pub shutdown-AllStopped : (e : Engine) → AllStopped (shutdown e) × ((shutdown e).running ≡ false)
unfolding shutdown
shutdown-AllStopped e = (
  record {
    sources =
        stop_all-All (λ (s : Source). s.life.running ≡ false) stop_source stop_source-idle e.sources
          _;
    discoveries =
        stop_all-All (λ (td : TopicDiscovery). td.loop.running ≡ false) stop_discovery
          (λ td w. discovery_stop-idle td.loop) e.topic_discoveries _;
    heartbeats =
        stop_all-All (λ (h : HeartbeatTask). h.emitter.running ≡ false) stop_heartbeat
          (λ h w. heartbeat_stop-idle h.emitter w) e.heartbeats _;
    checkpoints =
        stop_all-All (λ (c : CheckpointEmitter). c.life.running ≡ false) stop_checkpoint
          (λ c w. pair_stop-idle c.life w) e.checkpoints _;
    readers = close_readers-All e.sync_readers;
    writers = close_writers-All e.sync_writers;
    queues = close_queues-All e.dlqs _;
  },
  refl,
)
