-- ===== src/Config/Defaults.antt =====
-- internal/config/config.go: what setDefaults leaves, and that it does nothing the second time.
use gomm.Prelude.{ℕ, ◌≡◌, ◌≢◌, refl, Bool, List, [], ◌∷◌, Option, none, some, arith, All, Bytes}
use gomm.Config.{
  ReplicationConfig, Config, or_number, or_text, or_true, set_flow_defaults, set_all_defaults,
  set_defaults,
}

or_number_idem : (def n : ℕ) → or_number def (or_number def n) ≡ or_number def n
unfolding or_number
or_number_idem def n = ground arith

or_text_idem : (def s : Bytes) → or_text def (or_text def s) ≡ or_text def s
unfolding or_text
or_text_idem [] [] = refl
or_text_idem (c ∷ d) [] = refl
or_text_idem def (c ∷ s) = refl

or_true_idem : (o : Option Bool) → or_true (or_true o) ≡ or_true o
unfolding or_true
or_true_idem none = refl
or_true_idem (some b) = refl

flow_defaults_idem :
    (r : ReplicationConfig) → set_flow_defaults (set_flow_defaults r) ≡ set_flow_defaults r
unfolding set_flow_defaults
flow_defaults_idem r = simp (or_number_idem, or_text_idem, or_true_idem)

all_defaults_idem :
    (rs : List ReplicationConfig) → set_all_defaults (set_all_defaults rs) ≡ set_all_defaults rs
unfolding set_all_defaults
all_defaults_idem [] = refl
all_defaults_idem (r ∷ rs) = simp (flow_defaults_idem r, all_defaults_idem rs)

-- Defaults are set once: setDefaults changes nothing in a configuration that it has gone through.
pub set_defaults_idem : (cfg : Config) → set_defaults (set_defaults cfg) ≡ set_defaults cfg
unfolding set_defaults
set_defaults_idem cfg = simp (all_defaults_idem, or_text_idem)

abbrev pub numbers : ReplicationConfig → List ℕ
numbers r =
    r.replication_factor ∷ r.refresh_topics_interval ∷ r.refresh_groups_interval
    ∷ r.sync_topic_configs_interval ∷ r.sync_topic_acls_interval ∷ r.heartbeat_interval
    ∷ r.checkpoint_interval ∷ r.consumer_poll_timeout ∷ r.producer_batch_size ∷ r.producer_linger_ms
    ∷ r.max_poll_records ∷ r.workers_per_partition ∷ r.fetch_max_partition_bytes
    ∷ r.ring_buffer_capacity ∷ r.offset_commit_interval ∷ r.offset_commit_batch ∷ r.max_retries
    ∷ r.retry_backoff_base ∷ r.retry_backoff_max ∷ r.shutdown_timeout ∷ r.offset_sync_interval ∷ []

-- No number of a flow is zero, no text that has a default is empty, and no pointer is nil.
pub record IsComplete (r : ReplicationConfig) : Type 0 where
  pub numbers_set : All (λ n. n ≢ 0) (numbers r)
  pub texts_set : All (λ s. s ≢ []) (r.separator ∷ r.replication_policy ∷ r.compression ∷ [])
  pub flags_set :
      All
        (λ o. o ≢ none)
        (r.emit_heartbeats ∷ r.emit_checkpoints ∷ r.emit_offset_syncs ∷ r.sync_topic_configs ∷ [])

or_text_set : (c : ℕ) (d s : Bytes) → or_text (c ∷ d) s ≢ []
unfolding or_text
or_text_set c d [] = λ e. cc e
or_text_set c d (x ∷ s) = λ e. cc e

or_true_set : (o : Option Bool) → or_true o ≢ none
unfolding or_true
or_true_set none = λ e. cc e
or_true_set (some b) = λ e. cc e

-- After setDefaults every flow is complete: no field that has a default is still unset.
pub set_flow_defaults-IsComplete : (r : ReplicationConfig) → IsComplete (set_flow_defaults r)
unfolding set_flow_defaults or_number
set_flow_defaults-IsComplete r = record {
  numbers_set = ground arith;
  texts_set = (
    or_text_set _ _ r.separator,
    (or_text_set _ _ r.replication_policy, (or_text_set _ _ r.compression, tt)),
  );
  flags_set = (
    or_true_set r.emit_heartbeats,
    (
      or_true_set r.emit_checkpoints,
      (or_true_set r.emit_offset_syncs, (or_true_set r.sync_topic_configs, tt)),
    ),
  );
}
