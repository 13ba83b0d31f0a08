-- ===== src/Engine/CatchUp/Filters.antt =====
-- internal/mirror/engine.go with topic_discovery.go: the catch-up phase does not ask shouldReplicate.
use mathlib.Core.Path.{subst}
use mathlib.Core.List.{Memᴰ}
use gomm.Prelude.{
  ℕ, ◌≡◌, ◌≢◌, refl, sym, ap, ◌∙◌, true, false, List, [], ◌∷◌, ◌++◌, Option, none, some, arith,
  length, Int64, Bytes, has_prefix, bytes_beq_iff,
}
use gomm.Filter.{RegexpEngine}
use gomm.Policy.{ReplicationPolicy, default, new_policy, format_remote_topic, topic_source}
use gomm.Policy.Naming.{topic_source-prefixed}
use gomm.Config.{ReplicationConfig}
use gomm.Mirror.Parallel.Lags.{LagResult, lag_found}
use gomm.Mirror.Discovery.{TopicDiscovery, should_replicate}
use gomm.Engine.CatchUp.{
  Range, skips_topic, high_lag, lag_of, add_range, partition_lags, partitions_or_zero,
  ensure_target, catch_up, TopicState, topic_steps,
}

not_nil : {A : Type 0} {x : A} → Memᴰ x [] → ⊥
not_nil m = elim m [ ]

-- A partition whose lag could be had and is high is among those that are caught up.
partition_lags-Mem :
    (lags : ℕ → LagResult (Int64 × Int64)) (ps : List ℕ) (p : ℕ) (range : Int64 × Int64)
    → Memᴰ p ps
    → lag_of (lags p) ≡ some range
    → Memᴰ (p, range) (partition_lags lags ps)
unfolding partition_lags
partition_lags-Mem lags [] p range m found = elim m [ ]
partition_lags-Mem lags (q ∷ ps) p range (Memᴰ.head e) found =
    subst (λ lag. Memᴰ (p, range) (add_range q lag (partition_lags lags ps)))
      (sym (ap (λ n. lag_of (lags n)) (sym e) ∙ found)) (Memᴰ.head (ap (λ n. (n, range)) e))
partition_lags-Mem lags (q ∷ ps) p range (Memᴰ.tail m) found =
    kept (lag_of (lags q)) (partition_lags-Mem lags ps p range m found)
  where
    kept :
        (lag : Option (Int64 × Int64))
        → Memᴰ (p, range) (partition_lags lags ps)
        → Memᴰ (p, range) (add_range q lag (partition_lags lags ps))
    kept none m = m
    kept (some other) m = Memᴰ.tail m

-- The steps of a topic that has a range to catch up.
topic_steps-behind :
    (r : ReplicationConfig) (t : TopicState) (policy : ReplicationPolicy) (ranges : List Range)
    → new_policy r.replication_policy r.separator ≡ some policy
    → skips_topic t.topic ≡ false
    → t.connects ≡ true
    → partition_lags t.lags (partitions_or_zero t.partitions) ≡ ranges
    → ranges ≢ []
    → topic_steps r true t
      ≡ ensure_target
          (format_remote_topic policy r.source t.topic)
          (length (partitions_or_zero t.partitions))
        ∷ catch_up t.topic ranges
        ∷ []
unfolding topic_steps
topic_steps-behind r t policy ranges known named connects behind some_range = ground arith

module _ (engine : RegexpEngine) where
  sourced_refused :
      (td : TopicDiscovery engine) (name : Bytes)
      → topic_source td.policy name ≢ []
      → should_replicate engine td name ≡ false
  unfolding should_replicate
  sourced_refused td name h = ground (arith, bytes_beq_iff (topic_source td.policy name) [])

  -- Take a flow with the default replication policy, and a topic discovery with the same policy. For a
  -- topic whose name is an alias, the separator and a name, that does not begin with the separator, an
  -- underscore or a dot, and of which a listed partition has a lag that could be had and is above
  -- 100000: shouldReplicate refuses the topic, whatever the filters are, and the catch-up phase, where
  -- both admin clients connect, asks for a copy of the copy on the target and then starts a catch-up of
  -- the topic whose ranges have that partition with its range.
  pub copy_caught_up :
      (td : TopicDiscovery engine) (r : ReplicationConfig) (separator alias name : Bytes)
      (t : TopicState) (p : ℕ) (committed hwm : Int64) (range : Int64 × Int64)
      → new_policy r.replication_policy r.separator ≡ some (default separator)
      → td.policy ≡ default separator
      → t.topic ≡ alias ++ (separator ++ name)
      → has_prefix separator (alias ++ (separator ++ name)) ≡ false
      → skips_topic t.topic ≡ false
      → t.connects ≡ true
      → Memᴰ p (partitions_or_zero t.partitions)
      → t.lags p ≡ lag_found (committed, hwm)
      → high_lag committed hwm ≡ some range
      → (should_replicate engine td t.topic ≡ false)
        × ((ranges : List Range) × Memᴰ (p, range) ranges
            × (topic_steps r true t
                ≡ ensure_target
                    (r.source ++ (separator ++ t.topic))
                    (length (partitions_or_zero t.partitions))
                  ∷ catch_up t.topic ranges
                  ∷ []))
  unfolding format_remote_topic
  copy_caught_up td r separator alias name t p committed hwm range known mine copy first named
        connects listed lag high =
      let ps = partitions_or_zero t.partitions in
      let m = partition_lags-Mem t.lags ps p range listed (ap lag_of lag ∙ high) in
      (
        sourced_refused td t.topic
            (rw (mine, copy) (topic_source-prefixed separator alias name first)),
        (
          partition_lags t.lags ps,
          m,
          topic_steps-behind r t (default separator) (partition_lags t.lags ps) known named connects
              refl (λ e. not_nil (subst (Memᴰ (p, range)) e m)),
        ),
      )
