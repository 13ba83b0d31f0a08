-- ===== src/Config/Validation.antt =====
-- internal/config/config.go: what a configuration that Validate accepts is like.
use gomm.Prelude.{
  ℕ, suc, ◌≡◌, ◌≢◌, ◌↔◌, refl, true, false, List, [], ◌∷◌, Option, none, some, arith, All, length,
  if◌then◌else◌, Bytes, bytes_beq_iff, bytes_eq, nat_beq, lookup,
}
use gomm.Filter.{RegexpEngine, TopicFilter, compile_patterns, new_topic_filter}
use gomm.Config.{
  ReplicationConfig, Config, ConfigError, no_clusters, no_replications, valid_compression,
  is_defined, check_clusters, check_flow, check_flows, validate,
}

-- An error is passed on; without one the check goes on.
abbrev or_else : Option ConfigError → Option ConfigError → Option ConfigError
or_else err next = elim err [ some e ↦ some e | none ↦ next ]

or_else-none_iff :
    (err next : Option ConfigError) → (or_else err next ≡ none) ↔ ((err ≡ none) × (next ≡ none))
or_else-none_iff none next = (λ e. (refl, e), λ (a, b). b)
or_else-none_iff (some x) next = (λ e. cc e, λ (a, b). cc a)

check_clusters-none_iff :
    (clusters : List (Bytes × List Bytes))
    → (check_clusters clusters ≡ none) ↔ All (λ (c : Bytes × List Bytes). c.1 ≢ []) clusters
unfolding check_clusters
check_clusters-none_iff [] = (λ e. tt, λ h. refl)
check_clusters-none_iff ((name, []) ∷ more) = (λ e. cc e, λ (h, k). absurd (h refl))
check_clusters-none_iff ((name, server ∷ servers) ∷ more) =
    let (there, back) = check_clusters-none_iff more in
    (λ e. ((λ d. cc d), there e), λ (h, k). back k)

nonzero : (n : ℕ) → nat_beq (suc n) 0 ≡ false
nonzero n = ground arith

defined_some : {A : Type 0} (o : Option A) → is_defined o ≡ true → (a : A) × (o ≡ some a)
defined_some none h = absurd (cc h)
defined_some (some a) h = (a, refl)

module _ (engine : RegexpEngine) where
  -- What Validate asks of an enabled flow: its clusters are defined and differ, exactly_once is not
  -- asked for, the patterns of its topic filter compile, and its compression is known.
  abbrev pub IsValidFlow : List (Bytes × List Bytes) → ReplicationConfig → Type 0
  IsValidFlow clusters r =
      (is_defined (lookup r.source clusters) ≡ true)
      × (is_defined (lookup r.target clusters) ≡ true)
      × (r.source ≢ r.target)
      × (r.exactly_once ≡ false)
      × (is_defined (compile_patterns engine r.topic_filter.whitelist) ≡ true)
      × (is_defined (compile_patterns engine r.topic_filter.blacklist) ≡ true)
      × (valid_compression r.compression ≡ true)

  check_flow-none_iff :
      (clusters : List (Bytes × List Bytes)) (i : ℕ) (r : ReplicationConfig)
      → (check_flow engine clusters i r ≡ none) ↔ (r.enabled ≡ true → IsValidFlow clusters r)
  unfolding check_flow
  check_flow-none_iff clusters i r = ground (arith, bytes_beq_iff r.source r.target)

  check_flows-none_iff :
      (clusters : List (Bytes × List Bytes)) (i : ℕ) (rs : List ReplicationConfig)
      → (check_flows engine clusters i rs ≡ none)
        ↔ All (λ r. r.enabled ≡ true → IsValidFlow clusters r) rs
  unfolding check_flows
  check_flows-none_iff clusters i [] = (λ e. tt, λ h. refl)
  check_flows-none_iff clusters i (r ∷ rs) =
      let (split, join) =
        or_else-none_iff (check_flow engine clusters i r)
          (check_flows engine clusters (suc i) rs) in
      let (here, here_back) = check_flow-none_iff clusters i r in
      let (there, there_back) = check_flows-none_iff clusters (suc i) rs in
      (λ e. (here (split e).0, there (split e).1), λ (h, k). join (here_back h, there_back k))

  -- Validate returns nil exactly for a configuration that has clusters, each with a bootstrap server,
  -- and has flows, of which each that is enabled goes from one defined cluster to another, does not
  -- ask for exactly_once, has a topic filter whose patterns compile, and a known compression.
  pub validate-none_iff :
      (cfg : Config)
      → (validate engine cfg ≡ none) ↔ (
          (cfg.clusters ≢ [])
          × All (λ (c : Bytes × List Bytes). c.1 ≢ []) cfg.clusters
          × (cfg.replications ≢ [])
          × All (λ r. r.enabled ≡ true → IsValidFlow cfg.clusters r) cfg.replications)
  unfolding validate
  validate-none_iff cfg = go cfg.clusters cfg.replications
    where
      go :
          (clusters : List (Bytes × List Bytes)) (flows : List ReplicationConfig)
          → ((if nat_beq (length clusters) 0
                then some no_clusters
                else or_else (check_clusters clusters) (
                    if nat_beq (length flows) 0
                    then some no_replications
                    else check_flows engine clusters 0 flows))
              ≡ none)
            ↔ ((clusters ≢ [])
                × All (λ (c : Bytes × List Bytes). c.1 ≢ []) clusters
                × (flows ≢ [])
                × All (λ r. r.enabled ≡ true → IsValidFlow clusters r) flows)
      go [] flows = (λ e. cc e, λ (h, _, _, _). absurd (h refl))
      go (c ∷ cs) [] =
          let (split, join) = or_else-none_iff (check_clusters (c ∷ cs)) (some no_replications) in
          rw (nonzero (length cs)) (λ e. absurd (cc (split e).1), λ (_, _, h, _). absurd (h refl))
      go (c ∷ cs) (r ∷ rs) =
          let (split, join) =
            or_else-none_iff (check_clusters (c ∷ cs)) (check_flows engine (c ∷ cs) 0 (r ∷ rs)) in
          let (served, served_back) = check_clusters-none_iff (c ∷ cs) in
          let (valid, valid_back) = check_flows-none_iff (c ∷ cs) 0 (r ∷ rs) in
          rw (nonzero (length cs), nonzero (length rs))
            (
              λ e. ((λ d. cc d), served (split e).0, (λ d. cc d), valid (split e).1),
              λ (_, h, _, k). join (served_back h, valid_back k),
            )

  -- The topic filter of a flow that Validate accepts can be built.
  pub valid_flow-new_topic_filter :
      (clusters : List (Bytes × List Bytes)) (r : ReplicationConfig)
      → IsValidFlow clusters r
      → (tf : TopicFilter engine) × (new_topic_filter engine r.topic_filter.whitelist
            r.topic_filter.blacklist
          ≡ some tf)
  unfolding new_topic_filter
  valid_flow-new_topic_filter clusters r (_, _, _, _, white, black, _) =
      let (wl, w) = defined_some (compile_patterns engine r.topic_filter.whitelist) white in
      let (bl, b) = defined_some (compile_patterns engine r.topic_filter.blacklist) black in
      (record { whitelist = wl; blacklist = bl }, rw (w, b))
