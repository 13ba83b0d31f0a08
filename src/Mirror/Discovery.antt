-- ===== src/Mirror/Discovery.antt =====
-- internal/mirror/topic_discovery.go: one round of topic discovery, and internal/mirror/source.go's
-- UpdateTopics, which it ends with. A topic is its name and its number of partitions, below 2^31. The
-- calls that change the target are listed in order; `creates` says which CreateTopic succeeds.
pub mod Coverage
pub mod Subscriptions
mod Tests
use gomm.Prelude.{
  ℕ, ◌+◌, Bool, true, false, not, ◌&&◌, ◌||◌, List, [], ◌∷◌, ◌++◌, Option, none, some, ltb, nat_beq,
  if◌then◌else◌, Bytes, bytes_beq, bytes_eq, lookup, insert, length, ◌==◌,
}
use gomm.Filter.{RegexpEngine, TopicFilter, topic_passes}
use gomm.Policy.{
  ReplicationPolicy, format_remote_topic, topic_source, is_internal_topic, is_heartbeats_topic,
}

abbrev pub Topics : Type 0
Topics = List (Bytes × ℕ)

-- The calls that change the target cluster; `sync_configs` is SyncTopicConfigs, from a source topic
-- to a target topic.
pub data AdminCall : Type 0 where
  create_topic : Bytes → ℕ → AdminCall
  ensure_partitions : Bytes → ℕ → AdminCall
  sync_configs : Bytes → Bytes → AdminCall

module _ (engine : RegexpEngine) where
  pub record TopicDiscovery : Type 0 where
    pub source_alias : Bytes
    pub configs_synced : Bool
    pub topic_filter : TopicFilter engine
    pub policy : ReplicationPolicy

  unfoldable pub should_replicate : TopicDiscovery → Bytes → Bool
  should_replicate td topic =
      if is_internal_topic td.policy topic
      then false
      else if is_heartbeats_topic td.policy topic
      then false
      else if not (bytes_beq (topic_source td.policy topic) [])
      then false
      else topic_passes engine td.topic_filter topic

  abbrev pub remote : TopicDiscovery → Bytes → Bytes
  remote td topic = format_remote_topic td.policy td.source_alias topic

  abbrev pub configs_call : TopicDiscovery → Bytes → List AdminCall
  configs_call td topic =
      if td.configs_synced then sync_configs topic (remote td topic) ∷ [] else []

  -- The calls for one topic that is replicated, from what the target has of it. A topic that could
  -- not be created is passed over; a failed increase is only logged.
  unfoldable pub topic_calls :
      TopicDiscovery → (Bytes → Bool) → Bytes → ℕ → Option ℕ → List AdminCall
  topic_calls td creates topic partitions none =
      create_topic (remote td topic) partitions
      ∷ (if creates (remote td topic) then configs_call td topic else [])
  topic_calls td creates topic partitions (some held) =
      (if ltb held partitions then ensure_partitions (remote td topic) partitions ∷ [] else [])
      ++ configs_call td topic

  -- The loop of refresh over the source's topics: the calls in order, and the names to subscribe to.
  unfoldable pub refresh_loop :
      TopicDiscovery → (Bytes → Bool) → Topics → Topics → List AdminCall × List Bytes
  refresh_loop td creates target [] = ([], [])
  refresh_loop td creates target ((topic, partitions) ∷ more) =
      let (calls, names) = refresh_loop td creates target more in
      if should_replicate td topic
      then (
        topic_calls td creates topic partitions (lookup (remote td topic) target) ++ calls,
        topic ∷ names,
      )
      else (calls, names)

  -- refresh; `none` is a list that could not be had, and nothing is done.
  unfoldable pub refresh :
      TopicDiscovery → (Bytes → Bool) → Option Topics → Option Topics → List AdminCall × List Bytes
  refresh td creates none target = ([], [])
  refresh td creates (some source) none = ([], [])
  refresh td creates (some source) (some target) = refresh_loop td creates target source

-- The subscription of the source replicator: whether it has a consumer, the keys of
-- subscribedTopics, and what AddConsumeTopics was given.
pub record Subscription : Type 0 where
  pub has_consumer : Bool
  pub subscribed : List Bytes
  pub consumed : List Bytes

abbrev pub has_name : Bytes → List Bytes → Bool
has_name topic [] = false
has_name topic (t ∷ ts) = bytes_beq topic t || has_name topic ts

-- The loop of UpdateTopics: the new map and the new topics.
unfoldable pub new_topics : List Bytes → List Bytes → List Bytes × List Bytes
new_topics subscribed [] = (subscribed, [])
new_topics subscribed (t ∷ ts) =
    let known = new_topics subscribed ts in
    let (all, fresh) = new_topics (t ∷ subscribed) ts in
    if has_name t subscribed then known else (all, t ∷ fresh)

unfoldable pub update_topics : Subscription → List Bytes → Subscription
update_topics s topics =
    let (all, fresh) = new_topics s.subscribed topics in
    if s.has_consumer then record s { subscribed = all; consumed = s.consumed ++ fresh } else s
