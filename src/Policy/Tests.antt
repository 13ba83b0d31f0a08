-- ===== src/Policy/Tests.antt =====
-- internal/policy/replication.go at concrete names.
use gomm.Prelude.{◌≡◌, refl, true, [], none, some, codes, index, has_prefix, bytes_beq}
use gomm.Policy.{
  ReplicationPolicy, default, identity, new_policy, format_remote_topic, topic_source,
  upstream_topic, is_heartbeats_topic, heartbeats_topic, offset_syncs_topic, checkpoints_topic,
}
use gomm.Policy.Naming.{remote_topic_roundtrip}

abbrev dot : ReplicationPolicy
dot = default (codes ".")

names :
    (format_remote_topic dot (codes "us-west") (codes "orders") ≡ codes "us-west.orders")
    × (topic_source dot (codes "us-west.orders") ≡ codes "us-west")
    × (upstream_topic dot (codes "us-west.orders.v1") ≡ codes "orders.v1")
    × (upstream_topic dot (codes "orders") ≡ [])
    × (topic_source identity (codes "us-west.orders") ≡ [])
    × (checkpoints_topic dot (codes "us") ≡ codes "us.checkpoints.internal")
    × (offset_syncs_topic identity (codes "us") ≡ codes "mm2-offset-syncs.us.internal")
    × (is_heartbeats_topic dot (heartbeats_topic dot) ≡ true)
unfolding format_remote_topic topic_source upstream_topic checkpoints_topic offset_syncs_topic
    is_heartbeats_topic heartbeats_topic index has_prefix bytes_beq
names = (refl, refl, refl, refl, refl, refl, refl, refl)

policies :
    (new_policy (codes "default") [] ≡ some dot)
    × (new_policy [] (codes "-") ≡ some (default (codes "-")))
    × (new_policy (codes "identity") [] ≡ some identity)
    × (new_policy (codes "other") [] ≡ none)
unfolding new_policy bytes_beq
policies = (refl, refl, refl, refl)

-- An alias that holds the separator is cut short: what the theorem on the round trip rules out.
dotted_alias : topic_source dot (format_remote_topic dot (codes "us.west") (codes "t")) ≡ codes "us"
unfolding format_remote_topic topic_source index has_prefix
dotted_alias = refl

remote_topic_roundtrip_example :
    (topic_source dot (format_remote_topic dot (codes "us") (codes "a.b")) ≡ codes "us")
    × (upstream_topic dot (format_remote_topic dot (codes "us") (codes "a.b")) ≡ codes "a.b")
remote_topic_roundtrip_example =
    remote_topic_roundtrip (codes ".") (codes "us") (codes "a.b") (λ e. cc)
      (unfold index has_prefix in refl)
