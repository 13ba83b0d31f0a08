-- ===== src/Policy.antt =====
-- internal/policy/replication.go: how topics are named on the target cluster. The interface
-- ReplicationPolicy has two implementations, which are the two constructors.
pub mod Naming
mod Tests
use gomm.Prelude.{
  ℕ, ◌+◌, Bool, false, ◌&&◌, ◌||◌, [], ◌∷◌, ◌++◌, Option, none, some, length, take, drop,
  if◌then◌else◌, Bytes, bytes_beq, codes, has_prefix, has_suffix, index,
}

-- DefaultPolicy, with its separator, and IdentityPolicy.
pub data ReplicationPolicy : Type 0 where
  default : Bytes → ReplicationPolicy
  identity : ReplicationPolicy

unfoldable pub new_default_policy : Bytes → ReplicationPolicy
new_default_policy separator = default (if bytes_beq separator [] then codes "." else separator)

-- NewPolicy; `none` is the error of an unknown name.
unfoldable pub new_policy : Bytes → Bytes → Option ReplicationPolicy
unfolding new_default_policy
new_policy name separator =
    if bytes_beq name (codes "default") || bytes_beq name []
    then some (new_default_policy separator)
    else if bytes_beq name (codes "identity")
    then some identity
    else none

unfoldable pub format_remote_topic : ReplicationPolicy → Bytes → Bytes → Bytes
format_remote_topic (default separator) source topic = source ++ (separator ++ topic)
format_remote_topic identity source topic = topic

-- topic[:idx], where there is a separator.
abbrev before : Bytes → Option ℕ → Bytes
before topic none = []
before topic (some idx) = take idx topic

unfoldable pub topic_source : ReplicationPolicy → Bytes → Bytes
topic_source (default separator) topic = before topic (index separator topic)
topic_source identity topic = []

unfoldable pub upstream_topic : ReplicationPolicy → Bytes → Bytes
unfolding topic_source
upstream_topic (default separator) topic =
    let source = topic_source (default separator) topic in
    if bytes_beq source [] then [] else drop (length source + length separator) topic
upstream_topic identity topic = topic

-- IsInternalTopic of both policies; IdentityPolicy's separator is a dot.
abbrev internal_with : Bytes → Bytes → Bool
internal_with separator topic =
    (has_prefix (codes "mm2") topic && has_suffix (separator ++ codes "internal") topic)
    || has_suffix (separator ++ (codes "checkpoints" ++ (separator ++ codes "internal"))) topic

unfoldable pub is_internal_topic : ReplicationPolicy → Bytes → Bool
is_internal_topic (default separator) topic = internal_with separator topic
is_internal_topic identity topic = internal_with (codes ".") topic

unfoldable pub is_heartbeats_topic : ReplicationPolicy → Bytes → Bool
is_heartbeats_topic (default separator) topic = bytes_beq topic (codes "heartbeats")
is_heartbeats_topic identity topic = bytes_beq topic (codes "heartbeats")

unfoldable pub offset_syncs_topic : ReplicationPolicy → Bytes → Bytes
offset_syncs_topic (default separator) cluster =
    codes "mm2-offset-syncs" ++ (separator ++ (cluster ++ (separator ++ codes "internal")))
offset_syncs_topic identity cluster = codes "mm2-offset-syncs." ++ (cluster ++ codes ".internal")

unfoldable pub checkpoints_topic : ReplicationPolicy → Bytes → Bytes
checkpoints_topic (default separator) cluster =
    cluster ++ (separator ++ (codes "checkpoints" ++ (separator ++ codes "internal")))
checkpoints_topic identity cluster = cluster ++ codes ".checkpoints.internal"

unfoldable pub heartbeats_topic : ReplicationPolicy → Bytes
heartbeats_topic (default separator) = codes "heartbeats"
heartbeats_topic identity = codes "heartbeats"
