-- ===== src/Mirror/Emitter.antt =====
-- internal/mirror/checkpoint.go: one round of the checkpoint emitter. The groups, and the committed
-- offsets of each, are arguments; `none` is a list that could not be had. The serialized records that
-- are produced are listed in order.
pub mod Safety
mod Tests
use gomm.Prelude.{
  ℕ, Bool, true, false, not, ◌&&◌, List, [], ◌∷◌, ◌++◌, Option, none, some, if◌then◌else◌, Int64,
  lt64, Bytes,
}
use gomm.Types.{TopicPartition, Checkpoint}
use gomm.Filter.{RegexpEngine, TopicFilter, GroupFilter, topic_passes, group_passes}
use gomm.Policy.{ReplicationPolicy, checkpoints_topic}
use gomm.Offset.Store.{SyncStore, is_ready, translate_downstream}
use gomm.Types.Codec.{checkpoint_key, checkpoint_value}
use gomm.Offset.Writer.{Record}

-- A group's committed offset in a partition.
abbrev pub GroupOffset : Type 0
GroupOffset = TopicPartition × Int64

module _ (engine : RegexpEngine) where
  pub record CheckpointEmitter : Type 0 where
    pub source_alias : Bytes
    pub policy : ReplicationPolicy
    pub group_filter : GroupFilter engine
    pub topic_filter : TopicFilter engine
    pub sync_store : SyncStore

  abbrev pub checkpoint_of : Bytes → TopicPartition → Int64 → Int64 → Checkpoint
  checkpoint_of group tp upstream downstream = record {
    consumer_group_id = group;
    checkpoint_partition = tp;
    checkpoint_upstream = upstream;
    checkpoint_downstream = downstream;
    metadata = [];
  }

  -- The function that runs on each committed offset: the checkpoints that it emits.
  unfoldable pub offset_checkpoints : CheckpointEmitter → Bytes → GroupOffset → List Checkpoint
  offset_checkpoints c group (tp, at) =
      let (downstream, available) = translate_downstream c.sync_store tp at in
      if not (topic_passes engine c.topic_filter tp.topic)
      then []
      else if not available
      then []
      else if lt64 downstream 0
      then []
      else checkpoint_of group tp at downstream ∷ []

  unfoldable pub group_checkpoints : CheckpointEmitter → Bytes → List GroupOffset → List Checkpoint
  group_checkpoints c group [] = []
  group_checkpoints c group (o ∷ more) =
      offset_checkpoints c group o ++ group_checkpoints c group more

  -- The loop over the groups.
  unfoldable pub groups_checkpoints :
      CheckpointEmitter → List (Bytes × Option (List GroupOffset)) → List Checkpoint
  groups_checkpoints c [] = []
  groups_checkpoints c ((group, none) ∷ more) = groups_checkpoints c more
  groups_checkpoints c ((group, some offsets) ∷ more) =
      let rest = groups_checkpoints c more in
      if group_passes engine c.group_filter group
      then group_checkpoints c group offsets ++ rest
      else rest

  -- emitCheckpoints: the checkpoints, and whether it returns nil.
  unfoldable pub emit_checkpoints :
      CheckpointEmitter → Option (List (Bytes × Option (List GroupOffset))) → List Checkpoint × Bool
  emit_checkpoints c none = if is_ready c.sync_store then ([], false) else ([], true)
  emit_checkpoints c (some groups) =
      if is_ready c.sync_store then (groups_checkpoints c groups, true) else ([], true)

  -- The record that is produced for a checkpoint.
  unfoldable pub checkpoint_record : CheckpointEmitter → Checkpoint → Record
  checkpoint_record c cp = record {
    topic = checkpoints_topic c.policy c.source_alias;
    key = checkpoint_key cp;
    value = checkpoint_value cp;
  }
