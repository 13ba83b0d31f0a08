-- ===== src/Mirror/Emitter/Tests.antt =====
-- internal/mirror/checkpoint.go: a round with one group.
use mathlib.Core.List.{Memᴰ}
use gomm.Prelude.{
  ◌*◌, ◌≤◌, refl, List, [], ◌∷◌, Option, none, some, arith, if◌then◌else◌, Bytes, codes, bytes_beq,
  has_prefix, lookup, insert,
}
use gomm.Types.{TopicPartition, OffsetSync, Checkpoint}
use gomm.Filter.{RegexpEngine, topic_passes, group_passes, passes_lists, matches_any}
use gomm.Policy.{default}
use gomm.Offset.Store.{
  SyncStore, new_sync_store, mark_read_to_end, is_ready, fill, updated_array, handle_sync,
  find_translation, translate_downstream,
}
use gomm.Offset.Store.Contents.{Reached, fresh, marked, handled}
use gomm.Mirror.Emitter.{
  GroupOffset, CheckpointEmitter, checkpoint_of, offset_checkpoints, group_checkpoints,
  groups_checkpoints, emit_checkpoints,
}
use gomm.Mirror.Emitter.Safety.{emit_checkpoints_safe}

abbrev prefixes : RegexpEngine
prefixes = record {
  Regexp = Bytes;
  compile = λ p. if bytes_beq p (codes "(") then none else some p;
  match_string = has_prefix;
}

abbrev tp : TopicPartition
tp = record { topic = codes "t"; partition = 0 }

abbrev sync : OffsetSync
sync = record { topic_partition = tp; upstream_offset = 100; downstream_offset = 200 }

abbrev store : SyncStore
store = handle_sync (mark_read_to_end new_sync_store) sync

abbrev emitter : CheckpointEmitter prefixes
emitter = record {
  source_alias = codes "us";
  policy = default (codes ".");
  group_filter = record { whitelist = []; blacklist = [] };
  topic_filter = record { whitelist = []; blacklist = [] };
  sync_store = store;
}

abbrev listed : Option (List (Bytes × Option (List GroupOffset)))
listed = some ((codes "g", some ((tp, 105) ∷ [])) ∷ (codes "h", none) ∷ [])

abbrev emitted : Checkpoint
emitted = checkpoint_of prefixes (codes "g") tp 105 201

store-Reached : Reached (sync ∷ []) store
store-Reached = handled (marked fresh) sync (omega arith)

emitted_listed : Memᴰ emitted (emit_checkpoints prefixes emitter listed).0
unfolding emit_checkpoints groups_checkpoints group_checkpoints offset_checkpoints is_ready
    handle_sync mark_read_to_end new_sync_store topic_passes group_passes passes_lists matches_any
    has_prefix translate_downstream find_translation updated_array fill lookup insert bytes_beq
emitted_listed = Memᴰ.head refl

emit_checkpoints_safe_example : 201 ≤ 2 * 105
emit_checkpoints_safe_example =
    emit_checkpoints_safe prefixes emitter (λ t n. 2 * n) (λ t i j h. omega arith) (sync ∷ [])
      listed emitted store-Reached ((λ e. (omega arith, refl)), tt) emitted_listed (omega arith)
      (omega arith)
