-- ===== src/Offset/Reader/Tests.antt =====
-- internal/offset/sync_reader.go at concrete polls.
use gomm.Prelude.{◌≡◌, refl, false, List, [], ◌∷◌, some, arith, codes, lookup, bytes_beq}
use gomm.Types.{TopicPartition, OffsetSync, topic_partition_eq}
use gomm.Types.Codec.{deserialize_offset_sync}
use gomm.Offset.Store.{fill, new_sync_store, mark_read_to_end}
use gomm.Types.Codec.{sync_key, sync_value}
use gomm.Offset.Writer.{SyncWriter, write}
use gomm.Offset.Reader.Writing.{fetches, read_to_end-write_all}
use gomm.Offset.Reader.{
  KeyValue, Poll, live, deadline_exceeded, caught_up, timed_out, stopped, apply_records,
  read_to_end, follow,
}
use gomm.Offset.Reader.Replay.{feed, polls_of, restart-last_for}

abbrev tp : TopicPartition
tp = record { topic = codes "t"; partition = 7 }

abbrev early : OffsetSync
early = record { topic_partition = tp; upstream_offset = 10; downstream_offset = 20 }

abbrev late : OffsetSync
late = record { topic_partition = tp; upstream_offset = 11; downstream_offset = 21 }

abbrev chunks : List (OffsetSync × List OffsetSync)
chunks = (early, []) ∷ (late, []) ∷ []

abbrev deadline_poll : Poll
deadline_poll = record { context = deadline_exceeded; errors = 0; records = [] }

abbrev bad_poll : Poll
bad_poll = record { context = live; errors = 0; records = ([], []) ∷ [] }

-- A malformed record is skipped, and does not end the reading.
skips :
    (apply_records new_sync_store (([], []) ∷ []) ≡ some new_sync_store)
    × ((read_to_end new_sync_store (bad_poll ∷ deadline_poll ∷ [])).1 ≡ timed_out)
    × ((follow new_sync_store (bad_poll ∷ deadline_poll ∷ [])).1 ≡ stopped)
unfolding apply_records read_to_end follow deserialize_offset_sync
skips = (refl, refl, refl)

abbrev writer : SyncWriter
writer = record { sync_topic = codes "syncs"; closed = false; produced = []; producer_closes = 0 }

-- The two records come in two fetches.
abbrev batches : List (KeyValue × List KeyValue)
batches = ((sync_key early, sync_value early), []) ∷ ((sync_key late, sync_value late), []) ∷ []

read_to_end-write_all_example :
    read_to_end new_sync_store (fetches batches)
    ≡ (mark_read_to_end (feed new_sync_store (early ∷ late ∷ [])), caught_up)
unfolding write
read_to_end-write_all_example =
    read_to_end-write_all new_sync_store writer (early ∷ late ∷ []) batches refl refl (omega arith)
      refl

restart-last_for_example :
    lookup tp (read_to_end new_sync_store (polls_of chunks)).0.syncs ≡ some (fill late)
unfolding bytes_beq
restart-last_for_example = restart-last_for chunks tp (omega arith)
