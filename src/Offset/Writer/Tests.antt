-- ===== src/Offset/Writer/Tests.antt =====
-- internal/offset/sync_writer.go at a concrete session.
use gomm.Prelude.{◌≡◌, refl, true, false, [], none, some, codes}
use gomm.Types.{OffsetSync}
use gomm.Offset.Writer.{SyncWriter, produce_failed, write}

abbrev sync : OffsetSync
sync = record {
  topic_partition = record { topic = codes "t"; partition = 0 };
  upstream_offset = 1;
  downstream_offset = 2;
}

abbrev open_writer : SyncWriter
open_writer = record { sync_topic = codes "s"; closed = false; produced = []; producer_closes = 0 }

abbrev closed_writer : SyncWriter
closed_writer = record open_writer { closed = true; producer_closes = 1 }

write_answers :
    ((write open_writer sync true).1 ≡ none)
    × ((write open_writer sync false).1 ≡ some produce_failed)
unfolding write
write_answers = (refl, refl)
