-- ===== src/Offset/Writer.antt =====
-- internal/offset/sync_writer.go: Write and Close. The producer is the Kafka client's: the answer
-- to a produce call is an argument, and the state keeps the records handed to it and how often it
-- was closed. NewSyncWriter only sets up that client.
pub mod Closing
mod Tests
use gomm.Prelude.{ℕ, ◌+◌, Bool, true, List, [], ◌∷◌, ◌++◌, Option, none, some, if◌then◌else◌, Bytes}
use gomm.Types.{OffsetSync}
use gomm.Types.Codec.{sync_key, sync_value}

pub record Record : Type 0 where
  pub topic : Bytes
  pub key : Bytes
  pub value : Bytes

pub record SyncWriter : Type 0 where
  pub sync_topic : Bytes
  pub closed : Bool
  pub produced : List Record
  pub producer_closes : ℕ

pub data WriteError : Type 0 where
  writer_closed : WriteError
  produce_failed : WriteError

-- `acknowledged` is the answer that the producer's callback would bring for this record.
unfoldable pub write : SyncWriter → OffsetSync → Bool → SyncWriter × Option WriteError
write w sync acknowledged = if w.closed then (w, some writer_closed) else (
  record w {
    produced =
        w.produced
        ++ (record { topic = w.sync_topic; key = sync_key sync; value = sync_value sync } ∷ []);
  },
  if acknowledged then none else some produce_failed,
)

unfoldable pub close : SyncWriter → SyncWriter
close w =
    if w.closed then w else record w { closed = true; producer_closes = w.producer_closes + 1 }
