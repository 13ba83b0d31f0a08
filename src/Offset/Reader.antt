-- ===== src/Offset/Reader.antt =====
-- internal/offset/sync_reader.go: ReadToEnd and Follow. The consumer is the Kafka client's: what its
-- polls return, and the state of the context after each, are the argument. NewSyncReader and Close
-- only set up and close that client.
pub mod Replay
pub mod Writing
mod Tests
use gomm.Prelude.{
  ℕ, Bool, ◌&&◌, List, [], ◌∷◌, Option, none, some, nat_beq, length, if◌then◌else◌, Bytes,
}
use gomm.Types.Codec.{
  Outcome, ok, key_too_short, topic_length_mismatch, value_too_short, panic,
  deserialize_offset_sync,
}
use gomm.Offset.Store.{SyncStore, mark_read_to_end, handle_sync}

-- The key and the value of a fetched record.
abbrev pub KeyValue : Type 0
KeyValue = Bytes × Bytes

-- ctx.Err() after a poll.
pub data ContextState : Type 0 where
  live deadline_exceeded cancelled : ContextState

-- One PollFetches: the context after it, the number of fetch errors, the records.
pub record Poll : Type 0 where
  pub context : ContextState
  pub errors : ℕ
  pub records : List KeyValue

-- The loop over one poll's records: a malformed record is skipped. `none` is the panic of
-- DeserializeOffsetSync.
unfoldable pub apply_records : SyncStore → List KeyValue → Option SyncStore
apply_records s [] = some s
apply_records s ((key, value) ∷ rest) = elim (deserialize_offset_sync key value) [
  | ok sync ↦ apply_records (handle_sync s sync) rest
  | key_too_short ↦ apply_records s rest
  | topic_length_mismatch ↦ apply_records s rest
  | value_too_short ↦ apply_records s rest
  | panic ↦ none
]

-- How ReadToEnd ends: `pending` if the polls at hand do not end it.
pub data ReadEnd : Type 0 where
  caught_up timed_out stopped crashed pending : ReadEnd

unfoldable pub read_to_end : SyncStore → List Poll → SyncStore × ReadEnd
read_to_end s [] = (s, pending)
read_to_end s (p ∷ polls) = elim (p.context) [
  | deadline_exceeded ↦ (mark_read_to_end s, timed_out)
  | cancelled ↦ (s, stopped)
  | live ↦ elim (apply_records s p.records) [
    | none ↦ (s, crashed)
    | some s' ↦
        let rest = read_to_end s' polls in
        if nat_beq (length p.records) 0 && nat_beq p.errors 0
        then (mark_read_to_end s', caught_up)
        else rest
  ]
]

-- Follow, which any end of the context stops.
unfoldable pub follow : SyncStore → List Poll → SyncStore × ReadEnd
follow s [] = (s, pending)
follow s (p ∷ polls) = elim (p.context) [
  | deadline_exceeded ↦ (s, stopped)
  | cancelled ↦ (s, stopped)
  | live ↦ elim (apply_records s p.records) [ none ↦ (s, crashed) | some s' ↦ follow s' polls ]
]
