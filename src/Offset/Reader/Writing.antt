-- ===== src/Offset/Reader/Writing.antt =====
-- internal/offset/sync_reader.go with sync_writer.go: what Write produces is what ReadToEnd handles.
use mathlib.Core.List.{map}
use gomm.Prelude.{
  ◌≡◌, refl, sym, ap, ◌∙◌, true, false, List, [], ◌∷◌, ◌++◌, append_assoc, append-nil, some, arith,
  All,
}
use gomm.Types.{OffsetSync}
use gomm.Types.Codec.{
  sync_key, sync_value, Outcome, ok, key_too_short, topic_length_mismatch, value_too_short, panic,
  deserialize_offset_sync,
}
use gomm.Types.RoundTrip.{deserialize-serialize}
use gomm.Offset.Store.{SyncStore, mark_read_to_end, handle_sync}
use gomm.Offset.Writer.{Record, SyncWriter, write}
use gomm.Offset.Reader.{KeyValue, Poll, live, caught_up, apply_records, read_to_end}
use gomm.Offset.Reader.Replay.{feed, IsStorable, idle_poll}

-- Write for each of some syncs, each acknowledged.
abbrev pub write_all : SyncWriter → List OffsetSync → SyncWriter
write_all w [] = w
write_all w (sync ∷ more) = write_all (write w sync true).0 more

abbrev pub key_values : List Record → List KeyValue
key_values records = map (λ (r : Record). (r.key, r.value)) records

-- A topic's records, fetched in non-empty batches until a fetch is empty.
abbrev pub fetches : List (KeyValue × List KeyValue) → List Poll
fetches [] = idle_poll ∷ []
fetches ((x, xs) ∷ more) = record { context = live; errors = 0; records = x ∷ xs } ∷ fetches more

abbrev pub fetched : List (KeyValue × List KeyValue) → List KeyValue
fetched [] = []
fetched ((x, xs) ∷ more) = (x ∷ xs) ++ fetched more

-- Records applied one list after the other.
abbrev InTurn : SyncStore → SyncStore → List KeyValue → List KeyValue → Type 0
InTurn s u xs ys = (m : SyncStore) × (apply_records s xs ≡ some m) × (apply_records m ys ≡ some u)

apply_records-InTurn :
    (s u : SyncStore) (xs ys : List KeyValue)
    → apply_records s (xs ++ ys) ≡ some u
    → InTurn s u xs ys
unfolding apply_records
apply_records-InTurn s u [] ys h = (s, refl, h)
apply_records-InTurn s u ((k, v) ∷ xs) ys h =
    by_outcome (deserialize_offset_sync k v) refl (λ t. apply_records-InTurn t u xs ys)
  where
    by_outcome :
        (o : Outcome OffsetSync)
        → deserialize_offset_sync k v ≡ o
        → ((t : SyncStore) → apply_records t (xs ++ ys) ≡ some u → InTurn t u xs ys)
        → InTurn s u ((k, v) ∷ xs) ys
    by_outcome (ok sync) e rest =
        rw (e, apply_records) (rest (handle_sync s sync) (rw (e, apply_records) at h))
    by_outcome key_too_short e rest = rw (e, apply_records) (rest s (rw (e, apply_records) at h))
    by_outcome topic_length_mismatch e rest =
        rw (e, apply_records) (rest s (rw (e, apply_records) at h))
    by_outcome value_too_short e rest = rw (e, apply_records) (rest s (rw (e, apply_records) at h))
    by_outcome panic e rest = cc (rw (e, apply_records) at h)

-- The division into fetches makes no difference.
read_to_end-fetches :
    (s u : SyncStore) (batches : List (KeyValue × List KeyValue))
    → apply_records s (fetched batches) ≡ some u
    → read_to_end s (fetches batches) ≡ (mark_read_to_end u, caught_up)
unfolding read_to_end
read_to_end-fetches s u [] h = rw (h, read_to_end) refl
read_to_end-fetches s u ((x, xs) ∷ more) h =
    let (m, first, rest) = apply_records-InTurn s u (x ∷ xs) (fetched more) h in
    ground (arith, first, read_to_end-fetches m u more rest)

-- A record of the topic for each sync, with the bytes that the reader takes apart.
apply_records-written :
    (s : SyncStore) (syncs : List OffsetSync)
    → All IsStorable syncs
    → apply_records s (map (λ (sync : OffsetSync). (sync_key sync, sync_value sync)) syncs)
      ≡ some (feed s syncs)
unfolding apply_records
apply_records-written s [] h = refl
apply_records-written s (sync ∷ l) (v, h) =
    rw
      (
        deserialize-serialize sync v.short_topic v.partition_range v.upstream_range
            v.downstream_range,
        apply_records,
      )
      (apply_records-written (handle_sync s sync) l h)

abbrev record_of : SyncWriter → OffsetSync → Record
record_of w sync = record { topic = w.sync_topic; key = sync_key sync; value = sync_value sync }

write-opened :
    (w : SyncWriter) (sync : OffsetSync)
    → w.closed ≡ false
    → (write w sync true).0 ≡ record w { produced = w.produced ++ (record_of w sync ∷ []) }
unfolding write
write-opened w sync opened = rw opened refl

key_values-append : (xs ys : List Record) → key_values (xs ++ ys) ≡ key_values xs ++ key_values ys
key_values-append [] ys = refl
key_values-append (x ∷ xs) ys = ap (λ l. (x.key, x.value) ∷ l) (key_values-append xs ys)

write_all-produced :
    (w : SyncWriter) (syncs : List OffsetSync)
    → w.closed ≡ false
    → key_values (write_all w syncs).produced
      ≡ key_values w.produced ++ map (λ (sync : OffsetSync). (sync_key sync, sync_value sync)) syncs
write_all-produced w [] opened = sym (append-nil (key_values w.produced))
write_all-produced w (sync ∷ more) opened =
    let pairs = map (λ (s : OffsetSync). (sync_key s, sync_value s)) more in
    ap (λ v. key_values (write_all v more).produced) (write-opened w sync opened)
    ∙ write_all-produced (record w { produced = w.produced ++ (record_of w sync ∷ []) }) more opened
    ∙ ap (λ l. l ++ pairs) (key_values-append w.produced (record_of w sync ∷ []))
    ∙ append_assoc (key_values w.produced) ((sync_key sync, sync_value sync) ∷ []) pairs

-- The records that a new writer, which nobody closes, produces for some syncs within the limits of the
-- format, fetched in any non-empty batches until a fetch is empty: ReadToEnd ends with the store that
-- has handled exactly those syncs, in order, and is marked as read.
pub read_to_end-write_all :
    (s : SyncStore) (w : SyncWriter) (syncs : List OffsetSync)
    (batches : List (KeyValue × List KeyValue))
    → w.closed ≡ false
    → w.produced ≡ []
    → All IsStorable syncs
    → fetched batches ≡ key_values (write_all w syncs).produced
    → read_to_end s (fetches batches) ≡ (mark_read_to_end (feed s syncs), caught_up)
read_to_end-write_all s w syncs batches opened fresh storable all =
    read_to_end-fetches s (feed s syncs) batches (
      ap (apply_records s) (
        all
        ∙ write_all-produced w syncs opened
        ∙ ap
            (λ l.
              key_values l ++ map (λ (sync : OffsetSync). (sync_key sync, sync_value sync)) syncs)
            fresh)
      ∙ apply_records-written s syncs storable)
