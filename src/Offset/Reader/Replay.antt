-- ===== src/Offset/Reader/Replay.antt =====
-- internal/offset/sync_reader.go: the syncs that were written are the syncs that are read.
use gomm.Prelude.{
  ◌^◌, ◌<◌, ◌≡◌, ◌≢◌, refl, ap, ◌∙◌, ◌⊎◌, ◌↔◌, inl, inr, true, false, List, [], ◌∷◌, ◌++◌, Option,
  none, some, arith, Option-cases, length, All, lookup, lookup-insert, IsInt64, ◌==◌, if◌then◌else◌,
}
use mathlib.Core.List.{map}
use gomm.Types.{TopicPartition, OffsetSync, topic_partition_eq}
use gomm.Types.Codec.{
  Outcome, ok, key_too_short, topic_length_mismatch, value_too_short, panic, sync_key, sync_value,
  deserialize_offset_sync,
}
use gomm.Types.RoundTrip.{deserialize-serialize}
use gomm.Offset.Store.{
  SyncArray, SyncStore, fill, updated_array, new_sync_store, mark_read_to_end, handle_sync,
}
use gomm.Offset.Reader.{
  KeyValue, Poll, live, deadline_exceeded, caught_up, timed_out, pending, apply_records,
  read_to_end,
}

-- The store after a list of syncs, in order.
abbrev pub feed : SyncStore → List OffsetSync → SyncStore
feed s [] = s
feed s (sync ∷ l) = feed (handle_sync s sync) l

-- What SyncWriter.Write puts on the topic for a sync.
abbrev pub written : OffsetSync → KeyValue
written sync = (sync_key sync, sync_value sync)

-- A sync within the limits of the format.
pub record IsStorable (sync : OffsetSync) : Type 0 where
  pub short_topic : length sync.topic_partition.topic < 65534
  pub partition_range : sync.topic_partition.partition < 2 ^ 32
  pub upstream_range : IsInt64 sync.upstream_offset
  pub downstream_range : IsInt64 sync.downstream_offset

abbrev pub full_poll : List OffsetSync → Poll
full_poll l = record { context = live; errors = 0; records = map written l }

abbrev pub idle_poll : Poll
idle_poll = record { context = live; errors = 0; records = [] }

apply_records-written :
    (s : SyncStore) (l : List OffsetSync)
    → All IsStorable l
    → apply_records s (map written l) ≡ some (feed s l)
unfolding apply_records
apply_records-written s [] h = refl
apply_records-written s (sync ∷ l) h =
    let v = h.0 in
    rw
      (
        deserialize-serialize sync v.short_topic v.partition_range v.upstream_range
            v.downstream_range,
        apply_records,
      )
      (apply_records-written (handle_sync s sync) l h.1)

-- The polls of a topic that holds the written syncs, in any division into fetches.
abbrev pub polls_of : List (OffsetSync × List OffsetSync) → List Poll
polls_of [] = idle_poll ∷ []
polls_of ((sync, l) ∷ chunks) = full_poll (sync ∷ l) ∷ polls_of chunks

abbrev pub syncs_of : List (OffsetSync × List OffsetSync) → List OffsetSync
syncs_of [] = []
syncs_of ((sync, l) ∷ chunks) = (sync ∷ l) ++ syncs_of chunks

feed-append : (s : SyncStore) (l m : List OffsetSync) → feed s (l ++ m) ≡ feed (feed s l) m
feed-append s [] m = refl
feed-append s (sync ∷ l) m = feed-append (handle_sync s sync) l m

All-append_left :
    (l m : List OffsetSync) → All IsStorable (l ++ m) → All IsStorable l × All IsStorable m
All-append_left [] m h = (tt, h)
All-append_left (sync ∷ l) m h = let r = All-append_left l m h.1 in ((h.0, r.0), r.1)

-- ReadToEnd over a topic that holds written syncs, fetched in any non-empty batches and then found
-- empty, ends with the store that handled exactly those syncs in order, marked ready.
pub read_to_end-written :
    (s : SyncStore) (chunks : List (OffsetSync × List OffsetSync))
    → All IsStorable (syncs_of chunks)
    → read_to_end s (polls_of chunks) ≡ (mark_read_to_end (feed s (syncs_of chunks)), caught_up)
unfolding read_to_end
read_to_end-written s [] h = rw (apply_records-written s [] tt, read_to_end)
read_to_end-written s ((sync, l) ∷ chunks) h =
    let parts = All-append_left (sync ∷ l) (syncs_of chunks) h in
    ground (
      arith,
      apply_records-written s (sync ∷ l) parts.0,
      feed-append (handle_sync s sync) l (syncs_of chunks),
      read_to_end-written (feed s (sync ∷ l)) chunks parts.1,
    )

-- A store that is not ready keeps, of the syncs of a partition, only the last.
abbrev pub last_for : TopicPartition → Option SyncArray → List OffsetSync → Option SyncArray
last_for tp found [] = found
last_for tp found (sync ∷ l) =
    last_for tp (if sync.topic_partition == tp then some (fill sync) else found) l

updated_array-unready :
    (sync : OffsetSync) (o : Option SyncArray) → updated_array false sync o ≡ fill sync
unfolding updated_array
updated_array-unready sync none = refl
updated_array-unready sync (some a) = ground arith

lookup-handle_unready :
    (s : SyncStore) (sync : OffsetSync) (tp : TopicPartition)
    → s.read_to_end ≡ false
    → lookup tp (handle_sync s sync).syncs
      ≡ (if sync.topic_partition == tp then some (fill sync) else lookup tp s.syncs)
unfolding handle_sync
lookup-handle_unready s sync tp h =
    rw (h, updated_array-unready sync _) (lookup-insert sync.topic_partition tp (fill sync) s.syncs)

lookup-feed :
    (s : SyncStore) (l : List OffsetSync) (tp : TopicPartition)
    → s.read_to_end ≡ false
    → lookup tp (feed s l).syncs ≡ last_for tp (lookup tp s.syncs) l
unfolding handle_sync
lookup-feed s [] tp h = refl
lookup-feed s (sync ∷ l) tp h =
    lookup-feed (handle_sync s sync) l tp h
    ∙ ap (λ o. last_for tp o l) (lookup-handle_unready s sync tp h)

-- After a restart a partition's slots all hold its last written sync: ReadToEnd from the empty
-- store over a topic of written syncs keeps, for each partition, that sync alone.
pub restart-last_for :
    (chunks : List (OffsetSync × List OffsetSync)) (tp : TopicPartition)
    → All IsStorable (syncs_of chunks)
    → lookup tp (read_to_end new_sync_store (polls_of chunks)).0.syncs
      ≡ last_for tp none (syncs_of chunks)
unfolding new_sync_store mark_read_to_end lookup
restart-last_for chunks tp h =
    rw (read_to_end-written new_sync_store chunks h)
      (lookup-feed new_sync_store (syncs_of chunks) tp refl)

flag-apply :
    (s : SyncStore) (l : List KeyValue) {t : SyncStore}
    → apply_records s l ≡ some t
    → t.read_to_end ≡ s.read_to_end
unfolding apply_records handle_sync
flag-apply s [] h = ground arith
flag-apply s ((k, v) ∷ l) {t} h = step (deserialize_offset_sync k v) refl (λ s'. flag-apply s' l)
  where
    step :
        (o : Outcome OffsetSync)
        → deserialize_offset_sync k v ≡ o
        → ((s' : SyncStore) → apply_records s' l ≡ some t → t.read_to_end ≡ s'.read_to_end)
        → t.read_to_end ≡ s.read_to_end
    step (ok sync) e ih = ih (handle_sync s sync) (rw (e, apply_records) at h)
    step key_too_short e ih = ih s (rw (e, apply_records) at h)
    step topic_length_mismatch e ih = ih s (rw (e, apply_records) at h)
    step value_too_short e ih = ih s (rw (e, apply_records) at h)
    step panic e ih = cc (rw (e, apply_records) at h)

-- A store that was not ready is ready after ReadToEnd exactly when that caught up with the topic or
-- ran into its time limit: not when it was cancelled or crashed.
pub read_to_end-ready_iff :
    (s : SyncStore) (polls : List Poll)
    → s.read_to_end ≡ false
    → ((read_to_end s polls).0.read_to_end ≡ true)
      ↔ (((read_to_end s polls).1 ≡ caught_up) ⊎ ((read_to_end s polls).1 ≡ timed_out))
unfolding read_to_end mark_read_to_end
read_to_end-ready_iff s [] h = ground arith
read_to_end-ready_iff s (p ∷ polls) h = elim (Option-cases (apply_records s p.records)) [
  | inl crash ↦ ground arith
  | inr (s', e) ↦ ground (arith, flag-apply s p.records e, read_to_end-ready_iff s' polls)
]

-- The time limit ends ReadToEnd: with a poll that runs into the deadline among the polls, it does
-- not stay pending.
pub read_to_end_terminates :
    (s : SyncStore) (before after : List Poll) (p : Poll)
    → p.context ≡ deadline_exceeded
    → (read_to_end s (before ++ (p ∷ after))).1 ≢ pending
unfolding read_to_end
read_to_end_terminates s [] after p h = ground arith
read_to_end_terminates s (q ∷ before) after p h = elim (Option-cases (apply_records s q.records)) [
  | inl crash ↦ ground arith
  | inr (s', e) ↦ ground (arith, read_to_end_terminates s' before after p h)
]
