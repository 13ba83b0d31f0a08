-- ===== src/Offset/Store/Tests.antt =====
-- internal/offset/sync_store.go at concrete syncs.
use gomm.Prelude.{
  ◌+◌, ◌*◌, ◌-◌, ◌^◌, ◌≤◌, ◌<◌, ◌≡◌, ◌⊎◌, refl, true, ℕ, [], ◌∷◌, ◌++◌, some, arith, lookup, insert,
  codes, minus_one, rank, bytes_beq, replicate,
}
use gomm.Types.{TopicPartition, OffsetSync, topic_partition_eq}
use gomm.Offset.Store.{
  SyncArray, SyncStore, upstream_at, fill, new_sync_store, mark_read_to_end, handle_sync,
  translate_downstream, normal_update, updated_array,
}
use gomm.Offset.Store.Handling.{IsValidStore, handle_sync-IsValidStore}
use gomm.Offset.Store.Contents.{Reached, fresh, handled, marked, Reached-IsValidStore}
use gomm.Offset.Store.Translation.{
  AnsweredBy, TooOld, translate_available_iff, translate_precision, translate_safe,
}

abbrev tp : TopicPartition
tp = record { topic = codes "t"; partition = 0 }

abbrev at : ℕ → ℕ → OffsetSync
at up down = record { topic_partition = tp; upstream_offset = up; downstream_offset = down }

abbrev ready : SyncStore
ready = mark_read_to_end new_sync_store

abbrev busy : SyncStore
busy = handle_sync (handle_sync (handle_sync ready (at 100 200)) (at 102 204)) (at 110 220)

busy-Reached : Reached (at 110 220 ∷ at 102 204 ∷ at 100 200 ∷ []) busy
busy-Reached =
    handled (handled (handled (marked fresh) (at 100 200) (omega arith)) (at 102 204) (omega arith))
      (at 110 220) (omega arith)

abbrev busy_array : SyncArray
busy_array = replicate 5 (at 110 220) ++ replicate 59 (at 100 200)

busy_slots : lookup tp busy.syncs ≡ some busy_array
unfolding handle_sync lookup insert updated_array normal_update new_sync_store mark_read_to_end fill
    bytes_beq
busy_slots = refl

translations :
    (translate_downstream busy tp 110 ≡ (220, true))
    × (translate_downstream busy tp 115 ≡ (221, true))
    × (translate_downstream busy tp 105 ≡ (201, true))
    × (translate_downstream busy tp 99 ≡ (minus_one, true))
unfolding translate_downstream handle_sync lookup insert updated_array normal_update new_sync_store
    mark_read_to_end fill bytes_beq
translations = (refl, refl, refl, refl)

-- A sync that goes back in the source drops what was known.
rewound : translate_downstream (handle_sync busy (at 5 300)) tp 110 ≡ (301, true)
unfolding translate_downstream handle_sync lookup insert updated_array normal_update new_sync_store
    mark_read_to_end fill bytes_beq
rewound = refl

handle_sync-IsValidStore_example : IsValidStore (handle_sync busy (at 120 240))
handle_sync-IsValidStore_example =
    handle_sync-IsValidStore busy (at 120 240) (omega arith) (Reached-IsValidStore busy-Reached)

translate_precision_example :
    TooOld 105 busy_array (translate_downstream busy tp 105).0
    ⊎ ((k : ℕ) × AnsweredBy 105 busy_array k (translate_downstream busy tp 105).0
        × ((k ≡ 0) ⊎ (rank 105 < rank (upstream_at busy_array k) + 2 ^ (k - 1))))
translate_precision_example =
    translate_precision busy tp 105 busy_array (Reached-IsValidStore busy-Reached)
      (unfold handle_sync mark_read_to_end in refl) busy_slots

translate_safe_example :
    ((translate_downstream busy tp 105).0 ≡ minus_one)
    ⊎ ((translate_downstream busy tp 105).0 ≤ 210)
translate_safe_example =
    translate_safe (λ n. 2 * n) (λ i j h. omega arith) tp 105 busy-Reached
      (λ _. (omega arith, refl), (λ _. (omega arith, refl), (λ _. (omega arith, refl), tt)))
      (omega arith) (omega arith)
      ((translate_available_iff busy tp 105).1
        ((unfold handle_sync mark_read_to_end in refl), (busy_array, busy_slots)))
