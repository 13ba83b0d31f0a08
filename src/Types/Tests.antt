-- ===== src/Types/Tests.antt =====
-- The byte formats of pkg/types/types.go at concrete records.
use gomm.Prelude.{
  ◌+◌, ◌≤◌, ◌≡◌, ◌↔◌, refl, [], ◌∷◌, ◌++◌, arith, codes, minus_one, length, take, Bytes, replicate,
}
use gomm.Types.{TopicPartition, OffsetSync, Heartbeat, Checkpoint}
use gomm.Types.Codec.{
  put_uint, uint_from, sync_key, sync_value, heartbeat_key, heartbeat_value, checkpoint_key,
  checkpoint_value, ok, panic, deserialize_offset_sync,
}
use gomm.Types.RoundTrip.{deserialize-serialize, deserialize_panic_iff}
use gomm.Types.Keys.{checkpoint_key-injective}

abbrev orders_3 : TopicPartition
orders_3 = record { topic = codes "orders"; partition = 3 }

abbrev sync : OffsetSync
sync = record { topic_partition = orders_3; upstream_offset = 1000; downstream_offset = minus_one }

abbrev beat : Heartbeat
beat = record { source_cluster = codes "us"; target_cluster = codes "eu"; timestamp = 258 }

abbrev checkpoint : Checkpoint
checkpoint = record {
  consumer_group_id = codes "g";
  checkpoint_partition = orders_3;
  checkpoint_upstream = 1;
  checkpoint_downstream = 2;
  metadata = [];
}

sync_key_bytes : sync_key sync ≡ 0 ∷ 6 ∷ codes "orders" ++ 0 ∷ 0 ∷ 0 ∷ 3 ∷ []
unfolding sync_key put_uint
sync_key_bytes = refl

sync_value_bytes : sync_value sync ≡ 0 ∷ 0 ∷ 0 ∷ 0 ∷ 0 ∷ 0 ∷ 3 ∷ 232 ∷ replicate 8 255
unfolding sync_value put_uint
sync_value_bytes = refl

heartbeat_bytes :
    (heartbeat_key beat ≡ 0 ∷ 2 ∷ codes "us" ++ 0 ∷ 2 ∷ codes "eu")
    × (heartbeat_value beat ≡ replicate 8 0 ++ 1 ∷ 2 ∷ [])
unfolding heartbeat_key heartbeat_value put_uint
heartbeat_bytes = (refl, refl)

checkpoint_value_bytes :
    checkpoint_value checkpoint ≡ replicate 9 0 ++ 1 ∷ replicate 7 0 ++ 2 ∷ 0 ∷ 0 ∷ []
unfolding checkpoint_value put_uint
checkpoint_value_bytes = refl

deserialize-serialize_example : deserialize_offset_sync (sync_key sync) (sync_value sync) ≡ ok sync
deserialize-serialize_example =
    deserialize-serialize sync (omega arith) (omega arith) (omega arith) (omega arith)

-- Two bytes of 0xff and no topic: refused, not a panic.
abbrev short_key : Bytes
short_key = 255 ∷ 255 ∷ 0 ∷ 0 ∷ 0 ∷ 0 ∷ []

deserialize_panic_iff_example : (deserialize_offset_sync short_key [] ≡ panic) ↔ (
    (65534 ≤ uint_from 0 (take 2 short_key))
    × (uint_from 0 (take 2 short_key) + 6 ≤ length short_key))
deserialize_panic_iff_example = deserialize_panic_iff short_key [] (omega arith)

abbrev small_key : Bytes
small_key = 0 ∷ 1 ∷ 97 ∷ 0 ∷ 0 ∷ 0 ∷ 1 ∷ []

abbrev zeros : Bytes
zeros = replicate 16 0

checkpoint_key-injective_example :
    (checkpoint.consumer_group_id ≡ codes "g") × (checkpoint.checkpoint_partition ≡ orders_3)
checkpoint_key-injective_example =
    checkpoint_key-injective checkpoint (record checkpoint { metadata = codes "m" }) (omega arith)
      (omega arith) (omega arith) (omega arith) (omega arith) (omega arith)
      (unfold checkpoint_key in refl)
