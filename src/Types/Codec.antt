-- ===== src/Types/Codec.antt =====
-- The serialisers of pkg/types/types.go and DeserializeOffsetSync. A buffer that is made in full
-- length and then filled from the front is the concatenation of what is written.
use gomm.Prelude.{
  ℕ, zero, suc, ◌+◌, ◌-◌, ◌*◌, ◌/◌, ◌%◌, ◌^◌, [], ◌∷◌, ◌++◌, ◌&&◌, length, take, drop, ltb, leb,
  if◌then◌else◌, Bytes,
}
use gomm.Types.{OffsetSync, Heartbeat, Checkpoint}

-- binary.BigEndian.PutUint16, PutUint32, PutUint64: the `w` low bytes, the highest first.
unfoldable pub put_uint : ℕ → ℕ → Bytes
put_uint zero n = []
put_uint (suc w) n = put_uint w (n / 256) ++ (n % 256 ∷ [])

-- binary.BigEndian.Uint16, Uint32, Uint64 of a slice of that length.
unfoldable pub uint_from : ℕ → Bytes → ℕ
uint_from acc [] = acc
uint_from acc (b ∷ bs) = uint_from (acc * 256 + b) bs

-- A string behind its length, which is cut to 16 bits.
unfoldable pub put_string : Bytes → Bytes
put_string s = put_uint 2 (length s % 2 ^ 16) ++ s

-- OffsetSync.SerializeKey.
unfoldable pub sync_key : OffsetSync → Bytes
unfolding put_string
sync_key os = put_string os.topic_partition.topic ++ put_uint 4 os.topic_partition.partition

-- OffsetSync.SerializeValue.
unfoldable pub sync_value : OffsetSync → Bytes
sync_value os = put_uint 8 os.upstream_offset ++ put_uint 8 os.downstream_offset

-- Heartbeat.SerializeKey.
unfoldable pub heartbeat_key : Heartbeat → Bytes
unfolding put_string
heartbeat_key h = put_string h.source_cluster ++ put_string h.target_cluster

-- Heartbeat.SerializeValue: the version, which is 0, and the time.
unfoldable pub heartbeat_value : Heartbeat → Bytes
heartbeat_value h = put_uint 2 0 ++ put_uint 8 h.timestamp

-- Checkpoint.SerializeKey.
unfoldable pub checkpoint_key : Checkpoint → Bytes
unfolding put_string
checkpoint_key c =
    put_string c.consumer_group_id
    ++ (put_string c.checkpoint_partition.topic ++ put_uint 4 c.checkpoint_partition.partition)

-- Checkpoint.SerializeValue.
unfoldable pub checkpoint_value : Checkpoint → Bytes
unfolding put_string
checkpoint_value c =
    put_uint 2 0
    ++ (put_uint 8 c.checkpoint_upstream
        ++ (put_uint 8 c.checkpoint_downstream ++ put_string c.metadata))

-- What DeserializeOffsetSync does: it returns a sync, or an error, or it panics in a slice
-- expression that is out of range.
pub data Outcome {ℓ} (A : Type ℓ) : Type ℓ where
  ok : A → Outcome A
  key_too_short : Outcome A
  topic_length_mismatch : Outcome A
  value_too_short : Outcome A
  panic : Outcome A

infixl 5 ◌>>=◌
abbrev pub ◌>>=◌ {ℓ κ} : {A : Type ℓ} {B : Type κ} → Outcome A → (A → Outcome B) → Outcome B
ok a >>= f = f a
key_too_short >>= f = key_too_short
topic_length_mismatch >>= f = topic_length_mismatch
value_too_short >>= f = value_too_short
panic >>= f = panic

-- The slice expression xs[lo:hi].
abbrev pub slice : Bytes → ℕ → ℕ → Outcome Bytes
slice xs lo hi = if leb lo hi && leb hi (length xs) then ok (take (hi - lo) (drop lo xs)) else panic

-- binary.BigEndian.Uint32(xs[lo:]): it reads four bytes, and panics where there are fewer.
abbrev pub uint32_at : Bytes → ℕ → Outcome ℕ
uint32_at xs lo = if leb (lo + 4) (length xs) then ok (uint_from 0 (take 4 (drop lo xs))) else panic

-- `2+topicLen` is a sum of uint16 values.
abbrev pub topic_end : ℕ → ℕ
topic_end topic_len = (2 + topic_len) % 2 ^ 16

abbrev pub sync_of : Bytes → ℕ → Bytes → OffsetSync
sync_of topic partition value = record {
  topic_partition = record { topic = topic; partition = partition };
  upstream_offset = uint_from 0 (take 8 value);
  downstream_offset = uint_from 0 (take 8 (drop 8 value));
}

unfoldable pub deserialize_offset_sync : Bytes → Bytes → Outcome OffsetSync
deserialize_offset_sync key value =
    if ltb (length key) 6
    then key_too_short
    else let topic_len = uint_from 0 (take 2 key) in
      if ltb (length key) (topic_len + 6) then topic_length_mismatch else do
        topic ← slice key 2 (topic_end topic_len)
        partition ← uint32_at key (topic_end topic_len)
        if ltb (length value) 16 then value_too_short else ok (sync_of topic partition value)
