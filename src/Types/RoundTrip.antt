-- ===== src/Types/RoundTrip.antt =====
-- pkg/types/types.go: DeserializeOffsetSync on every input, and after the serialisers.
use native.Mathlib.Nat.{pow-suc}
use gomm.Prelude.{
  ℕ, zero, suc, ◌+◌, ◌*◌, ◌/◌, ◌%◌, ◌^◌, ◌≤◌, ◌<◌, ◌≡◌, refl, sym, ◌∙◌, [], ◌∷◌, ◌++◌, append_assoc,
  arith, All, ◌↔◌, length, take, drop, length-append, take-append_eq, drop-append_eq, take-length,
  IsInt64, Bytes,
}
use gomm.Types.{OffsetSync}
use gomm.Types.Codec.{
  put_uint, uint_from, sync_key, sync_value, ok, panic, deserialize_offset_sync, sync_of,
}

uint_from-append_one :
    (acc : ℕ) (xs : Bytes) (b : ℕ) → uint_from acc (xs ++ (b ∷ [])) ≡ uint_from acc xs * 256 + b
unfolding uint_from
uint_from-append_one acc [] b = refl
uint_from-append_one acc (x ∷ xs) b = uint_from-append_one (acc * 256 + x) xs b

pub length-put_uint : (w n : ℕ) → length (put_uint w n) ≡ w
unfolding put_uint
length-put_uint zero n = refl
length-put_uint (suc w) n =
    omega (arith, length-append (put_uint w (n / 256)) (n % 256 ∷ []), length-put_uint w (n / 256))

pub uint_from-put_uint : (w n : ℕ) → n < 256 ^ w → uint_from 0 (put_uint w n) ≡ n
unfolding put_uint uint_from
uint_from-put_uint zero n h = omega arith
uint_from-put_uint (suc w) n h = omega (
  arith,
  uint_from-append_one 0 (put_uint w (n / 256)) (n % 256),
  uint_from-put_uint w (n / 256) (omega (arith, pow-suc 256 w)),
)

-- A key with room for its topic and partition, a topic of fewer than 65534 bytes and a value of
-- at least 16 bytes are read in full.
deserialize_in_range :
    (key value : Bytes) (n : ℕ)
    → n ≡ uint_from 0 (take 2 key)
    → n + 6 ≤ length key
    → n < 65534
    → 16 ≤ length value
    → deserialize_offset_sync key value
      ≡ ok (sync_of (take n (drop 2 key)) (uint_from 0 (take 4 (drop (2 + n) key))) value)
unfolding deserialize_offset_sync
deserialize_in_range key value n e hk hn hv = ground arith

sync_key-parts :
    (os : OffsetSync)
    → sync_key os
      ≡ put_uint 2 (length os.topic_partition.topic % 2 ^ 16)
        ++ (os.topic_partition.topic ++ put_uint 4 os.topic_partition.partition)
unfolding sync_key
sync_key-parts os = append_assoc (put_uint 2 _) os.topic_partition.topic _

length-sync_key : (os : OffsetSync) → length (sync_key os) ≡ 2 + length os.topic_partition.topic + 4
unfolding sync_key
length-sync_key os =
    let t = os.topic_partition.topic in
    let h = put_uint 2 (length t % 2 ^ 16) in
    let p = put_uint 4 os.topic_partition.partition in
    omega (
      arith,
      length-append (h ++ t) p,
      length-append h t,
      length-put_uint 2 (length t % 2 ^ 16),
      length-put_uint 4 os.topic_partition.partition,
    )

-- The slices of a serialised key, for a topic whose length fits the prefix.
sync_key-length_prefix :
    (os : OffsetSync)
    → length os.topic_partition.topic < 65536
    → uint_from 0 (take 2 (sync_key os)) ≡ length os.topic_partition.topic
sync_key-length_prefix os h =
    let n = length os.topic_partition.topic in
    rw
      (
        sync_key-parts os,
        take-append_eq 2 (put_uint 2 (n % 2 ^ 16)) _
            (omega (arith, length-put_uint 2 (n % 2 ^ 16))),
      )
      (omega (arith, uint_from-put_uint 2 (n % 2 ^ 16) (omega arith)))

drop-sync_key :
    (os : OffsetSync)
    → drop 2 (sync_key os) ≡ os.topic_partition.topic ++ put_uint 4 os.topic_partition.partition
drop-sync_key os =
    let n = length os.topic_partition.topic in
    rw (sync_key-parts os)
      (drop-append_eq 2 (put_uint 2 (n % 2 ^ 16)) _ (omega (arith, length-put_uint 2 (n % 2 ^ 16))))

sync_key-topic :
    (os : OffsetSync)
    → take (length os.topic_partition.topic) (drop 2 (sync_key os)) ≡ os.topic_partition.topic
sync_key-topic os = rw (drop-sync_key os) (take-append_eq _ os.topic_partition.topic _ refl)

sync_key-partition :
    (os : OffsetSync)
    → os.topic_partition.partition < 2 ^ 32
    → uint_from 0 (take 4 (drop (2 + length os.topic_partition.topic) (sync_key os)))
      ≡ os.topic_partition.partition
unfolding sync_key
sync_key-partition os h =
    let t = os.topic_partition.topic in
    let p = os.topic_partition.partition in
    let head = put_uint 2 (length t % 2 ^ 16) in
    rw
      (
        drop-append_eq (2 + length t) (head ++ t) (put_uint 4 p)
            (omega (arith, length-append head t, length-put_uint 2 (length t % 2 ^ 16))),
        take-length 4 (put_uint 4 p) (omega (arith, length-put_uint 4 p)),
      )
      (uint_from-put_uint 4 p (omega arith))

sync_value-upstream :
    (os : OffsetSync)
    → IsInt64 os.upstream_offset
    → uint_from 0 (take 8 (sync_value os)) ≡ os.upstream_offset
unfolding sync_value
sync_value-upstream os h =
    let u = os.upstream_offset in
    rw (take-append_eq 8 (put_uint 8 u) _ (omega (arith, length-put_uint 8 u)))
      (uint_from-put_uint 8 u (omega arith))

sync_value-downstream :
    (os : OffsetSync)
    → IsInt64 os.downstream_offset
    → uint_from 0 (take 8 (drop 8 (sync_value os))) ≡ os.downstream_offset
unfolding sync_value
sync_value-downstream os h =
    let u = os.upstream_offset in
    let d = os.downstream_offset in
    rw
      (
        drop-append_eq 8 (put_uint 8 u) _ (omega (arith, length-put_uint 8 u)),
        take-length 8 (put_uint 8 d) (omega (arith, length-put_uint 8 d)),
      )
      (uint_from-put_uint 8 d (omega arith))

length-sync_value : (os : OffsetSync) → length (sync_value os) ≡ 16
unfolding sync_value
length-sync_value os = omega (
  arith,
  length-append (put_uint 8 os.upstream_offset) (put_uint 8 os.downstream_offset),
  length-put_uint 8 os.upstream_offset,
  length-put_uint 8 os.downstream_offset,
)

-- DeserializeOffsetSync reads back what SerializeKey and SerializeValue wrote, for every sync whose
-- topic has fewer than 65534 bytes, whose partition is an int32 and whose offsets are int64.
pub deserialize-serialize :
    (os : OffsetSync)
    → length os.topic_partition.topic < 65534
    → os.topic_partition.partition < 2 ^ 32
    → IsInt64 os.upstream_offset
    → IsInt64 os.downstream_offset
    → deserialize_offset_sync (sync_key os) (sync_value os) ≡ ok os
deserialize-serialize os ht hp hu hd =
    deserialize_in_range (sync_key os) (sync_value os) (length os.topic_partition.topic)
      (sym (sync_key-length_prefix os (omega arith))) (omega (arith, length-sync_key os)) ht
      (omega (arith, length-sync_value os))
    ∙ ground (
      arith,
      sync_key-topic os,
      sync_key-partition os,
      sync_value-upstream os,
      sync_value-downstream os,
    )

uint16-lt : (key : Bytes) → All (λ b. b < 256) key → uint_from 0 (take 2 key) < 65536
unfolding uint_from
uint16-lt [] h = omega arith
uint16-lt (a ∷ []) h = omega arith
uint16-lt (a ∷ b ∷ r) h = omega arith

-- On a key of bytes DeserializeOffsetSync panics exactly when the length prefix is 65534 or 65535
-- and the key holds that many bytes behind it: `2+topicLen` then wraps round in uint16.
pub deserialize_panic_iff :
    (key value : Bytes)
    → All (λ b. b < 256) key
    → (deserialize_offset_sync key value ≡ panic)
      ↔ ((65534 ≤ uint_from 0 (take 2 key)) × (uint_from 0 (take 2 key) + 6 ≤ length key))
unfolding deserialize_offset_sync
deserialize_panic_iff key value h = ground (arith, uint16-lt key h)

deserialize_ok_needs :
    (key value : Bytes) (os : OffsetSync)
    → All (λ b. b < 256) key
    → deserialize_offset_sync key value ≡ ok os
    → (uint_from 0 (take 2 key) + 6 ≤ length key)
      × (uint_from 0 (take 2 key) < 65534)
      × (16 ≤ length value)
unfolding deserialize_offset_sync
deserialize_ok_needs key value os h e = ground (arith, uint16-lt key h)

-- On a key of bytes DeserializeOffsetSync returns a sync exactly when the key holds its topic and
-- partition, the length prefix is below 65534 and the value has at least 16 bytes.
pub deserialize_ok_iff :
    (key value : Bytes)
    → All (λ b. b < 256) key
    → ((os : OffsetSync) × (deserialize_offset_sync key value ≡ ok os)) ↔ (
        (uint_from 0 (take 2 key) + 6 ≤ length key)
        × (uint_from 0 (take 2 key) < 65534)
        × (16 ≤ length value))
deserialize_ok_iff key value h = (
  λ r. deserialize_ok_needs key value r.0 h r.1,
  λ r. (_, deserialize_in_range key value _ refl r.0 r.1 r.2),
)
