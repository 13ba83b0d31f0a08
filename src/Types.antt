-- ===== src/Types.antt =====
-- pkg/types/types.go: the records that the components exchange, and their byte formats. Strings are
-- lists of bytes, int64 and int32 values two's-complement patterns. The `String` methods only
-- format log lines and are left out.
pub mod Codec
pub mod RoundTrip
pub mod Keys
mod Tests
use gomm.Prelude.{ℕ, ◌≡◌, ◌↔◌, Bool, true, ◌&&◌, arith, Eq, bytes_beq, bytes_beq_iff, nat_beq}
use gomm.Prelude.{Int64, Bytes}

pub record TopicPartition : Type 0 where
  pub topic : Bytes
  pub partition : ℕ

pub record OffsetSync : Type 0 where
  pub topic_partition : TopicPartition
  pub upstream_offset : Int64
  pub downstream_offset : Int64

-- The timestamp is the value that `Timestamp.UnixMilli` gives.
pub record Heartbeat : Type 0 where
  pub source_cluster : Bytes
  pub target_cluster : Bytes
  pub timestamp : Int64

pub record Checkpoint : Type 0 where
  pub consumer_group_id : Bytes
  pub checkpoint_partition : TopicPartition
  pub checkpoint_upstream : Int64
  pub checkpoint_downstream : Int64
  pub metadata : Bytes

-- Go's `==` on the struct, field by field.
abbrev pub topic_partition_beq : TopicPartition → TopicPartition → Bool
topic_partition_beq a b = bytes_beq a.topic b.topic && nat_beq a.partition b.partition

pub topic_partition_beq_iff : (a b : TopicPartition) → (topic_partition_beq a b ≡ true) ↔ (a ≡ b)
topic_partition_beq_iff a b = ground (arith, bytes_beq_iff a.topic b.topic)

instance abbrev pub topic_partition_eq : Eq TopicPartition
topic_partition_eq = record { same = topic_partition_beq; same_iff = topic_partition_beq_iff }
