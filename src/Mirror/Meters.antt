-- ===== src/Mirror/Meters.antt =====
-- internal/mirror/source.go: the counters that replicationLoop gathers by topic and partition and
-- adds to RecordsReplicated and BytesReplicated at intervals and at its end. The sums are numbers,
-- where the code has float64, which is exact for whole numbers up to 2^53. Of WithLabelValues, which is
-- part of the Prometheus library, the argument `with_label_values` says for which label names and
-- values it returns; otherwise it panics.
pub mod Keys
pub mod Flushing
pub mod Counting
pub mod Looping
pub mod Panicking
mod Tests
use mathlib.Core.List.{map}
use gomm.Prelude.{
  ℕ, zero, suc, ◌+◌, Bool, true, false, ◌&&◌, List, [], ◌∷◌, ◌++◌, Option, none, some, length,
  get_or, take, drop, nat_beq, if◌then◌else◌, Bytes, bytes_beq, bytes_eq, lookup, insert,
}
use gomm.Policy.{ReplicationPolicy, format_remote_topic}
use gomm.Metrics.{Metrics}
use gomm.Mirror.Source.{SourceRecord}

abbrev pub Counts : Type 0
Counts = List (Bytes × ℕ)

-- A call of Add on both counters, with the labels for the topic and the partition.
pub record Sample : Type 0 where
  pub topic : Bytes
  pub part : Bytes
  pub records : ℕ
  pub bytes : ℕ

pub record Meters : Type 0 where
  pub local_rec_counts : Counts
  pub local_byte_counts : Counts
  pub added : List Sample

abbrev pub new_meters : Meters
new_meters = record { local_rec_counts = []; local_byte_counts = []; added = [] }

abbrev pub colon : ℕ
colon = 58

-- What a map of counts has for a key: zero where it has none.
abbrev pub or_zero : Option ℕ → ℕ
or_zero none = 0
or_zero (some n) = n

abbrev pub bump : Bytes → ℕ → Counts → Counts
bump key n counts = insert key (or_zero (lookup key counts) + n) counts

abbrev pub delete : Bytes → Counts → Counts
delete key [] = []
delete key ((k, n) ∷ more) =
    let rest = delete key more in if bytes_beq k key then rest else (k, n) ∷ rest

-- The loop over a key from its end: what stands before and behind the last colon.
unfoldable pub split_loop : Bytes → ℕ → Bytes × Bytes
split_loop key zero = ([], [])
split_loop key (suc i) =
    let earlier = split_loop key i in
    if nat_beq (get_or key i 0) colon then (take i key, drop (suc i) key) else earlier

abbrev pub split_key : Bytes → Bytes × Bytes
split_key key = split_loop key (length key)

abbrev pub sample_of : Counts → Bytes × ℕ → Sample
sample_of byte_counts (key, count) = record {
  topic = (split_key key).0;
  part = (split_key key).1;
  records = count;
  bytes = or_zero (lookup key byte_counts);
}

abbrev pub samples : Meters → List Sample
samples m = map (sample_of m.local_byte_counts) m.local_rec_counts

abbrev pub delete_keys : Counts → Counts → Counts
delete_keys [] counts = counts
delete_keys ((key, n) ∷ more) counts = delete_keys more (delete key counts)

-- The periodic flush, which deletes each key that it has added.
unfoldable pub flush_meters : Meters → Meters
flush_meters m = record {
  local_rec_counts = [];
  local_byte_counts = delete_keys m.local_rec_counts m.local_byte_counts;
  added = m.added ++ samples m;
}

unfoldable pub metrics_key : Bytes → Bytes → Bytes
metrics_key topic part = topic ++ (colon ∷ part)

module _ (format_int : ℕ → Bytes) (policy : ReplicationPolicy) (alias : Bytes) where
  unfoldable pub count_record : Meters → SourceRecord → Meters
  count_record m r =
      let key = metrics_key (format_remote_topic policy alias r.topic) (format_int r.partition) in
      record m {
        local_rec_counts = bump key 1 m.local_rec_counts;
        local_byte_counts = bump key (length r.value) m.local_byte_counts;
      }

  unfoldable pub count_records : Meters → List SourceRecord → Meters
  count_records m [] = m
  count_records m (r ∷ more) = count_records (count_record m r) more

  module _ (metrics : Metrics) (with_label_values : List Bytes → List Bytes → Bool)
      (target : Bytes) where
    -- Whether both counters take the values of a sample.
    abbrev pub fits : Sample → Bool
    fits s =
        let values = alias ∷ target ∷ s.topic ∷ s.part ∷ [] in
        with_label_values metrics.records_replicated values
        && with_label_values metrics.bytes_replicated values

    abbrev pub all_fit : List Sample → Bool
    all_fit [] = true
    all_fit (s ∷ more) = fits s && all_fit more

    -- A flush, or a panic at the first sample that does not fit.
    unfoldable pub try_flush : Meters → Option Meters
    try_flush m = if all_fit (samples m) then some (flush_meters m) else none

    -- A round: nothing for an empty poll, or else the records, and the flush when it is due.
    unfoldable pub meter_poll : Bool → Meters → List SourceRecord → Option Meters
    meter_poll due m [] = some m
    meter_poll due m (r ∷ more) =
        let counted = count_records m (r ∷ more) in if due then try_flush counted else some counted

    -- The deferred flush at the end of the loop.
    unfoldable pub final_flush : Meters → Option (List Sample)
    final_flush m = if all_fit (samples m) then some (m.added ++ samples m) else none

    abbrev pub after_poll : (Meters → Option (List Sample)) → Option Meters → Option (List Sample)
    after_poll rest none = none
    after_poll rest (some m) = rest m

    -- The loop, up to its end: what has been added, or a panic, which ends the process.
    unfoldable pub meter_polls : List (Bool × List SourceRecord) → Meters → Option (List Sample)
    meter_polls [] m = final_flush m
    meter_polls ((due, records) ∷ more) m =
        after_poll (λ next. meter_polls more next) (meter_poll due m records)
