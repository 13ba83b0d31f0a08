-- ===== src/Mirror/Meters/Panicking.antt =====
-- internal/mirror/source.go with internal/metrics/metrics.go: the counters are given four label values
-- for three label names.
use mathlib.Core.List.{map}
use gomm.Prelude.{
  ℕ, ◌≡◌, ◌≢◌, refl, ap, ◌⊎◌, inl, inr, Bool, true, false, ◌&&◌, List, [], ◌∷◌, none, arith, length,
  Bytes, Bool-cases, bytes_beq, bytes_eq, insert,
}
use gomm.Policy.{ReplicationPolicy}
use gomm.Metrics.{topic_labels, new_metrics}
use gomm.Mirror.Source.{SourceRecord}
use gomm.Mirror.Meters.{
  Counts, Sample, Meters, new_meters, sample_of, samples, count_record, count_records, fits,
  all_fit, try_flush, meter_poll, final_flush, meter_polls,
}
use gomm.Mirror.Meters.Counting.{polled}

insert-nonempty : (key : Bytes) (n : ℕ) (counts : Counts) → insert key n counts ≢ []
unfolding insert
insert-nonempty key n [] h = cc h
insert-nonempty key n ((k, old) ∷ more) h = elim (Bool-cases (bytes_beq k key)) [
  | inl same ↦ ground (arith, same, h)
  | inr other ↦ ground (arith, other, h)
]

module _ (format_int : ℕ → Bytes) (policy : ReplicationPolicy) (alias : Bytes) where
  count_records-nonempty :
      (rs : List SourceRecord) (r : SourceRecord) (m : Meters)
      → (count_records format_int policy alias m (r ∷ rs)).local_rec_counts ≢ []
  unfolding count_records count_record
  count_records-nonempty [] r m = insert-nonempty _ _ _
  count_records-nonempty (s ∷ rs) r m =
      count_records-nonempty rs s (count_record format_int policy alias m r)

  module _ (with_label_values : List Bytes → List Bytes → Bool)
      (documented : (names values : List Bytes)
        → with_label_values names values ≡ true
        → length names ≡ length values)
      (target : Bytes) where
    none_fits :
        (s : Sample) → fits format_int policy alias new_metrics with_label_values target s ≡ false
    unfolding new_metrics
    none_fits s =
        let values : List Bytes = alias ∷ target ∷ s.topic ∷ s.part ∷ [] in
        let off : with_label_values topic_labels values ≡ false =
          elim (Bool-cases (with_label_values topic_labels values)) [
            | inl on ↦ absurd (omega (arith, documented topic_labels values on))
            | inr off ↦ off
          ] in
        ap (λ b. b && with_label_values topic_labels values) off

    samples-all_fit :
        (m : Meters)
        → m.local_rec_counts ≢ []
        → all_fit format_int policy alias new_metrics with_label_values target (samples m) ≡ false
    samples-all_fit m some_kept = by_counts m.local_rec_counts refl
      where
        by_counts :
            (l : Counts)
            → m.local_rec_counts ≡ l
            → all_fit format_int policy alias new_metrics with_label_values target
                (map (sample_of m.local_byte_counts) l)
              ≡ false
        by_counts [] e = absurd (some_kept e)
        by_counts (c ∷ l) e = rw (none_fits (sample_of m.local_byte_counts c)) refl

    meter_polls-panics_from :
        (polls : List (Bool × List SourceRecord)) (m : Meters)
        → (m.local_rec_counts ≢ []) ⊎ (polled polls ≢ [])
        → meter_polls format_int policy alias new_metrics with_label_values target polls m ≡ none
    unfolding meter_polls meter_poll final_flush try_flush
    meter_polls-panics_from [] m (inl kept) = rw (samples-all_fit m kept) refl
    meter_polls-panics_from [] m (inr more) = absurd (more refl)
    meter_polls-panics_from ((due, []) ∷ polls) m why = meter_polls-panics_from polls m why
    meter_polls-panics_from ((true, r ∷ rs) ∷ polls) m why =
        rw
          (samples-all_fit (count_records format_int policy alias m (r ∷ rs))
            (count_records-nonempty rs r m))
          refl
    meter_polls-panics_from ((false, r ∷ rs) ∷ polls) m why =
        meter_polls-panics_from polls (count_records format_int policy alias m (r ∷ rs))
          (inl (count_records-nonempty rs r m))

    -- WithLabelValues returns only where there are as many values as label names, as it is
    -- documented. Then a replication loop that has polled a record at all does not come to its end: it
    -- panics, at the latest in its last flush, since the counters that New registers have no label for
    -- the partition.
    pub meter_polls-panics :
        (polls : List (Bool × List SourceRecord))
        → polled polls ≢ []
        → meter_polls format_int policy alias new_metrics with_label_values target polls new_meters
          ≡ none
    meter_polls-panics polls some_polled =
        meter_polls-panics_from polls new_meters (inr some_polled)
