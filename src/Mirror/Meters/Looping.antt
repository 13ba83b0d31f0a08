-- ===== src/Mirror/Meters/Looping.antt =====
-- internal/mirror/source.go: the loop that counts and flushes the counters.
use mathlib.Core.Path.{subst}
use gomm.Prelude.{
  Option, none, some, ℕ, ◌+◌, ◌≡◌, refl, Bool, true, false, List, [], ◌∷◌, ◌++◌, none, some, arith,
  length, Bytes, bytes_eq, lookup, if◌then◌else◌,
}
use gomm.Policy.{ReplicationPolicy}
use gomm.Mirror.Source.{SourceRecord}
use gomm.Metrics.{Metrics}
use gomm.Mirror.Meters.{
  Sample, Meters, new_meters, samples, flush_meters, count_records, all_fit, try_flush, meter_poll,
  final_flush, after_poll, meter_polls,
}
use gomm.Mirror.Meters.Flushing.{total, Accounts, flush_meters-Accounts}
use gomm.Mirror.Meters.Counting.{polled, sum_for, sum_for-append, count_records-Balanced}
use gomm.Mirror.Meters.Keys.{NoColon}

module _ (policy : ReplicationPolicy) (alias : Bytes) where
  module _ (format_int : ℕ → Bytes) (clean : (n : ℕ) → NoColon (format_int n))
      (distinct : (m n : ℕ) → format_int m ≡ format_int n → m ≡ n) (topic : Bytes) (p : ℕ) where
    abbrev Balance : ℕ → ℕ → Meters → Type 0
    Balance records bytes m = Accounts topic (format_int p) records bytes m

    module _ (metrics : Metrics) (with_label_values : List Bytes → List Bytes → Bool)
        (target : Bytes) where
      -- The loop from some state on.
      abbrev loop_from : List (Bool × List SourceRecord) → Meters → Option (List Sample)
      loop_from polls m =
          meter_polls format_int policy alias metrics with_label_values target polls m

      abbrev fits_now : Meters → Bool
      fits_now m = all_fit format_int policy alias metrics with_label_values target (samples m)

      -- What has been added in the end.
      abbrev AddsUp : ℕ → ℕ → List Sample → Type 0
      AddsUp records bytes added =
          (total (λ s. s.records) topic (format_int p) added ≡ records)
          × (total (λ s. s.bytes) topic (format_int p) added ≡ bytes)

      final_flush-AddsUp :
          (records bytes : ℕ) (m : Meters) (out : List Sample)
          → Balance records bytes m
          → (fit : Bool) → (if fit then some (m.added ++ samples m) else none) ≡ some out
          → AddsUp records bytes out
      unfolding flush_meters lookup
      final_flush-AddsUp records bytes m out a false e = cc e
      final_flush-AddsUp records bytes m out a true e =
          let last = flush_meters-Accounts topic (format_int p) records bytes m (clean p) a in
          let same : m.added ++ samples m ≡ out = cc e in
          subst (AddsUp records bytes) same
            (omega (arith, last.counted), omega (arith, last.sized, last.together refl))

      meter_polls-Counted_from :
          (polls : List (Bool × List SourceRecord)) (records bytes : ℕ) (m : Meters)
          (out : List Sample)
          → Balance records bytes m
          → loop_from polls m ≡ some out
          → AddsUp
              (records + sum_for policy alias (λ r. 1) topic p (polled polls))
              (bytes + sum_for policy alias (λ r. length r.value) topic p (polled polls))
              out
      unfolding meter_polls meter_poll final_flush try_flush
      meter_polls-Counted_from [] records bytes m out a e =
          let (n, size) = final_flush-AddsUp records bytes m out a (fits_now m) e in
          (omega (arith, n), omega (arith, size))
      meter_polls-Counted_from ((due, []) ∷ more) records bytes m out a e =
          meter_polls-Counted_from more records bytes m out a e
      meter_polls-Counted_from ((false, r ∷ rs) ∷ more) records bytes m out a e =
          let (n, size) =
            meter_polls-Counted_from more _ _ (count_records format_int policy alias m (r ∷ rs)) out
              (count_records-Balanced policy alias format_int clean distinct topic p (r ∷ rs)
                records bytes m a)
              e in
          (
            omega (arith, n, sum_for-append policy alias (λ r. 1) topic p (r ∷ rs) (polled more)),
            omega (
              arith,
              size,
              sum_for-append policy alias (λ r. length r.value) topic p (r ∷ rs) (polled more),
            ),
          )
      meter_polls-Counted_from ((true, r ∷ rs) ∷ more) records bytes m out a e =
          by_fit (fits_now counts)
            (λ done. meter_polls-Counted_from more _ _ (flush_meters counts) out flushed done) e
        where
          counts : Meters
          counts = count_records format_int policy alias m (r ∷ rs)

          flushed :
              Balance
                (records + sum_for policy alias (λ r. 1) topic p (r ∷ rs))
                (bytes + sum_for policy alias (λ r. length r.value) topic p (r ∷ rs))
                (flush_meters counts)
          flushed = flush_meters-Accounts topic (format_int p) _ _ counts (clean p) (
              count_records-Balanced policy alias format_int clean distinct topic p (r ∷ rs) records
                bytes m a)

          by_fit :
              (fit : Bool)
              → (loop_from more (flush_meters counts) ≡ some out
                  → AddsUp
                      (records
                        + sum_for policy alias (λ r. 1) topic p (r ∷ rs)
                        + sum_for policy alias (λ r. 1) topic p (polled more))
                      (bytes
                        + sum_for policy alias (λ r. length r.value) topic p (r ∷ rs)
                        + sum_for policy alias (λ r. length r.value) topic p (polled more))
                      out)
              → after_poll format_int policy alias metrics with_label_values target
                  (loop_from more)
                  (if fit then some (flush_meters counts) else none)
                ≡ some out
              → AddsUp
                  (records + sum_for policy alias (λ r. 1) topic p (polled ((true, r ∷ rs) ∷ more)))
                  (bytes
                    + sum_for policy alias
                        (λ r. length r.value)
                        topic
                        p
                        (polled ((true, r ∷ rs) ∷ more)))
                  out
          by_fit false rest e = cc e
          by_fit true rest e =
              let (n, size) = rest e in
              (
                omega
                    (arith, n, sum_for-append policy alias (λ r. 1) topic p (r ∷ rs) (polled more)),
                omega (
                  arith,
                  size,
                  sum_for-append policy alias (λ r. length r.value) topic p (r ∷ rs) (polled more),
                ),
              )

      -- Where the decimal form of a partition has no colon and different partitions have different
      -- ones: if the loop comes to its end, then whatever the polls bring and in whichever rounds the
      -- counters are flushed, RecordsReplicated has, under the labels of a topic and a partition, the
      -- number of the polled records whose copies have this topic and partition, and BytesReplicated
      -- the sum of the lengths of their values.
      pub meter_polls-Counted :
          (polls : List (Bool × List SourceRecord)) (added : List Sample)
          → loop_from polls new_meters ≡ some added
          → AddsUp
              (sum_for policy alias (λ r. 1) topic p (polled polls))
              (sum_for policy alias (λ r. length r.value) topic p (polled polls))
              added
      unfolding lookup
      meter_polls-Counted polls added e =
          let first : Balance 0 0 new_meters = record {
            counted = refl;
            sized = refl;
            keyed = tt;
            together = λ h. refl;
          } in
          let (n, size) = meter_polls-Counted_from polls 0 0 new_meters added first e in
          (omega (arith, n), omega (arith, size))
