-- ===== src/Mirror/Meters/Counting.antt =====
-- internal/mirror/source.go: every record is counted once, whenever the counters are flushed.
use gomm.Prelude.{
  none, some, ℕ, ◌+◌, ◌≡◌, refl, sym, ap, ◌∙◌, inl, inr, Bool, true, false, ◌&&◌, List, [], ◌∷◌,
  ◌++◌, none, some, arith, length, Bytes, bytes_beq, bytes_beq_iff, bytes_eq, lookup, insert,
  lookup-insert, if◌then◌else◌, Bool-cases, nat_beq, nat_beq_iff,
}
use gomm.Policy.{ReplicationPolicy, format_remote_topic}
use gomm.Mirror.Source.{SourceRecord}
use gomm.Mirror.Meters.{
  Counts, Meters, or_zero, bump, split_key, metrics_key, count_record, count_records,
}
use gomm.Mirror.Meters.Flushing.{insert-WellKeyed, Accounts}
use gomm.Mirror.Meters.Keys.{NoColon, split_key-metrics_key}

lookup-bump :
    (key other : Bytes) (n : ℕ) (counts : Counts)
    → or_zero (lookup other (bump key n counts))
      ≡ (if bytes_beq key other then n else 0) + or_zero (lookup other counts)
lookup-bump key other n counts = elim (Bool-cases (bytes_beq key other)) [
  | inl same ↦
      let at : key ≡ other = (bytes_beq_iff key other).0 same in
      let found : lookup other (bump key n counts) ≡ some (or_zero (lookup key counts) + n) =
        lookup-insert key other (or_zero (lookup key counts) + n) counts ∙ rw same refl in
      rw same (omega (arith, ap or_zero found, ap (λ k. or_zero (lookup k counts)) at))
  | inr differ ↦
      let found : lookup other (bump key n counts) ≡ lookup other counts =
        lookup-insert key other (or_zero (lookup key counts) + n) counts ∙ rw differ refl in
      rw differ (omega (arith, ap or_zero found))
]

-- The records of all polls.
abbrev pub polled : List (Bool × List SourceRecord) → List SourceRecord
polled [] = []
polled ((due, records) ∷ more) = records ++ polled more

module _ (policy : ReplicationPolicy) (alias : Bytes) where
  -- A sum over the records whose copies have a topic and a partition.
  abbrev pub sum_for : (SourceRecord → ℕ) → Bytes → ℕ → List SourceRecord → ℕ
  sum_for g topic p [] = 0
  sum_for g topic p (r ∷ more) =
      (if bytes_beq (format_remote_topic policy alias r.topic) topic && nat_beq r.partition p
        then g r
        else 0)
      + sum_for g topic p more

  pub sum_for-append :
      (g : SourceRecord → ℕ) (topic : Bytes) (p : ℕ) (xs ys : List SourceRecord)
      → sum_for g topic p (xs ++ ys) ≡ sum_for g topic p xs + sum_for g topic p ys
  sum_for-append g topic p [] ys = omega arith
  sum_for-append g topic p (x ∷ xs) ys = omega (arith, sum_for-append g topic p xs ys)

  module _ (format_int : ℕ → Bytes) (clean : (n : ℕ) → NoColon (format_int n))
      (distinct : (m n : ℕ) → format_int m ≡ format_int n → m ≡ n) (topic : Bytes) (p : ℕ) where
    abbrev pub Balanced : ℕ → ℕ → Meters → Type 0
    Balanced records bytes m = Accounts topic (format_int p) records bytes m

    key_matches :
        (t : Bytes) (q : ℕ)
        → bytes_beq (metrics_key t (format_int q)) (metrics_key topic (format_int p))
          ≡ (bytes_beq t topic && nat_beq q p)
    key_matches t q =
        let key = metrics_key t (format_int q) in
        let wanted = metrics_key topic (format_int p) in
        elim (Bool-cases (bytes_beq key wanted)) [
          | inl same ↦
              let parts : (t, format_int q) ≡ (topic, format_int p) =
                sym (split_key-metrics_key t (format_int q) (clean q))
                ∙ ap split_key ((bytes_beq_iff key wanted).0 same)
                ∙ split_key-metrics_key topic (format_int p) (clean p) in
              let et : t ≡ topic = ap (λ (s : Bytes × Bytes). s.0) parts in
              let eq : q ≡ p = distinct q p (ap (λ (s : Bytes × Bytes). s.1) parts) in
              same
              ∙ sym (
                  both (bytes_beq t topic) (nat_beq q p) ((bytes_beq_iff t topic).1 et)
                    ((nat_beq_iff q p).1 eq))
          | inr other ↦ other ∙ sym (differing (bytes_beq t topic) (nat_beq q p) refl refl other)
        ]
      where
        both : (a b : Bool) → a ≡ true → b ≡ true → (a && b) ≡ true
        both a b ea eb = rw (ea, eb) refl

        differing :
            (a b : Bool)
            → bytes_beq t topic ≡ a
            → nat_beq q p ≡ b
            → bytes_beq (metrics_key t (format_int q)) (metrics_key topic (format_int p)) ≡ false
            → (a && b) ≡ false
        differing false b ea eb other = refl
        differing true false ea eb other = refl
        differing true true ea eb other =
            let at : metrics_key t (format_int q) ≡ metrics_key topic (format_int p) =
              ap (λ x. metrics_key x (format_int q)) ((bytes_beq_iff t topic).0 ea)
              ∙ ap (λ n. metrics_key topic (format_int n)) ((nat_beq_iff q p).0 eb) in
            cc (
              (bytes_beq_iff (metrics_key t (format_int q)) (metrics_key topic (format_int p))).1
                  at,
              other,
            )

    uncounted :
        (key : Bytes) (n : ℕ) (m : Meters) (size : ℕ)
        → (lookup (metrics_key topic (format_int p)) m.local_rec_counts ≡ none
            → or_zero (lookup (metrics_key topic (format_int p)) m.local_byte_counts) ≡ 0)
        → lookup (metrics_key topic (format_int p)) (insert key n m.local_rec_counts) ≡ none
        → or_zero (lookup (metrics_key topic (format_int p)) (bump key size m.local_byte_counts))
          ≡ 0
    uncounted key n m size h none_found =
        let wanted = metrics_key topic (format_int p) in
        let inserted = lookup-insert key wanted n m.local_rec_counts in
        elim (Bool-cases (bytes_beq key wanted)) [
          | inl same ↦
              let found : lookup wanted (insert key n m.local_rec_counts) ≡ some n =
                inserted ∙ rw same refl in
              cc (found, none_found)
          | inr other ↦
              let kept : lookup wanted (insert key n m.local_rec_counts)
                  ≡ lookup wanted m.local_rec_counts =
                inserted ∙ rw other refl in
              let bumped : or_zero (lookup wanted (bump key size m.local_byte_counts))
                  ≡ 0 + or_zero (lookup wanted m.local_byte_counts) =
                lookup-bump key wanted size m.local_byte_counts ∙ rw other refl in
              omega (arith, bumped, h (sym kept ∙ none_found))
        ]

    count_record-Balanced :
        (records bytes : ℕ) (m : Meters) (r : SourceRecord)
        → Balanced records bytes m
        → Balanced
            (records + sum_for (λ r. 1) topic p (r ∷ []))
            (bytes + sum_for (λ r. length r.value) topic p (r ∷ []))
            (count_record format_int policy alias m r)
    unfolding count_record
    count_record-Balanced records bytes m r a =
        let t = format_remote_topic policy alias r.topic in
        let key = metrics_key t (format_int r.partition) in
        let wanted = metrics_key topic (format_int p) in
        let same = key_matches t r.partition in
        record {
          counted = omega (
            arith,
            a.counted,
            lookup-bump key wanted 1 m.local_rec_counts,
            ap {B = ℕ} (λ b. if b then 1 else 0) same,
          );
          sized = omega (
            arith,
            a.sized,
            lookup-bump key wanted (length r.value) m.local_byte_counts,
            ap {B = ℕ} (λ b. if b then length r.value else 0) same,
          );
          keyed =
              insert-WellKeyed t (format_int r.partition) _ m.local_rec_counts (clean r.partition)
                a.keyed;
          together = λ none_found.
              uncounted key (or_zero (lookup key m.local_rec_counts) + 1) m (length r.value)
                a.together none_found;
        }

    pub count_records-Balanced :
        (rs : List SourceRecord) (records bytes : ℕ) (m : Meters)
        → Balanced records bytes m
        → Balanced
            (records + sum_for (λ r. 1) topic p rs)
            (bytes + sum_for (λ r. length r.value) topic p rs)
            (count_records format_int policy alias m rs)
    unfolding count_records
    count_records-Balanced [] records bytes m a = record {
      counted = omega (arith, a.counted);
      sized = omega (arith, a.sized);
      keyed = a.keyed;
      together = a.together;
    }
    count_records-Balanced (r ∷ rs) records bytes m a =
        let b =
          count_records-Balanced rs _ _ (count_record format_int policy alias m r)
            (count_record-Balanced records bytes m r a) in
        record {
          counted = omega (arith, b.counted);
          sized = omega (arith, b.sized);
          keyed = b.keyed;
          together = b.together;
        }
