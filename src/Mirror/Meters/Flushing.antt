-- ===== src/Mirror/Meters/Flushing.antt =====
-- internal/mirror/source.go: a flush of the counters moves what is kept to what has been added.
use mathlib.Core.Path.{subst}
use mathlib.Core.List.{map}
use gomm.Prelude.{
  ℕ, ◌+◌, ◌≡◌, refl, ap, ◌∙◌, inl, inr, Bool, true, false, ◌&&◌, List, [], ◌∷◌, ◌++◌, Option, none,
  some, arith, Bytes, bytes_beq, bytes_beq_iff, bytes_eq, lookup, insert, lookup-insert,
  if◌then◌else◌, Bool-cases,
}
use gomm.Mirror.Meters.{
  Counts, Sample, Meters, or_zero, delete, split_key, sample_of, samples, delete_keys, flush_meters,
  metrics_key,
}
use gomm.Mirror.Meters.Keys.{NoColon, split_key-metrics_key}

-- What has been added under the labels of a topic and a partition.
abbrev pub total : (Sample → ℕ) → Bytes → Bytes → List Sample → ℕ
total g topic part [] = 0
total g topic part (s ∷ more) =
    (if bytes_beq s.topic topic && bytes_beq s.part part then g s else 0) + total g topic part more

total-append :
    (g : Sample → ℕ) (topic part : Bytes) (xs ys : List Sample)
    → total g topic part (xs ++ ys) ≡ total g topic part xs + total g topic part ys
total-append g topic part [] ys = omega arith
total-append g topic part (x ∷ xs) ys = omega (arith, total-append g topic part xs ys)

-- The keys are those of topics and partitions, each once.
abbrev pub WellKeyed : Counts → Type 0
WellKeyed [] = Unit {0}
WellKeyed ((key, n) ∷ more) =
    ((topic : Bytes) × (part : Bytes) × NoColon part × (key ≡ metrics_key topic part))
    × (lookup key more ≡ none)
    × WellKeyed more

pub insert-WellKeyed :
    (topic part : Bytes) (n : ℕ) (counts : Counts)
    → NoColon part
    → WellKeyed counts
    → WellKeyed (insert (metrics_key topic part) n counts)
unfolding insert lookup
insert-WellKeyed topic part n [] clean h = ((topic, part, clean, refl), refl, tt)
insert-WellKeyed topic part n ((key, old) ∷ more) clean (keyed, fresh, h) =
    elim (Bool-cases (bytes_beq key (metrics_key topic part))) [
      | inl same ↦
          let e = (bytes_beq_iff key (metrics_key topic part)).0 same in
          rw same ((topic, part, clean, refl), subst (λ k. lookup k more ≡ none) e fresh, h)
      | inr other ↦ rw other (
        keyed,
        ground (
          arith,
          lookup-insert (metrics_key topic part) key n more,
          bytes_beq_iff key (metrics_key topic part),
          bytes_beq_iff (metrics_key topic part) key,
        ),
        insert-WellKeyed topic part n more clean h,
      )
    ]

-- What a flush adds under a key.
abbrev at_key : (Sample → ℕ) → Counts → Bytes → Option ℕ → ℕ
at_key g byte_counts key none = 0
at_key g byte_counts key (some n) = g (sample_of byte_counts (key, n))

module _ (g : Sample → ℕ) (byte_counts : Counts) (topic part : Bytes) where
  total-samples :
      (counts : Counts)
      → NoColon part
      → WellKeyed counts
      → total g topic part (map (sample_of byte_counts) counts)
        ≡ at_key g byte_counts (metrics_key topic part) (lookup (metrics_key topic part) counts)
  unfolding lookup
  total-samples [] clean h = refl
  total-samples ((key, n) ∷ more) clean ((t, d, clean_d, e), fresh, h) =
      elim (Bool-cases (bytes_beq key (metrics_key topic part))) [
        | inl same ↦
            let at : key ≡ metrics_key topic part =
              (bytes_beq_iff key (metrics_key topic part)).0 same in
            let parts : split_key key ≡ (topic, part) =
              ap split_key at ∙ split_key-metrics_key topic part clean in
            let matches : (bytes_beq (split_key key).0 topic && bytes_beq (split_key key).1 part)
                ≡ true =
              ap (λ (q : Bytes × Bytes). bytes_beq q.0 topic && bytes_beq q.1 part) parts
              ∙ ground (arith, bytes_beq_iff topic topic, bytes_beq_iff part part) in
            let others =
              total-samples more clean h
              ∙ ap (at_key g byte_counts (metrics_key topic part))
                  (subst (λ k. lookup k more ≡ none) at fresh) in
            let here = ap (λ k. g (sample_of byte_counts (k, n))) at in
            rw (same, matches) (omega (arith, others, here))
        | inr other ↦
            let parts : split_key key ≡ (t, d) =
              ap split_key e ∙ split_key-metrics_key t d clean_d in
            let differ : (bytes_beq t topic && bytes_beq d part) ≡ false =
              differing (bytes_beq t topic) (bytes_beq d part) refl refl other in
            let off : (bytes_beq (split_key key).0 topic && bytes_beq (split_key key).1 part)
                ≡ false =
              ap (λ (q : Bytes × Bytes). bytes_beq q.0 topic && bytes_beq q.1 part) parts
              ∙ differ in
            rw (other, off) (omega (arith, total-samples more clean h))
      ]
    where
      differing :
          (a b : Bool)
          → bytes_beq t topic ≡ a
          → bytes_beq d part ≡ b
          → bytes_beq key (metrics_key topic part) ≡ false
          → (a && b) ≡ false
      differing false b ea eb other = refl
      differing true false ea eb other = refl
      differing true true ea eb other =
          let et = (bytes_beq_iff t topic).0 ea in
          let ed = (bytes_beq_iff d part).0 eb in
          let at : key ≡ metrics_key topic part =
            e ∙ ap (λ x. metrics_key x d) et ∙ ap (metrics_key topic) ed in
          cc ((bytes_beq_iff key (metrics_key topic part)).1 at, other)

lookup-delete :
    (key other : Bytes) (counts : Counts)
    → lookup other (delete key counts) ≡ (if bytes_beq key other then none else lookup other counts)
unfolding lookup
lookup-delete key other [] = ground arith
lookup-delete key other ((k, n) ∷ more) = ground (
  arith,
  lookup-delete key other more,
  bytes_beq_iff k key,
  bytes_beq_iff k other,
  bytes_beq_iff key other,
)

-- A flush takes nothing away from a key but what it adds.
abbrev left_at : Option ℕ → Option ℕ → Option ℕ
left_at none held = held
left_at (some n) held = none

left_at-none : (found : Option ℕ) → left_at found none ≡ none
left_at-none none = refl
left_at-none (some n) = refl

lookup-delete_keys :
    (key : Bytes) (counts held : Counts)
    → lookup key (delete_keys counts held) ≡ left_at (lookup key counts) (lookup key held)
unfolding lookup
lookup-delete_keys key [] held = refl
lookup-delete_keys key ((k, n) ∷ more) held = elim (Bool-cases (bytes_beq k key)) [
  | inl same ↦
      let gone : lookup key (delete k held) ≡ none = lookup-delete k key held ∙ rw same refl in
      rw same (
        lookup-delete_keys key more (delete k held)
        ∙ ap (left_at (lookup key more)) gone
        ∙ left_at-none (lookup key more))
  | inr other ↦
      let stays : lookup key (delete k held) ≡ lookup key held =
        lookup-delete k key held ∙ rw other refl in
      rw other (lookup-delete_keys key more (delete k held) ∙ ap (left_at (lookup key more)) stays)
]

-- Under the labels of a topic and a partition: what has been added, and what is still kept, is what
-- the records seen so far come to.
pub record Accounts (topic part : Bytes) (records bytes : ℕ) (m : Meters) : Type 0 where
  pub counted :
      total (λ s. s.records) topic part m.added
        + or_zero (lookup (metrics_key topic part) m.local_rec_counts)
      ≡ records
  pub sized :
      total (λ s. s.bytes) topic part m.added
        + or_zero (lookup (metrics_key topic part) m.local_byte_counts)
      ≡ bytes
  pub keyed : WellKeyed m.local_rec_counts
  pub together :
      lookup (metrics_key topic part) m.local_rec_counts ≡ none
      → or_zero (lookup (metrics_key topic part) m.local_byte_counts) ≡ 0

records_flushed :
    (byte_counts : Counts) (key : Bytes) (found : Option ℕ)
    → at_key (λ s. s.records) byte_counts key found ≡ or_zero found
records_flushed byte_counts key none = refl
records_flushed byte_counts key (some n) = refl

nothing_left :
    (found held : Option ℕ) → (found ≡ none → or_zero held ≡ 0) → or_zero (left_at found held) ≡ 0
nothing_left none held h = h refl
nothing_left (some n) held h = refl

bytes_flushed :
    (byte_counts : Counts) (key : Bytes) (found : Option ℕ)
    → at_key (λ s. s.bytes) byte_counts key found + or_zero (left_at found (lookup key byte_counts))
      ≡ or_zero (lookup key byte_counts)
bytes_flushed byte_counts key none = omega arith
bytes_flushed byte_counts key (some n) = omega arith

pub flush_meters-Accounts :
    (topic part : Bytes) (records bytes : ℕ) (m : Meters)
    → NoColon part
    → Accounts topic part records bytes m
    → Accounts topic part records bytes (flush_meters m)
unfolding flush_meters lookup
flush_meters-Accounts topic part records bytes m clean a =
    let key = metrics_key topic part in
    record {
      counted = omega (
        arith,
        a.counted,
        total-append (λ s. s.records) topic part m.added (samples m),
        total-samples (λ s. s.records) m.local_byte_counts topic part m.local_rec_counts clean
            a.keyed,
        records_flushed m.local_byte_counts key (lookup key m.local_rec_counts),
      );
      sized = omega (
        arith,
        a.sized,
        total-append (λ s. s.bytes) topic part m.added (samples m),
        total-samples (λ s. s.bytes) m.local_byte_counts topic part m.local_rec_counts clean
            a.keyed,
        bytes_flushed m.local_byte_counts key (lookup key m.local_rec_counts),
        ap or_zero (lookup-delete_keys key m.local_rec_counts m.local_byte_counts),
      );
      keyed = tt;
      together = λ none_left.
          ap or_zero (lookup-delete_keys key m.local_rec_counts m.local_byte_counts)
          ∙ nothing_left (lookup key m.local_rec_counts) (lookup key m.local_byte_counts)
              a.together;
    }
