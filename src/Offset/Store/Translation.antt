-- ===== src/Offset/Store/Translation.antt =====
-- internal/offset/sync_store.go: what TranslateDownstream answers.
use mathlib.Core.Path.{subst}
use gomm.Prelude.{
  ℕ, zero, suc, ◌+◌, ◌-◌, ◌^◌, ◌≤◌, ◌<◌, ◌≡◌, refl, ap, ◌⊎◌, ◌↔◌, inl, inr, true, false, List, [],
  ◌∷◌, none, some, arith, Bool-cases, Option-cases, length, All, lookup, Int64, rank, add64, lt64,
  le64, minus_one, if◌then◌else◌,
}
use gomm.Types.{TopicPartition, OffsetSync, topic_partition_eq}
use gomm.Offset.Store.{
  SyncArray, SyncStore, sync_at, upstream_at, find_translation, translate_downstream,
}
use gomm.Offset.Store.Spacing.{IsSpaced}
use gomm.Offset.Store.Handling.{IsValidStore}
use gomm.Offset.Store.Contents.{Reached, Reached-slots}

-- The answer that one slot gives: its downstream offset, or the next one.
abbrev pub translated : Int64 → OffsetSync → Int64
translated upstream sync =
    add64 sync.downstream_offset (if lt64 sync.upstream_offset upstream then 1 else 0)

-- Slot `k` is the first that is no later than the offset asked for, and answers.
pub record AnsweredBy (upstream : Int64) (a : SyncArray) (k : ℕ) (answer : Int64) : Type 0 where
  pub inside : k < length a
  pub reaches : rank (upstream_at a k) ≤ rank upstream
  pub newer_skipped : (j : ℕ) → j < k → rank upstream < rank (upstream_at a j)
  pub says : answer ≡ translated upstream (sync_at a k)

-- No slot is early enough.
pub record TooOld (upstream : Int64) (a : SyncArray) (answer : Int64) : Type 0 where
  pub all_later : (j : ℕ) → j < length a → rank upstream < rank (upstream_at a j)
  pub none_known : answer ≡ minus_one

find_translation_lem :
    (upstream : Int64) (a : SyncArray)
    → TooOld upstream a (find_translation upstream a)
      ⊎ ((k : ℕ) × AnsweredBy upstream a k (find_translation upstream a))
unfolding find_translation
find_translation_lem u [] =
    inl (record { all_later = λ j h. absurd (omega arith); none_known = refl })
find_translation_lem u (sync ∷ older) = elim (Bool-cases (le64 sync.upstream_offset u)) [
  | inl early ↦ rw early (
      inr (
        0,
        record {
          inside = omega arith;
          reaches = ground arith;
          newer_skipped = λ j h. absurd (omega arith);
          says = refl;
        },
      ))
  | inr late ↦ rw late (further late (find_translation_lem u older))
]
  where
    skipped :
        le64 sync.upstream_offset u ≡ false
        → {n : ℕ} → ((j : ℕ) → j < n → rank u < rank (upstream_at older j))
        → (j : ℕ) → j < suc n
        → rank u < rank (upstream_at (sync ∷ older) j)
    skipped late h zero q = ground arith
    skipped late h (suc j) q = h j (omega arith)

    further :
        {answer : Int64}
        → le64 sync.upstream_offset u ≡ false
        → TooOld u older answer ⊎ ((k : ℕ) × AnsweredBy u older k answer)
        → TooOld u (sync ∷ older) answer ⊎ ((k : ℕ) × AnsweredBy u (sync ∷ older) k answer)
    further late (inl t) =
        inl (record { all_later = skipped late t.all_later; none_known = t.none_known })
    further late (inr (k, b)) = inr (
      suc k,
      record {
        inside = omega (arith, b.inside);
        reaches = b.reaches;
        newer_skipped = skipped late b.newer_skipped;
        says = b.says;
      },
    )

translate_ready :
    (s : SyncStore) (tp : TopicPartition) (u : Int64) (a : SyncArray)
    → s.read_to_end ≡ true
    → lookup tp s.syncs ≡ some a
    → translate_downstream s tp u ≡ (find_translation u a, true)
unfolding translate_downstream
translate_ready s tp u a ready e = rw (ready, e)

translate_found :
    (s : SyncStore) (tp : TopicPartition) (u : Int64)
    → (translate_downstream s tp u).1 ≡ true
    → (s.read_to_end ≡ true) × ((a : SyncArray) × (lookup tp s.syncs ≡ some a))
unfolding translate_downstream
translate_found s tp u h = elim (Option-cases (lookup tp s.syncs)) [
  | inl missing ↦ absurd (no_array missing)
  | inr (a, found) ↦ (ground arith, (a, found))
]
  where
    no_array : lookup tp s.syncs ≡ none → ⊥
    no_array missing = ground arith

-- TranslateDownstream has an answer exactly when the store is ready and knows the partition;
-- otherwise it gives -1.
pub translate_available_iff :
    (s : SyncStore) (tp : TopicPartition) (u : Int64)
    → ((translate_downstream s tp u).1 ≡ true)
      ↔ ((s.read_to_end ≡ true) × ((a : SyncArray) × (lookup tp s.syncs ≡ some a)))
translate_available_iff s tp u =
    (translate_found s tp u, λ r. ap (λ t. t.1) (translate_ready s tp u r.1.0 r.0 r.1.1))

near_suc :
    (a : SyncArray) (k : ℕ)
    → IsSpaced a
    → suc k < 64
    → rank (upstream_at a k) ≤ rank (upstream_at a (suc k)) + 2 ^ k
near_suc a k s h =
    let e : suc k - 1 ≡ k = omega arith in
    subst (λ j. rank (upstream_at a j) ≤ rank (upstream_at a (suc k)) + 2 ^ j) e
      (s.near (suc k) (omega arith) h)

-- In a ready store with valid arrays, TranslateDownstream for a known partition answers by the
-- first slot that is no later than the offset asked for; unless that is the latest sync, the
-- offset lies less than 2^(k-1) beyond slot k. Where every slot is later, the answer is -1.
pub translate_precision :
    (s : SyncStore) (tp : TopicPartition) (u : Int64) (a : SyncArray)
    → IsValidStore s
    → s.read_to_end ≡ true
    → lookup tp s.syncs ≡ some a
    → TooOld u a (translate_downstream s tp u).0
      ⊎ ((k : ℕ) × AnsweredBy u a k (translate_downstream s tp u).0
          × ((k ≡ 0) ⊎ (rank u < rank (upstream_at a k) + 2 ^ (k - 1))))
translate_precision s tp u a v ready e =
    rw (translate_ready s tp u a ready e) (close (find_translation_lem u a))
  where
    precise :
        (k : ℕ)
        → rank u < rank (upstream_at a k)
        → rank (upstream_at a k) ≤ rank (upstream_at a (suc k)) + 2 ^ k
        → rank u < rank (upstream_at a (suc k)) + 2 ^ (suc k - 1)
    precise k p q =
        let e : k ≡ suc k - 1 = omega arith in
        subst (λ j. rank u < rank (upstream_at a (suc k)) + 2 ^ j) e (omega arith)

    near :
        (k : ℕ)
        → AnsweredBy u a k (find_translation u a)
        → (k ≡ 0) ⊎ (rank u < rank (upstream_at a k) + 2 ^ (k - 1))
    near zero b = inl refl
    near (suc k) b = inr (
        precise k (b.newer_skipped k (omega arith))
          (near_suc a k (v tp a e).spacing (omega (arith, b.inside, (v tp a e).spacing.full))))

    close :
        TooOld u a (find_translation u a) ⊎ ((k : ℕ) × AnsweredBy u a k (find_translation u a))
        → TooOld u a (find_translation u a)
          ⊎ ((k : ℕ) × AnsweredBy u a k (find_translation u a)
              × ((k ≡ 0) ⊎ (rank u < rank (upstream_at a k) + 2 ^ (k - 1))))
    close (inl t) = inl t
    close (inr (k, b)) = inr (k, b, near k b)

-- Where the target holds source offset `u` at `place u`, in the order of the source.
module _ (place : ℕ → ℕ) (order : (i j : ℕ) → i < j → place i < place j) where
  -- A sync that was recorded truly, between non-negative offsets.
  abbrev pub IsTrue : OffsetSync → Type 0
  IsTrue sync =
      (sync.upstream_offset < 2 ^ 63) × (sync.downstream_offset ≡ place sync.upstream_offset)

  find_translation_safe :
      (u : Int64) (a : SyncArray)
      → u < 2 ^ 63
      → place u < 2 ^ 63
      → All IsTrue a
      → (find_translation u a ≡ minus_one) ⊎ (find_translation u a ≤ place u)
  unfolding find_translation
  find_translation_safe u [] hu hp h = inl refl
  find_translation_safe u (sync ∷ older) hu hp h =
      ground (arith, order sync.upstream_offset u, find_translation_safe u older hu hp h.1)

  -- In every store that a run reaches from syncs that are true of a partition, an available
  -- translation of an offset below 2^63, whose place on the target is below 2^63 too, is -1 or at
  -- most that place: a consumer that resumes there misses no record.
  pub translate_safe :
      {l : List OffsetSync} {s : SyncStore} (tp : TopicPartition) (u : Int64)
      → Reached l s
      → All (λ sync. (sync.topic_partition ≡ tp) → IsTrue sync) l
      → u < 2 ^ 63
      → place u < 2 ^ 63
      → (translate_downstream s tp u).1 ≡ true
      → ((translate_downstream s tp u).0 ≡ minus_one) ⊎ ((translate_downstream s tp u).0 ≤ place u)
  translate_safe {s = s} tp u r h hu hp e =
      let found = translate_found s tp u e in
      rw (translate_ready s tp u found.1.0 found.0 found.1.1)
        (find_translation_safe u found.1.0 hu hp (Reached-slots IsTrue tp found.1.0 r h found.1.1))
