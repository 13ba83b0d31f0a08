-- ===== src/Offset/Store/Contents.antt =====
-- internal/offset/sync_store.go: where the stored syncs come from.
use mathlib.Core.Path.{subst}
use gomm.Prelude.{
  ℕ, zero, suc, ◌+◌, ◌-◌, ◌≡◌, refl, sym, inl, inr, Bool, true, false, not, List, [], ◌∷◌, Option,
  none, some, arith, Bool-cases, length, All, All-get_or, All-set, All-replicate, length-set, set,
  lookup, lookup-insert_found, IsInt64, lt64, if◌then◌else◌, ◌<◌,
}
use gomm.Types.{TopicPartition, OffsetSync, topic_partition_eq}
use gomm.Offset.Store.{
  SyncArray, SyncStore, sync_at, upstream_at, no_sync, fill, holds_spacing, repair, normal_update,
  updated_array, new_sync_store, mark_read_to_end, handle_sync,
}
use gomm.Offset.Store.Handling.{IsValidStore, handle_sync-IsValidStore}

module _ (P : OffsetSync → Type 0) where
  repair-All :
      (rounds i : ℕ) (a : SyncArray)
      → 0 < i
      → rounds + i ≡ 64
      → length a ≡ 64
      → All P a
      → All P (repair rounds i a)
  unfolding repair
  repair-All zero i a low e full h = h
  repair-All (suc rounds) i a low e full h = elim (Bool-cases (holds_spacing a i)) [
    | inl stop ↦ rw stop h
    | inr go ↦ rw go (
        repair-All rounds (i + 1) (set a i (sync_at a (i - 1))) (omega arith) (omega arith)
          (omega (arith, length-set a i (sync_at a (i - 1))))
          (All-set P a i (sync_at a (i - 1)) h (All-get_or P a (i - 1) no_sync h (omega arith))))
  ]

  updated_array-All :
      (ready : Bool) (sync : OffsetSync) (o : Option SyncArray)
      → P sync
      → ((a : SyncArray) → o ≡ some a → All P a × (length a ≡ 64))
      → All P (updated_array ready sync o)
  unfolding updated_array fill normal_update
  updated_array-All ready sync none p h = All-replicate P 64 sync p
  updated_array-All ready sync (some a) p h =
      elim (Bool-cases (lt64 sync.upstream_offset (upstream_at a 0))) [
        | inl rewind ↦ rw rewind (All-replicate P 64 sync p)
        | inr onward ↦ rw onward (by_phase ready)
      ]
    where
      by_phase : (r : Bool) → All P (if not r then fill sync else normal_update sync a)
      by_phase true =
          repair-All 63 1 (set a 0 sync) (omega arith) refl
            (omega (arith, length-set a 0 sync, (h a refl).1)) (All-set P a 0 sync (h a refl).0 p)
      by_phase false = All-replicate P 64 sync p

-- The stores that a run of the program can have, with the syncs handled so far, the last first.
pub data Reached : List OffsetSync → SyncStore → Type 0 where
  fresh : Reached [] new_sync_store
  handled :
      {l : List OffsetSync} {s : SyncStore}
      → Reached l s
      → (sync : OffsetSync) → IsInt64 sync.upstream_offset
      → Reached (sync ∷ l) (handle_sync s sync)
  marked : {l : List OffsetSync} {s : SyncStore} → Reached l s → Reached l (mark_read_to_end s)

-- Every store that a run reaches has valid arrays.
pub Reached-IsValidStore : {l : List OffsetSync} {s : SyncStore} → Reached l s → IsValidStore s
unfolding new_sync_store mark_read_to_end lookup
Reached-IsValidStore fresh tp a e = cc
Reached-IsValidStore (handled {s = s} r sync h) tp a e =
    handle_sync-IsValidStore s sync h (Reached-IsValidStore r) tp a e
Reached-IsValidStore (marked r) tp a e = Reached-IsValidStore r tp a e

-- In every store that a run reaches, all 64 slots of a partition hold syncs that were handled for
-- that partition: what holds of all of those holds of the slots.
pub Reached-slots :
    {l : List OffsetSync} {s : SyncStore} (P : OffsetSync → Type 0) (tp : TopicPartition)
    (a : SyncArray)
    → Reached l s
    → All (λ sync. (sync.topic_partition ≡ tp) → P sync) l
    → lookup tp s.syncs ≡ some a
    → All P a
unfolding new_sync_store mark_read_to_end handle_sync lookup
Reached-slots P tp a fresh h e = cc
Reached-slots P tp a (handled {s = s} r sync q) h e =
    let found = lookup sync.topic_partition s.syncs in
    elim (lookup-insert_found sync.topic_partition tp (updated_array s.read_to_end sync found) a
      s.syncs e) [
        | inl new ↦ subst (All P) (sym new.1) (
            updated_array-All P s.read_to_end sync found (h.0 new.0) (λ b eb. (
              Reached-slots P tp b r h.1 (subst (λ k. lookup k s.syncs ≡ some b) new.0 eb),
              (Reached-IsValidStore r sync.topic_partition b eb).spacing.full,
            )))
        | inr old ↦ Reached-slots P tp a r h.1 old
      ]
Reached-slots P tp a (marked r) h e = Reached-slots P tp a r h e
