-- ===== src/Offset/Store/Handling.antt =====
-- internal/offset/sync_store.go: what HandleSync stores, on each of its branches.
use gomm.Prelude.{
  ℕ, ap, ◌∙◌, if◌then◌else◌, ◌-◌, ◌≤◌, ◌<◌, ◌≡◌, ◌⊎◌, inl, inr, refl, Bool, true, false, Option,
  none, some, arith, Bool-cases, length, length-set, get_or-set_self, get_or-replicate,
  length-replicate, set, rank, IsInt64, lt64, not, lookup, lookup-insert_self, lookup-insert_found,
  lookup-insert_ne, sym,
}
use mathlib.Core.Path.{subst}
use gomm.Types.{TopicPartition, OffsetSync, topic_partition_eq}
use gomm.Offset.Store.{
  SyncArray, no_sync, sync_at, upstream_at, fill, normal_update, updated_array, SyncStore,
  handle_sync,
}
use gomm.Offset.Store.Spacing.{InRound, Repaired, IsValid, upstream-set, repair-Repaired}

pub sync-fill : (sync : OffsetSync) (i : ℕ) → i < 64 → sync_at (fill sync) i ≡ sync
unfolding fill
sync-fill sync i h = get_or-replicate 64 i sync no_sync h

upstream-fill :
    (sync : OffsetSync) (i : ℕ) → i < 64 → upstream_at (fill sync) i ≡ sync.upstream_offset
upstream-fill sync i h = ap (λ s. s.upstream_offset) (sync-fill sync i h)

fill-full : (sync : OffsetSync) → length (fill sync) ≡ 64
unfolding fill
fill-full sync = length-replicate 64 sync

fill-IsValid : (sync : OffsetSync) → IsInt64 sync.upstream_offset → IsValid (fill sync)
fill-IsValid sync h = record {
  spacing = record {
    full = fill-full sync;
    later =
        λ i p q. omega (arith, upstream-fill sync i q, upstream-fill sync (i - 1) (omega arith));
    near = λ i p q. omega (arith, upstream-fill sync i q, upstream-fill sync (i - 1) (omega arith));
  };
  ranged = λ i q. omega (arith, upstream-fill sync i q);
}

-- The first slot takes a sync that is no earlier than the latest known.
latest-InRound :
    (sync : OffsetSync) (a : SyncArray)
    → IsInt64 sync.upstream_offset
    → IsValid a
    → rank (upstream_at a 0) ≤ rank sync.upstream_offset
    → InRound 1 (set a 0 sync)
latest-InRound sync a hs v le = record {
  size = omega (arith, length-set a 0 sync, v.spacing.full);
  ranged = λ j q. ground (arith, upstream-set a 0 j sync, v.spacing.full, v.ranged j);
  ordered = λ j p q. ground (
    arith,
    upstream-set a 0 j sync,
    upstream-set a 0 (j - 1) sync,
    v.spacing.full,
    v.spacing.later j,
  );
  nearby = λ j p q ne. ground (
    arith,
    upstream-set a 0 j sync,
    upstream-set a 0 (j - 1) sync,
    v.spacing.full,
    v.spacing.near j,
  );
}

normal_update-Repaired :
    (sync : OffsetSync) (a : SyncArray)
    → IsInt64 sync.upstream_offset
    → IsValid a
    → rank (upstream_at a 0) ≤ rank sync.upstream_offset
    → Repaired (set a 0 sync) (normal_update sync a)
unfolding normal_update
normal_update-Repaired sync a hs v le =
    repair-Repaired 63 1 (set a 0 sync) (omega arith) (omega arith) (latest-InRound sync a hs v le)

-- Whatever the branch, the stored array is valid and its first slot is the new sync.
record Stored (sync : OffsetSync) (a : SyncArray) : Type 0 where
  valid : IsValid a
  latest : sync_at a 0 ≡ sync

fill-Stored : (sync : OffsetSync) → IsInt64 sync.upstream_offset → Stored sync (fill sync)
fill-Stored sync h = record { valid = fill-IsValid sync h; latest = sync-fill sync 0 (omega arith) }

normal_update-Stored :
    (sync : OffsetSync) (a : SyncArray)
    → IsInt64 sync.upstream_offset
    → IsValid a
    → rank (upstream_at a 0) ≤ rank sync.upstream_offset
    → Stored sync (normal_update sync a)
normal_update-Stored sync a hs v le =
    let r = normal_update-Repaired sync a hs v le in
    record {
      valid = record { spacing = r.spaced; ranged = r.in_range };
      latest = r.first ∙ get_or-set_self a 0 sync no_sync (omega (arith, v.spacing.full));
    }

updated_array-Stored :
    (ready : Bool) (sync : OffsetSync) (o : Option SyncArray)
    → IsInt64 sync.upstream_offset
    → ((a : SyncArray) → o ≡ some a → IsValid a)
    → Stored sync (updated_array ready sync o)
unfolding updated_array
updated_array-Stored ready sync none hs hv = fill-Stored sync hs
updated_array-Stored ready sync (some a) hs hv =
    elim (Bool-cases (lt64 sync.upstream_offset (upstream_at a 0))) [
      | inl rewind ↦ rw rewind (fill-Stored sync hs)
      | inr onward ↦ rw onward (by_phase ready onward)
    ]
  where
    by_phase :
        (r : Bool)
        → lt64 sync.upstream_offset (upstream_at a 0) ≡ false
        → Stored sync (if not r then fill sync else normal_update sync a)
    by_phase true e = normal_update-Stored sync a hs (hv a refl) (ground arith)
    by_phase false e = fill-Stored sync hs

-- Every partition's array is valid.
abbrev pub IsValidStore : SyncStore → Type 0
IsValidStore s = (tp : TopicPartition) (a : SyncArray) → lookup tp s.syncs ≡ some a → IsValid a

-- HandleSync keeps every partition's array at 64 slots in order and exponentially spaced, in each
-- of its four branches, for a sync whose upstream offset is an int64.
pub handle_sync-IsValidStore :
    (s : SyncStore) (sync : OffsetSync)
    → IsInt64 sync.upstream_offset
    → IsValidStore s
    → IsValidStore (handle_sync s sync)
unfolding handle_sync
handle_sync-IsValidStore s sync hs v tp a e =
    let stored =
      updated_array-Stored s.read_to_end sync (lookup sync.topic_partition s.syncs) hs
        (v sync.topic_partition) in
    elim (lookup-insert_found sync.topic_partition tp
      (updated_array s.read_to_end sync (lookup sync.topic_partition s.syncs)) a s.syncs e) [
        | inl new ↦ subst IsValid (sym new.1) stored.valid
        | inr old ↦ v tp a old
      ]

-- After HandleSync the latest sync of its partition is the one handled, and every other
-- partition's slots are as they were.
pub lookup-handle_sync :
    (s : SyncStore) (sync : OffsetSync) (tp : TopicPartition)
    → IsInt64 sync.upstream_offset
    → IsValidStore s
    → ((a : SyncArray) × (lookup sync.topic_partition (handle_sync s sync).syncs ≡ some a)
        × (sync_at a 0 ≡ sync))
      × ((sync.topic_partition ≡ tp) ⊎ (lookup tp (handle_sync s sync).syncs ≡ lookup tp s.syncs))
unfolding handle_sync
lookup-handle_sync s sync tp hs v =
    let next = updated_array s.read_to_end sync (lookup sync.topic_partition s.syncs) in
    (
      (
        next,
        lookup-insert_self sync.topic_partition next s.syncs,
        (updated_array-Stored s.read_to_end sync (lookup sync.topic_partition s.syncs) hs
            (v sync.topic_partition)).latest,
      ),
      lookup-insert_ne sync.topic_partition tp next s.syncs,
    )
