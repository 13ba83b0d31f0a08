-- ===== src/Offset/Store.antt =====
-- internal/offset/sync_store.go. Each method holds the store's mutex from its first to its last
-- line, so a call is one step: it takes the store and returns the new one. `String` only formats a
-- log line and is left out.
pub mod Spacing
pub mod Handling
pub mod Contents
pub mod Translation
mod Tests
use gomm.Prelude.{
  ℕ, zero, suc, ◌+◌, ◌-◌, ◌^◌, Bool, true, false, not, ◌&&◌, List, [], ◌∷◌, Option, none, some,
  get_or, set, replicate, if◌then◌else◌, lookup, insert, Int64, add64, sub64, lt64, le64, minus_one,
  Bytes,
}
use gomm.Types.{TopicPartition, OffsetSync, topic_partition_eq}

abbrev pub syncs_per_partition : ℕ
syncs_per_partition = 64

-- `[syncsPerPartition]types.OffsetSync`, a list of that length.
abbrev pub SyncArray : Type 0
SyncArray = List OffsetSync

pub record SyncStore : Type 0 where
  pub syncs : List (TopicPartition × SyncArray)
  pub initialized : Bool
  pub read_to_end : Bool

-- A zero OffsetSync stands for a read out of range, which the loops never make.
abbrev pub no_sync : OffsetSync
no_sync = record {
  topic_partition = record { topic = []; partition = 0 };
  upstream_offset = 0;
  downstream_offset = 0;
}

abbrev pub sync_at : SyncArray → ℕ → OffsetSync
sync_at a i = get_or a i no_sync

abbrev pub upstream_at : SyncArray → ℕ → Int64
upstream_at a i = (sync_at a i).upstream_offset

unfoldable pub new_sync_store : SyncStore
new_sync_store = record { syncs = []; initialized = false; read_to_end = false }

unfoldable pub mark_read_to_end : SyncStore → SyncStore
mark_read_to_end s = record s { read_to_end = true; initialized = true }

unfoldable pub is_ready : SyncStore → Bool
is_ready s = s.read_to_end

-- The three loops that put one sync into every slot.
unfoldable pub fill : OffsetSync → SyncArray
fill sync = replicate syncs_per_partition sync

-- `1 << i` at int64; `i` is below 64.
abbrev pub shift_one : ℕ → Int64
shift_one i = 2 ^ i

-- updated[i].UpstreamOffset + (1 << i) - (1 << prev), from the left, wrapping.
abbrev pub spacing_bound : SyncArray → ℕ → Int64
spacing_bound a i = sub64 (add64 (upstream_at a i) (shift_one i)) (shift_one (i - 1))

-- The test of the loop: the bound did not overflow and the previous slot lies within it.
abbrev pub holds_spacing : SyncArray → ℕ → Bool
holds_spacing a i = le64 0 (spacing_bound a i) && le64 (upstream_at a (i - 1)) (spacing_bound a i)

-- for i := …; i < syncsPerPartition; i++, with the rounds left first.
unfoldable pub repair : ℕ → ℕ → SyncArray → SyncArray
repair zero i a = a
repair (suc rounds) i a =
    let rest = repair rounds (i + 1) (set a i (sync_at a (i - 1))) in
    if holds_spacing a i then a else rest

unfoldable pub normal_update : OffsetSync → SyncArray → SyncArray
unfolding repair
normal_update sync existing = repair 63 1 (set existing 0 sync)

-- What HandleSync stores for the partition, from what it finds.
unfoldable pub updated_array : Bool → OffsetSync → Option SyncArray → SyncArray
updated_array ready sync none = fill sync
updated_array ready sync (some existing) =
    if lt64 sync.upstream_offset (upstream_at existing 0)
    then fill sync
    else if not ready
    then fill sync
    else normal_update sync existing

unfoldable pub handle_sync : SyncStore → OffsetSync → SyncStore
handle_sync s sync =
    let tp = sync.topic_partition in
    record s { syncs = insert tp (updated_array s.read_to_end sync (lookup tp s.syncs)) s.syncs }

-- The loop of TranslateDownstream over the slots, the latest first.
unfoldable pub find_translation : Int64 → SyncArray → Int64
find_translation upstream [] = minus_one
find_translation upstream (sync ∷ older) =
    let rest = find_translation upstream older in
    if le64 sync.upstream_offset upstream
    then add64 sync.downstream_offset (if lt64 sync.upstream_offset upstream then 1 else 0)
    else rest

-- The offset, and whether a translation is available.
unfoldable pub translate_downstream : SyncStore → TopicPartition → Int64 → Int64 × Bool
unfolding find_translation
translate_downstream s tp upstream =
    if not s.read_to_end then (minus_one, false) else elim (lookup tp s.syncs) [
      | none ↦ (minus_one, false)
      | some a ↦ (find_translation upstream a, true)
    ]
