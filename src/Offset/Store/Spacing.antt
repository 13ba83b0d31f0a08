-- ===== src/Offset/Store/Spacing.antt =====
-- internal/offset/sync_store.go: the order and the exponential spacing of the slots.
use native.Mathlib.Nat.{add-zero, add-suc, pow-suc, pow-le-pow_right}
use gomm.Prelude.{
  ℕ, ap, ◌∙◌, if◌then◌else◌, nat_beq, nat_beq_iff, zero, suc, ◌+◌, ◌-◌, ◌*◌, ◌^◌, ◌≤◌, ◌<◌, ◌≡◌,
  ◌≢◌, inl, inr, refl, true, arith, Bool-cases, length, length-set, get_or-set_self, get_or-set_ne,
  set, rank, IsInt64,
}
use mathlib.Core.Path.{subst}
use native.Mathlib.Decide.{ℕ_discrete}
use gomm.Types.{OffsetSync, topic_partition_eq}
use gomm.Offset.Store.{SyncArray, no_sync, sync_at, upstream_at, holds_spacing, repair}

-- A slot is no later than the one before it.
abbrev pub IsLater : SyncArray → ℕ → Type 0
IsLater a i = rank (upstream_at a i) ≤ rank (upstream_at a (i - 1))

-- A slot is at most 2^(i-1) behind the one before it.
abbrev pub IsNear : SyncArray → ℕ → Type 0
IsNear a i = rank (upstream_at a (i - 1)) ≤ rank (upstream_at a i) + 2 ^ (i - 1)

-- The array of one partition: 64 slots, from the latest sync back, each at most 2^(i-1) offsets
-- behind the one before it.
pub record IsSpaced (a : SyncArray) : Type 0 where
  pub full : length a ≡ 64
  pub later : (i : ℕ) → 0 < i → i < 64 → IsLater a i
  pub near : (i : ℕ) → 0 < i → i < 64 → IsNear a i

pow-le : (i k : ℕ) → i ≤ k → 2 ^ i ≤ 2 ^ k
pow-le i k h = pow-le-pow_right {n = 2} (omega arith) h

pow-pred : (i : ℕ) → 0 < i → 2 ^ i ≡ 2 ^ (i - 1) * 2
pow-pred i h =
    let e : i ≡ suc (i - 1) = omega arith in
    rw e (pow-suc 2 (i - 1) ∙ ap (λ k. 2 ^ k * 2) (omega arith))

-- Where the loop's test passes, the slot is near: its bound did not overflow.
holds-IsNear :
    (a : SyncArray) (i : ℕ)
    → 0 < i
    → i < 64
    → IsInt64 (upstream_at a (i - 1))
    → IsInt64 (upstream_at a i)
    → holds_spacing a i ≡ true
    → IsNear a i
holds-IsNear a i low high hq hi h = ground (arith, pow-le (i - 1) 62 (omega arith), pow-pred i)

-- A write to slot `i`, seen at slot `j`.
pub upstream-set :
    (a : SyncArray) (i j : ℕ) (v : OffsetSync)
    → i < length a
    → upstream_at (set a i v) j ≡ (if nat_beq i j then v.upstream_offset else upstream_at a j)
upstream-set a i j v h = elim (ℕ_discrete i j) [
  | yes e ↦ self e
  | no ne ↦
      ground
        (arith, nat_beq_iff i j, ap (λ s. s.upstream_offset) (get_or-set_ne a i j v no_sync ne))
]
  where
    self :
        i ≡ j
        → upstream_at (set a i v) j ≡ (if nat_beq i j then v.upstream_offset else upstream_at a j)
    self e =
        rw (← e) (ground (arith, ap (λ s. s.upstream_offset) (get_or-set_self a i v no_sync h)))

-- Before round `i` of the loop every slot but `i` is near the one before it.
pub record InRound (i : ℕ) (a : SyncArray) : Type 0 where
  pub size : length a ≡ 64
  pub ranged : (j : ℕ) → j < 64 → IsInt64 (upstream_at a j)
  pub ordered : (j : ℕ) → 0 < j → j < 64 → IsLater a j
  pub nearby : (j : ℕ) → 0 < j → j < 64 → i ≢ j → IsNear a j

module _ (i : ℕ) (a : SyncArray) (low : 0 < i) (high : i < 64) (h : InRound i a) where
  abbrev moved : SyncArray
  moved = set a i (sync_at a (i - 1))

  -- A repaired slot keeps the order, and is near; only the next one may now be too far.
  moved-InRound : InRound (i + 1) moved
  moved-InRound = record {
    size = omega (arith, length-set a i (sync_at a (i - 1)), h.size);
    ranged = λ j hj.
        ground
          (arith, upstream-set a i j (sync_at a (i - 1)), h.size, h.ranged j, h.ranged (i - 1));
    ordered = λ j p q. ground (
      arith,
      upstream-set a i j (sync_at a (i - 1)),
      upstream-set a i (j - 1) (sync_at a (i - 1)),
      h.size,
      h.ordered j,
      h.ordered i,
      h.ordered (i + 1),
    );
    nearby = λ j p q ne. ground (
      arith,
      upstream-set a i j (sync_at a (i - 1)),
      upstream-set a i (j - 1) (sync_at a (i - 1)),
      h.size,
      h.nearby j,
      h.nearby i,
    );
  }

  passed-IsSpaced : holds_spacing a i ≡ true → IsSpaced a
  passed-IsSpaced e = record {
    full = h.size;
    later = h.ordered;
    near = λ j p q. elim (ℕ_discrete i j) [
      | yes same ↦
          subst (IsNear a) same
            (holds-IsNear a i low high (h.ranged (i - 1) (omega arith)) (h.ranged i high) e)
      | no ne ↦ h.nearby j p q ne
    ];
  }

-- The loop, from any round on, leaves a spaced array with int64 offsets and the same first slot.
pub record Repaired (a b : SyncArray) : Type 0 where
  pub spaced : IsSpaced b
  pub in_range : (j : ℕ) → j < 64 → IsInt64 (upstream_at b j)
  pub first : sync_at b 0 ≡ sync_at a 0

pub repair-Repaired :
    (rounds i : ℕ) (a : SyncArray)
    → 0 < i
    → rounds + i ≡ 64
    → InRound i a
    → Repaired a (repair rounds i a)
unfolding repair
repair-Repaired zero i a low e h = record {
  spaced = record {
    full = h.size;
    later = h.ordered;
    near = λ j p q. h.nearby j p q (omega arith);
  };
  in_range = h.ranged;
  first = refl;
}
repair-Repaired (suc rounds) i a low e h = elim (Bool-cases (holds_spacing a i)) [
  | inl stop ↦ rw stop (record {
    spaced = passed-IsSpaced i a low (omega arith) h stop;
    in_range = h.ranged;
    first = refl;
  })
  | inr go ↦ rw go (
      after (
        repair-Repaired rounds (i + 1) (set a i (sync_at a (i - 1))) (omega arith) (omega arith)
          (moved-InRound i a low (omega arith) h)))
]
  where
    after : {b : SyncArray} → Repaired (set a i (sync_at a (i - 1))) b → Repaired a b
    after r = record {
      spaced = r.spaced;
      in_range = r.in_range;
      first = r.first ∙ get_or-set_ne a i 0 (sync_at a (i - 1)) no_sync (omega arith);
    }

-- What HandleSync stores keeps the invariant: a spaced array, its offsets int64 values.
pub record IsValid (a : SyncArray) : Type 0 where
  pub spacing : IsSpaced a
  pub ranged : (i : ℕ) → i < 64 → IsInt64 (upstream_at a i)

pow-positive : (i : ℕ) → 1 ≤ 2 ^ i
pow-positive i = pow-le 0 i (omega arith)

pairs_from :
    (a : SyncArray) (j k : ℕ)
    → IsSpaced a
    → j + k < 64
    → (rank (upstream_at a (j + k)) ≤ rank (upstream_at a j))
      × (rank (upstream_at a j) + 2 ^ j ≤ rank (upstream_at a (j + k)) + 2 ^ (j + k))
pairs_from a j zero s h = rw add-zero (omega arith)
pairs_from a j (suc k) s h = ground (
  arith,
  pairs_from a j k s,
  s.later (suc (j + k)),
  s.near (suc (j + k)),
  pow-pred (suc (j + k)),
  add-suc j k,
)

-- In a spaced array any slot i is no later than an earlier slot j, and behind it by at most
-- 2^i - 2^j offsets.
pub spaced_pairs :
    (a : SyncArray) (i j : ℕ)
    → IsSpaced a
    → j ≤ i
    → i < 64
    → (rank (upstream_at a i) ≤ rank (upstream_at a j))
      × (rank (upstream_at a j) + 2 ^ j ≤ rank (upstream_at a i) + 2 ^ i)
spaced_pairs a i j s h q =
    let e : j + (i - j) ≡ i = omega arith in rw e at (pairs_from a j (i - j) s (omega arith))
