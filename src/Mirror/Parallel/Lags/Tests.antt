-- ===== src/Mirror/Parallel/Lags/Tests.antt =====
-- internal/mirror/parallel_source.go: the lags of a topic with two partitions.
use gomm.Prelude.{
  ℕ, ◌≡◌, ◌⊎◌, refl, true, List, [], ◌∷◌, none, some, bytes_beq, codes, insert, lookup,
}
use gomm.Mirror.Parallel.Lags.{
  CommittedOffset, ListedOffset, LagClient, committed_at, high_watermark, LagMap, collect_lags,
  get_partition_lag, get_all_partition_lags,
}
use gomm.Mirror.Parallel.Lags.Agreement.{lag_in, lags_agree}

abbrev ends : List ListedOffset
ends =
    record { topic = codes "a"; partition = 0; offset = 90 }
    ∷ record { topic = codes "a"; partition = 1; offset = 70 }
    ∷ []

abbrev committed : List CommittedOffset
committed = record { topic = codes "a"; partition = 1; at = 30 } ∷ []

abbrev client : LagClient
client = record {
  builds_opts = true;
  connects = true;
  fetch_offsets = some committed;
  list_end_offsets = λ topics. some ends;
}

abbrev lags : LagMap
lags = (codes "a", (0, (0, 90)) ∷ (1, (30, 70)) ∷ []) ∷ []

lags_agree_example :
    (lag_in lags (codes "a") 1 ≡ some (30, 70))
    ⊎ ((lag_in lags (codes "a") 1 ≡ none) × (◌≡◌ {A = ℕ} 70 0))
unfolding get_all_partition_lags get_partition_lag collect_lags committed_at high_watermark insert
    lookup bytes_beq
lags_agree_example =
    lags_agree client (codes "a" ∷ []) (codes "a") 1 lags (30, 70) refl refl (λ e f h k. cc (h, k))
