-- ===== src/Engine/CatchUp/Tests.antt =====
-- internal/mirror/engine.go with parallel_source.go: a partition that is 200000 offsets behind.
use mathlib.Core.List.{Memᴰ}
use gomm.Prelude.{
  ℕ, ◌≤◌, ◌<◌, ◌≡◌, refl, true, false, List, [], ◌∷◌, ◌++◌, Option, some, arith, codes, bytes_beq,
  has_prefix,
}
use gomm.Policy.{default, new_policy}
use gomm.Mirror.Parallel.Lags.{lag_found}
use gomm.Mirror.Discovery.{TopicDiscovery, should_replicate}
use gomm.Engine.Tests.{prefixes, us_eu}
use gomm.Engine.CatchUp.Filters.{copy_caught_up}
use gomm.Mirror.Ring.{new_ring_buffer, put, drain_batch, batch}
use gomm.Mirror.Parallel.{planned, catch_up_plan}
use gomm.Engine.CatchUp.{
  Range, skips_topic, high_lag, ensure_target, catch_up, TopicState, topic_steps,
}
use gomm.Engine.CatchUp.Overtaking.{second_worker_overtakes}

-- With the default of four workers and 16384 slots; a record is its label.
second_worker_overtakes_example :
    (from : ℕ) × (to : ℕ) × (o : ℕ) × (rest : List (ℕ × ℕ)) × (others : List (Option ℕ))
    × (catch_up_plan 4 16384 50 200050 ≡ planned 16384 ((50, from) ∷ (from, to) ∷ rest))
    × (50 < o)
    × (from ≤ o)
    × (o < to)
    × ((drain_batch false (put false (new_ring_buffer 16384 50) o 7).0 512).1
        ≡ batch (some 7 ∷ others))
unfolding high_lag
second_worker_overtakes_example =
    second_worker_overtakes 2 16384 50 200050 50 200050 7 (omega arith) (omega arith) (omega arith)
      (omega arith) refl

-- The topic us.orders on the cluster us, which is a copy, with 200000 records that nobody has read.
abbrev copy_state : TopicState
copy_state = record {
  topic = codes "us" ++ (codes "." ++ codes "orders");
  connects = true;
  partitions = some (0 ∷ []);
  lags = λ n. lag_found (0, 200000);
}

abbrev discovery : TopicDiscovery prefixes
discovery = record {
  source_alias = codes "us";
  configs_synced = true;
  topic_filter = record { whitelist = []; blacklist = [] };
  policy = default (codes ".");
}

copy_caught_up_example :
    (should_replicate prefixes discovery copy_state.topic ≡ false)
    × ((ranges : List Range) × Memᴰ (0, (0, 200000)) ranges
        × (topic_steps us_eu true copy_state
            ≡ ensure_target (codes "us" ++ (codes "." ++ copy_state.topic)) 1
              ∷ catch_up copy_state.topic ranges
              ∷ []))
unfolding new_policy bytes_beq has_prefix skips_topic high_lag
copy_caught_up_example =
    copy_caught_up prefixes discovery us_eu (codes ".") (codes "us") (codes "orders") copy_state 0 0
      200000 (0, 200000) refl refl refl refl refl refl (Memᴰ.head refl) refl refl
