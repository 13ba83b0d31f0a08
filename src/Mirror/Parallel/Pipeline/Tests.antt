-- ===== src/Mirror/Parallel/Pipeline/Tests.antt =====
-- internal/mirror/parallel_source.go: a catch-up of three offsets through a buffer of two slots.
use gomm.Prelude.{ℕ, true, false, List, [], ◌∷◌, Bytes, codes}
use gomm.Mirror.Source.{acked}
use gomm.Mirror.Parallel.Draining.{Fetched, DrainConfig}
use gomm.Mirror.Parallel.Pipeline.{Turn, worker_turn, close_turn, context_ends, drainer_turn}

abbrev decimal : ℕ → Bytes
decimal n = codes "7"

abbrev to_eu : DrainConfig
to_eu = record {
  target_topic = codes "us.orders";
  source_topic = codes "orders";
  partition = 0;
  has_dlq = true;
  takes_partition = true;
}

-- The record of an offset.
abbrev orders : ℕ → Fetched
orders n = (
  record {
    topic = codes "orders";
    partition = 0;
    offset = n;
    key = [];
    value = codes "x";
    headers = [];
    timestamp = n;
  },
  acked n,
)

-- The worker meets a full buffer, and the context ends.
abbrev stalled : List Turn
stalled =
    worker_turn
    ∷ worker_turn
    ∷ worker_turn
    ∷ drainer_turn false
    ∷ worker_turn
    ∷ close_turn
    ∷ drainer_turn true
    ∷ context_ends
    ∷ drainer_turn false
    ∷ []
