-- ===== src/Mirror/Source/Tests.antt =====
-- internal/mirror/source.go: rounds in which a delivery fails.
use gomm.Prelude.{ℕ, ◌≡◌, refl, true, List, [], ◌∷◌, ◌++◌, arith, length, Bytes, codes}
use gomm.Offset.Store.{new_sync_store}
use gomm.Offset.Store.Contents.{Reached, fresh}
use gomm.Policy.{default}
use gomm.Mirror.Breaker.{since}
use gomm.Mirror.Source.{
  SourceRecord, Delivery, acked, recovered, failed, SourceConfig, SourceState, Round, delivered,
  produce_all, commit_step, round, rounds,
}
use gomm.Mirror.Source.Losses.{fetched_all}
use gomm.Mirror.Source.Commits.{failed_then_committed}
use gomm.Mirror.Source.Syncs.{syncs_after, rounds-Reached}

abbrev format_int : ℕ → Bytes
format_int n = codes "7"

abbrev config : SourceConfig
config = record {
  alias = codes "us";
  policy = default (codes ".");
  emits_syncs = true;
  has_writer = true;
  has_dlq = true;
  sync_write_interval = 100;
  commit_batch = 1;
  commit_interval = 5;
}

abbrev started : SourceState
started = record {
  records_since_commit = 0;
  last_commit_time = 0;
  records_since_sync = 0;
  produce_errors = 0;
  polled = [];
  committed = 0;
  produced = [];
  sync_store = new_sync_store;
  written_syncs = [];
  dead_letters = [];
}

abbrev order : ℕ → SourceRecord
order n = record {
  topic = codes "orders";
  partition = 0;
  offset = n;
  key = [];
  value = [];
  headers = [];
  timestamp = n;
}

abbrev lost : SourceRecord × Delivery
lost = (order 0, failed (codes "timeout"))

abbrev sent : SourceRecord × Delivery
sent = (order 1, acked 40)

abbrev two_rounds : List Round
two_rounds =
    record { now = 1; commits = true; fetched = lost ∷ [] }
    ∷ record { now = 9; commits = true; fetched = sent ∷ (order 2, recovered 41) ∷ [] }
    ∷ []

failed_then_committed_example :
    (round format_int config 9 true
      (sent ∷ [])
      (round format_int config 1 true (lost ∷ []) started)).committed
    ≡ length (started.polled ++ ((lost ∷ []) ++ (sent ∷ [])))
unfolding since round commit_step produce_all delivered
failed_then_committed_example =
    failed_then_committed format_int config 1 9 true lost sent [] [] started refl (omega arith) refl
      refl

rounds-Reached_example :
    Reached
      (syncs_after [] (fetched_all two_rounds))
      (rounds format_int config two_rounds started).sync_store
rounds-Reached_example =
    rounds-Reached format_int config refl two_rounds started []
      (omega arith, (omega arith, (omega arith, tt))) fresh
