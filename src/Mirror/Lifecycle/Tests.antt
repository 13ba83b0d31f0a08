-- ===== src/Mirror/Lifecycle/Tests.antt =====
-- internal/mirror: a component that fails to start, starts and stops, and a queue that is closed.
use gomm.Prelude.{
  ℕ, ◌≡◌, ◌++◌, refl, true, false, List, [], ◌∷◌, arith, if◌then◌else◌, Bytes, codes,
}
use gomm.Mirror.Source.{SourceRecord}
use gomm.Mirror.Lifecycle.{Clients, Dialing, new_pair, remove, Dlq}
use gomm.Mirror.Lifecycle.Ownership.{
  PairCall, source_starts, stops, pair_calls, PairOwns, pair_calls-PairOwns,
}
use gomm.Mirror.Lifecycle.Burial.{
  DlqCall, sends, closes, dlq_calls, sent_open, has_close, dlq_calls-Handed,
}

abbrev good : Dialing
good = record { builds_opts = true; connects = true }

abbrev bad : Dialing
bad = record { builds_opts = true; connects = false }

abbrev calls : List PairCall
calls =
    source_starts good bad
    ∷ source_starts good good
    ∷ source_starts good good
    ∷ stops
    ∷ source_starts good good
    ∷ []

pair_calls-PairOwns_example :
    PairOwns (2 ∷ []) (pair_calls (new_pair, record { next_id = 5; opened = 2 ∷ [] }) calls)
pair_calls-PairOwns_example = pair_calls-PairOwns (2 ∷ []) 5 calls (omega arith, tt)

abbrev decimal : ℕ → Bytes
decimal n = codes "7"

abbrev failed_order : SourceRecord
failed_order = record {
  topic = codes "orders";
  partition = 0;
  offset = 3;
  key = [];
  value = codes "x";
  headers = [];
  timestamp = 1;
}

abbrev queue : Dlq
queue = record { topic = codes "gomm2-dlq-us-eu"; producer = 4; closed = false; handed = [] }

abbrev queue_clients : Clients
queue_clients = record { next_id = 5; opened = 4 ∷ 2 ∷ [] }

abbrev buried : List DlqCall
buried = sends failed_order (codes "timeout") ∷ closes ∷ sends failed_order (codes "timeout") ∷ []

dlq_calls-Handed_example :
    ((dlq_calls decimal (queue, queue_clients) buried).0.handed ≡ [] ++ sent_open decimal buried)
    × ((dlq_calls decimal (queue, queue_clients) buried).0.closed ≡ has_close decimal buried)
    × ((dlq_calls decimal (queue, queue_clients) buried).1.opened
        ≡ (if has_close decimal buried then remove 4 (4 ∷ 2 ∷ []) else 4 ∷ 2 ∷ []))
dlq_calls-Handed_example = dlq_calls-Handed decimal queue queue_clients buried refl
