-- ===== src/Mirror/Source.antt =====
-- internal/mirror/source.go: the replication loop and Stop, with internal/mirror/dlq.go's Send. A
-- callback of Produce is taken to run when its record is produced: what it changes is read by the
-- loop only after `inflight.Wait`, when all have run. How each delivery ends is an argument: the
-- first Produce, or its retries by Retry, reach the target at some offset, or fail for good. The
-- consumer's position is the number of records polled, its committed offsets a number of those. The
-- metrics are left out as if their calls returned; Mirror.Meters has the two batched counters.
pub mod Losses
pub mod Commits
pub mod Syncs
mod Tests
use gomm.Prelude.{
  ℕ, suc, ◌+◌, ◌%◌, ◌^◌, Bool, true, false, ◌&&◌, ◌||◌, List, [], ◌∷◌, ◌++◌, Option, none, some,
  length, ltb, nat_beq, if◌then◌else◌, Int64, add64, le64, Bytes, codes,
}
use gomm.Types.{TopicPartition, OffsetSync}
use gomm.Offset.Store.{SyncStore, handle_sync}
use gomm.Policy.{ReplicationPolicy, format_remote_topic}
use gomm.Mirror.Breaker.{since}

abbrev pub Headers : Type 0
Headers = List (Bytes × Bytes)

pub record SourceRecord : Type 0 where
  pub topic : Bytes
  pub partition : ℕ
  pub offset : Int64
  pub key : Bytes
  pub value : Bytes
  pub headers : Headers
  pub timestamp : ℕ

-- The fields that are set of a record that is produced; `none` leaves the timestamp to the client.
pub record TargetRecord : Type 0 where
  pub topic : Bytes
  pub partition : ℕ
  pub key : Bytes
  pub value : Bytes
  pub headers : Headers
  pub timestamp : Option ℕ

-- How a delivery ends: the first Produce or a retry succeeds at an offset of the target, or all
-- retries fail with an error text.
pub data Delivery : Type 0 where
  acked : Int64 → Delivery
  recovered : Int64 → Delivery
  failed : Bytes → Delivery

pub record SourceConfig : Type 0 where
  pub alias : Bytes
  pub policy : ReplicationPolicy
  pub emits_syncs : Bool
  pub has_writer : Bool
  pub has_dlq : Bool
  -- From OffsetSyncInterval; positive.
  pub sync_write_interval : ℕ
  pub commit_batch : Int64
  pub commit_interval : Int64

pub record SourceState : Type 0 where
  pub records_since_commit : Int64
  pub last_commit_time : ℕ
  pub records_since_sync : ℕ
  pub produce_errors : ℕ
  pub polled : List (SourceRecord × Delivery)
  pub committed : ℕ
  pub produced : List TargetRecord
  pub sync_store : SyncStore
  pub written_syncs : List OffsetSync
  pub dead_letters : List (SourceRecord × Headers)

unfoldable pub target_record : SourceConfig → SourceRecord → TargetRecord
target_record cfg r = record {
  topic = format_remote_topic cfg.policy cfg.alias r.topic;
  partition = r.partition;
  key = r.key;
  value = r.value;
  headers = r.headers;
  timestamp = some r.timestamp;
}

-- The record of a retry, which sets no timestamp.
unfoldable pub retry_record : SourceConfig → SourceRecord → TargetRecord
retry_record cfg r = record {
  topic = format_remote_topic cfg.policy cfg.alias r.topic;
  partition = r.partition;
  key = r.key;
  value = r.value;
  headers = r.headers;
  timestamp = none;
}

abbrev pub sync_of_record : SourceRecord → Int64 → OffsetSync
sync_of_record r downstream = record {
  topic_partition = record { topic = r.topic; partition = r.partition };
  upstream_offset = r.offset;
  downstream_offset = downstream;
}

-- DLQ.Send: the headers it puts before the record's own. strconv.FormatInt is an argument.
unfoldable pub dlq_headers : (ℕ → Bytes) → SourceRecord → Bytes → Headers
dlq_headers format_int r error =
    (codes "gomm2.dlq.original.topic", r.topic)
    ∷ (codes "gomm2.dlq.original.partition", format_int r.partition)
    ∷ (codes "gomm2.dlq.original.offset", format_int r.offset)
    ∷ (codes "gomm2.dlq.error", error)
    ∷ r.headers

-- What a round of the loop meets: the time, whether a commit succeeds, and the records fetched.
pub record Round : Type 0 where
  pub now : ℕ
  pub commits : Bool
  pub fetched : List (SourceRecord × Delivery)

module _ (format_int : ℕ → Bytes) (cfg : SourceConfig) where
  abbrev pub store_sync : SourceRecord → Int64 → SourceState → SourceState
  store_sync r downstream st =
      if cfg.emits_syncs
      then record st { sync_store = handle_sync st.sync_store (sync_of_record r downstream) }
      else st

  -- Every `sync_write_interval`-th acknowledged record has its sync written to the topic.
  abbrev pub write_sync : SourceRecord → Int64 → SourceState → SourceState
  write_sync r downstream st =
      let count = st.records_since_sync + 1 in
      if cfg.emits_syncs && cfg.has_writer
      then record st {
        records_since_sync = count;
        written_syncs =
            if nat_beq (count % cfg.sync_write_interval) 0
            then st.written_syncs ++ (sync_of_record r downstream ∷ [])
            else st.written_syncs;
      }
      else st

  -- The callback of Produce for one record.
  unfoldable pub delivered : SourceState → SourceRecord → Delivery → SourceState
  delivered st r (acked downstream) = write_sync r downstream (store_sync r downstream st)
  delivered st r (recovered downstream) = store_sync r downstream st
  delivered st r (failed error) = record st {
    produce_errors = st.produce_errors + 1;
    dead_letters =
        if cfg.has_dlq
        then st.dead_letters ++ ((r, dlq_headers format_int r error) ∷ [])
        else st.dead_letters;
  }

  -- What reaches the target of one record.
  abbrev pub on_target : SourceRecord → Delivery → List TargetRecord
  on_target r (acked downstream) = target_record cfg r ∷ []
  on_target r (recovered downstream) = retry_record cfg r ∷ []
  on_target r (failed error) = []

  -- The loop over a fetch's records.
  unfoldable pub produce_all : SourceState → List (SourceRecord × Delivery) → SourceState
  produce_all st [] = st
  produce_all st ((r, d) ∷ more) =
      produce_all
        (delivered
          (record st {
            polled = st.polled ++ ((r, d) ∷ []);
            produced = st.produced ++ on_target r d;
          })
          r d)
        more

  -- The periodic commit, at time `now`; `commits` says whether CommitUncommittedOffsets succeeds. The
  -- counter of errors is swapped for zero also where the commit is skipped.
  unfoldable pub commit_step : ℕ → Bool → SourceState → SourceState
  commit_step now commits st =
      if le64 cfg.commit_batch st.records_since_commit
        || le64 cfg.commit_interval (since now st.last_commit_time)
      then (if ltb 0 st.produce_errors
          then record st { produce_errors = 0 }
          else if commits
          then record st {
            committed = length st.polled;
            records_since_commit = 0;
            last_commit_time = now;
            produce_errors = 0;
          }
          else record st { produce_errors = 0 })
      else st

  -- One round of the loop with the records of a fetch.
  unfoldable pub round : ℕ → Bool → List (SourceRecord × Delivery) → SourceState → SourceState
  round now commits [] st = st
  round now commits (x ∷ xs) st =
      let sent = produce_all st (x ∷ xs) in
      commit_step now commits
        (record sent { records_since_commit = add64 sent.records_since_commit (length (x ∷ xs)) })

  -- The final commit of Stop, where the loop has ended without a panic (see Mirror.Meters).
  unfoldable pub final_commit : Bool → SourceState → SourceState
  final_commit commits st =
      if nat_beq st.produce_errors 0
      then (if commits then record st { committed = length st.polled } else st)
      else st

  unfoldable pub rounds : List Round → SourceState → SourceState
  rounds [] st = st
  rounds (p ∷ ps) st = rounds ps (round p.now p.commits p.fetched st)
