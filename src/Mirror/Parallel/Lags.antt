-- ===== src/Mirror/Parallel/Lags.antt =====
-- internal/mirror/parallel_source.go: GetPartitionLag and GetAllPartitionLags. The answers of the
-- admin client are arguments; `Each` calls its function on every entry of an answer, in some order.
pub mod Agreement
mod Tests
use gomm.Prelude.{
  ℕ, Bool, true, false, ◌&&◌, List, [], ◌∷◌, Option, none, some, if◌then◌else◌, Int64, Bytes, ◌==◌,
  bytes_eq, nat_eq, insert, lookup,
}

pub record CommittedOffset : Type 0 where
  pub topic : Bytes
  pub partition : ℕ
  pub at : Int64

pub record ListedOffset : Type 0 where
  pub topic : Bytes
  pub partition : ℕ
  pub offset : Int64

-- The calls of the client; `none` is an error.
pub record LagClient : Type 0 where
  pub builds_opts : Bool
  pub connects : Bool
  pub fetch_offsets : Option (List CommittedOffset)
  pub list_end_offsets : List Bytes → Option (List ListedOffset)

pub data LagResult (A : Type 0) : Type 0 where
  opts_failed connect_failed fetch_failed list_failed : LagResult A
  lag_found : A → LagResult A

-- The function given to Each, over the entries in turn; the last that matches stays.
unfoldable pub committed_at : Bytes → ℕ → List CommittedOffset → Int64 → Int64
committed_at topic partition [] found = found
committed_at topic partition (o ∷ more) found =
    committed_at topic partition more
      (if (o.topic == topic) && (o.partition == partition) then o.at else found)

unfoldable pub high_watermark : Bytes → ℕ → List ListedOffset → Int64 → Int64
high_watermark topic partition [] found = found
high_watermark topic partition (o ∷ more) found =
    high_watermark topic partition more
      (if (o.topic == topic) && (o.partition == partition) then o.offset else found)

-- The two calls, after the client is there; the errors in the order of the code.
abbrev pub after_list :
    {A : Type 0} → (List ListedOffset → A) → Option (List ListedOffset) → LagResult A
after_list f none = list_failed
after_list f (some ends) = lag_found (f ends)

abbrev pub after_offsets :
    {A : Type 0}
    → (List CommittedOffset → List ListedOffset → A)
    → Option (List ListedOffset)
    → Option (List CommittedOffset)
    → LagResult A
after_offsets f ends none = fetch_failed
after_offsets f ends (some offsets) = after_list (f offsets) ends

abbrev pub with_client :
    {A : Type 0}
    → LagClient
    → List Bytes
    → (List CommittedOffset → List ListedOffset → A)
    → LagResult A
with_client client topics f =
    if client.builds_opts
    then (if client.connects
        then after_offsets f (client.list_end_offsets topics) client.fetch_offsets
        else connect_failed)
    else opts_failed

-- The committed offset and the high watermark.
unfoldable pub get_partition_lag : LagClient → Bytes → ℕ → LagResult (Int64 × Int64)
get_partition_lag client topic partition = with_client client (topic ∷ []) (λ offsets ends.
    (committed_at topic partition offsets 0, high_watermark topic partition ends 0))

abbrev pub LagMap : Type 0
LagMap = List (Bytes × List (ℕ × (Int64 × Int64)))

-- The partitions of a topic in the map; those of a topic not in it are none.
abbrev pub partitions_in : Option (List (ℕ × (Int64 × Int64))) → List (ℕ × (Int64 × Int64))
partitions_in none = []
partitions_in (some known) = known

unfoldable pub collect_lags : List CommittedOffset → List ListedOffset → LagMap → LagMap
collect_lags offsets [] lags = lags
collect_lags offsets (o ∷ more) lags = collect_lags offsets more (
    insert o.topic
      (insert o.partition (committed_at o.topic o.partition offsets 0, o.offset)
        (partitions_in (lookup o.topic lags)))
      lags)

unfoldable pub get_all_partition_lags : LagClient → List Bytes → LagResult LagMap
get_all_partition_lags client topics =
    with_client client topics (λ offsets ends. collect_lags offsets ends [])
