-- ===== src/Mirror/Parallel/Lags/Agreement.antt =====
-- internal/mirror/parallel_source.go: the batch query and the single query of lags agree.
use gomm.Prelude.{
  ℕ, ◌≡◌, refl, sym, ap, ◌∙◌, Bool, true, false, ◌&&◌, ◌||◌, List, [], ◌∷◌, Option, none, some,
  arith, if◌then◌else◌, Int64, ◌⊎◌, inl, inr, Bytes, ◌==◌, Bool-cases, bytes_eq, nat_eq, insert,
  lookup, lookup-insert,
}
use gomm.Mirror.Parallel.Lags.{
  CommittedOffset, ListedOffset, LagClient, lag_found, committed_at, high_watermark, LagMap,
  partitions_in, with_client, after_offsets, connect_failed, opts_failed, collect_lags,
  get_partition_lag, get_all_partition_lags,
}

-- What the map has of a partition.
abbrev pub lag_in : LagMap → Bytes → ℕ → Option (Int64 × Int64)
lag_in lags topic partition = lookup partition (partitions_in (lookup topic lags))

-- Whether an answer lists a partition.
abbrev pub lists : Bytes → ℕ → List ListedOffset → Bool
lists topic partition [] = false
lists topic partition (o ∷ more) =
    ((o.topic == topic) && (o.partition == partition)) || lists topic partition more

empty_lags : (t : Bytes) (p : ℕ) → lag_in [] t p ≡ none
unfolding lookup
empty_lags t p = refl

insert_lag :
    (lags : LagMap) (t u : Bytes) (p q : ℕ) (v : Int64 × Int64)
    → lag_in (insert t (insert p v (partitions_in (lookup t lags))) lags) u q
      ≡ (if (t == u) && (p == q) then some v else lag_in lags u q)
insert_lag lags t u p q v = ground (
  arith,
  lookup-insert t u (insert p v (partitions_in (lookup t lags))) lags,
  lookup-insert p q v (partitions_in (lookup t lags)),
  bytes_eq.same_iff t u,
)

unlisted :
    (t : Bytes) (p : ℕ) (ends : List ListedOffset) (found : Int64)
    → lists t p ends ≡ false
    → high_watermark t p ends found ≡ found
unfolding high_watermark
unlisted t p [] found h = refl
unlisted t p (o ∷ more) found h = ground (arith, unlisted t p more found)

-- The map has exactly the partitions that are listed, each with its committed offset and watermark.
lag_in-collect_lags :
    (offsets : List CommittedOffset) (ends : List ListedOffset) (lags : LagMap) (t : Bytes) (p : ℕ)
    (found : Int64)
    → lag_in (collect_lags offsets ends lags) t p ≡ (
        if lists t p ends
        then some (committed_at t p offsets 0, high_watermark t p ends found)
        else lag_in lags t p)
unfolding collect_lags high_watermark
lag_in-collect_lags offsets [] lags t p found = refl
lag_in-collect_lags offsets (o ∷ more) lags t p found =
    by_match ((o.topic == t) && (o.partition == p)) refl (lag_in-collect_lags offsets more next t p)
  where
    found_here : Int64 × Int64
    found_here = (committed_at o.topic o.partition offsets 0, o.offset)

    next : LagMap
    next = insert o.topic (insert o.partition found_here (partitions_in (lookup o.topic lags))) lags

    by_match :
        (b : Bool)
        → ((o.topic == t) && (o.partition == p)) ≡ b
        → ((f : Int64)
            → lag_in (collect_lags offsets more next) t p ≡ (
                if lists t p more
                then some (committed_at t p offsets 0, high_watermark t p more f)
                else lag_in next t p))
        → lag_in (collect_lags offsets more next) t p ≡ (
            if b || lists t p more
            then some (
              committed_at t p offsets 0,
              high_watermark t p more (if b then o.offset else found),
            )
            else lag_in lags t p)
    by_match false e rest =
        rest found
        ∙ ap
            (λ v.
              if lists t p more
              then some (committed_at t p offsets 0, high_watermark t p more found)
              else v)
            (ground (arith, insert_lag lags o.topic t o.partition p found_here, e))
    by_match true e rest =
        let same_topic : o.topic ≡ t = (bytes_eq.same_iff o.topic t).0 (ground (arith, e)) in
        let same_partition : o.partition ≡ p =
          (nat_eq.same_iff o.partition p).0 (ground (arith, e)) in
        let here : lag_in next t p ≡ some found_here =
          insert_lag lags o.topic t o.partition p found_here
          ∙ ap (λ b. if b then some found_here else lag_in lags t p) e in
        let same : found_here ≡ (committed_at t p offsets 0, o.offset) =
          rw (same_topic, same_partition) refl in
        rest o.offset ∙ ground (arith, unlisted t p more o.offset, here ∙ ap some same)

-- The entries of an answer for a topic.
abbrev pub of_topic : Bytes → List ListedOffset → List ListedOffset
of_topic topic [] = []
of_topic topic (o ∷ more) =
    let rest = of_topic topic more in if o.topic == topic then o ∷ rest else rest

of_topic-same :
    (t : Bytes) (p : ℕ) (ends : List ListedOffset) (found : Int64)
    → (lists t p (of_topic t ends) ≡ lists t p ends)
      × (high_watermark t p (of_topic t ends) found ≡ high_watermark t p ends found)
unfolding high_watermark
of_topic-same t p [] found = (refl, refl)
of_topic-same t p (o ∷ more) found = by_topic (o.topic == t) refl (of_topic-same t p more)
  where
    by_topic :
        (b : Bool)
        → (o.topic == t) ≡ b
        → ((f : Int64)
            → (lists t p (of_topic t more) ≡ lists t p more)
              × (high_watermark t p (of_topic t more) f ≡ high_watermark t p more f))
        → (lists t p (if b then o ∷ of_topic t more else of_topic t more) ≡ lists t p (o ∷ more))
          × (high_watermark t p (if b then o ∷ of_topic t more else of_topic t more) found
              ≡ high_watermark t p (o ∷ more) found)
    by_topic true e rest = (
      ap (λ l. ((o.topic == t) && (o.partition == p)) || l) (rest found).0,
      (rest (if (o.topic == t) && (o.partition == p) then o.offset else found)).1,
    )
    by_topic false e rest = ground (arith, rest found, e)

-- What a query that succeeds has been answered.
with_client-found :
    {A : Type 0} (client : LagClient) (topics : List Bytes)
    (f : List CommittedOffset → List ListedOffset → A) (a : A)
    → with_client client topics f ≡ lag_found a
    → (offsets : List CommittedOffset) × (ends : List ListedOffset) × (client.fetch_offsets
        ≡ some offsets)
      × (client.list_end_offsets topics ≡ some ends)
      × (f offsets ends ≡ a)
with_client-found client topics f a h =
    by_answers client.builds_opts client.connects client.fetch_offsets
      (client.list_end_offsets topics) refl refl h
  where
    by_answers :
        (builds connects : Bool) (fetched : Option (List CommittedOffset))
        (listed : Option (List ListedOffset))
        → client.fetch_offsets ≡ fetched
        → client.list_end_offsets topics ≡ listed
        → (if builds
            then (if connects then after_offsets f listed fetched else connect_failed)
            else opts_failed)
          ≡ lag_found a
        → (offsets : List CommittedOffset) × (ends : List ListedOffset) × (client.fetch_offsets
            ≡ some offsets)
          × (client.list_end_offsets topics ≡ some ends)
          × (f offsets ends ≡ a)
    by_answers true true (some offsets) (some ends) e e' h = (offsets, ends, e, e', cc h)
    by_answers true true (some offsets) none e e' h = cc h
    by_answers true true none listed e e' h = cc h
    by_answers true false fetched listed e e' h = cc h
    by_answers false connects fetched listed e e' h = cc h

-- Where both queries succeed, and ListEndOffsets lists for a topic what it lists when asked for it
-- alone, the map of GetAllPartitionLags has for a partition exactly the pair that GetPartitionLag
-- gives; or it has none, and GetPartitionLag gives a high watermark of zero.
pub lags_agree :
    (client : LagClient) (topics : List Bytes) (topic : Bytes) (partition : ℕ) (lags : LagMap)
    (lag : Int64 × Int64)
    → get_all_partition_lags client topics ≡ lag_found lags
    → get_partition_lag client topic partition ≡ lag_found lag
    → ((ends alone : List ListedOffset)
        → client.list_end_offsets topics ≡ some ends
        → client.list_end_offsets (topic ∷ []) ≡ some alone
        → of_topic topic ends ≡ of_topic topic alone)
    → (lag_in lags topic partition ≡ some lag)
      ⊎ ((lag_in lags topic partition ≡ none) × (lag.1 ≡ 0))
unfolding get_all_partition_lags get_partition_lag
lags_agree client topics topic partition lags lag all one alike =
    let (offsets, ends, e, le, made) =
      with_client-found client topics (λ offsets ends. collect_lags offsets ends []) lags all in
    let (offsets', alone, e', le', found) =
      with_client-found client (topic ∷ [])
        (λ offsets ends.
          (committed_at topic partition offsets 0, high_watermark topic partition ends 0))
        lag one in
    let same_offsets : offsets ≡ offsets' = cc (e, e') in
    let same_list = alike ends alone le le' in
    let mark : high_watermark topic partition ends 0 ≡ high_watermark topic partition alone 0 =
      sym (of_topic-same topic partition ends 0).1
      ∙ ap (λ l. high_watermark topic partition l 0) same_list
      ∙ (of_topic-same topic partition alone 0).1 in
    let whole = lag_in-collect_lags offsets ends [] topic partition 0 in
    elim (Bool-cases (lists topic partition ends)) [
      | inl listed ↦ inl (ground (arith, made, found, same_offsets, mark, whole, listed))
      | inr unseen ↦ inr (
        ground (arith, made, whole, unseen, empty_lags topic partition),
        ground (arith, found, mark, unlisted topic partition ends 0 unseen),
      )
    ]
