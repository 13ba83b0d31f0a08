-- ===== src/Mirror/Parallel.antt =====
-- internal/mirror/parallel_source.go: the plan of a partition's catch-up and the fetch workers.
-- Offsets are those of Kafka, not negative; a range ends below 2^63, so no sum wraps.
pub mod Segments
pub mod Fetching
pub mod Draining
pub mod Pipeline
pub mod Lags
mod Tests
use gomm.Prelude.{
  ℕ, zero, suc, ◌+◌, ◌-◌, ◌/◌, Bool, true, false, ◌&&◌, List, [], ◌∷◌, ◌++◌, ltb, leb, nat_beq,
  if◌then◌else◌,
}

-- What catchUpPartitionPipelined decides first: nothing is to be done, the division by the number
-- of workers panics, or the ring buffer's capacity and the segments of the workers.
pub data CatchUpPlan : Type 0 where
  nothing_to_do division_panic : CatchUpPlan
  planned : (ring_capacity : ℕ) (segments : List (ℕ × ℕ)) → CatchUpPlan

-- The loop that launches the workers, with those that follow the next one first.
unfoldable pub segment_loop : (left start size end : ℕ) → List (ℕ × ℕ)
segment_loop zero start size end = if leb end start then [] else (start, end) ∷ []
segment_loop (suc left) start size end =
    let rest = segment_loop left (start + size) size end in
    if leb end start then [] else (start, start + size) ∷ rest

-- effectiveWorkers, less one, and segmentSize.
abbrev pub workers_and_size : ℕ → ℕ → ℕ × ℕ
workers_and_size workers total =
    if ltb (total / workers) 1000 then (0, total) else (workers - 1, total / workers)

abbrev pub ring_capacity_for : ℕ → ℕ → ℕ
ring_capacity_for capacity total = if ltb total capacity then total + 1 else capacity

unfoldable pub catch_up_plan : (workers capacity start end : ℕ) → CatchUpPlan
catch_up_plan zero capacity start end = if leb end start then nothing_to_do else division_panic
catch_up_plan (suc more) capacity start end =
    let (left, size) = workers_and_size (suc more) (end - start) in
    if leb end start
    then nothing_to_do
    else planned (ring_capacity_for capacity (end - start)) (segment_loop left start size end)

-- A poll of a fetch worker: whether the context has ended before it, whether it has errors, and the
-- offsets of its records.
pub record FetchPoll : Type 0 where
  pub ctx_done : Bool
  pub has_errors : Bool
  pub offsets : List ℕ

-- How a worker ends: it returns nil, or the error of ten polls with errors in a row; `fetching` if
-- the polls at hand do not end it.
pub data FetchEnd : Type 0 where
  fetch_done fetch_failed fetching : FetchEnd

-- The loop over a poll's records: the offsets put, and whether the worker returns in it. `accepts`
-- says whether Put takes a record.
unfoldable pub put_records : (ℕ → Bool) → ℕ → List ℕ → List ℕ × Bool
put_records accepts to [] = ([], false)
put_records accepts to (o ∷ more) =
    let (rest, stop) = put_records accepts to more in
    if leb to o then ([], true) else if accepts o then (o ∷ rest, stop) else ([], true)

abbrev pub last_offset : ℕ → List ℕ → ℕ
last_offset o [] = o
last_offset o (p ∷ more) = last_offset p more

-- A round that got records, from what was put and whether the worker returned meanwhile: it returns
-- too if the last record is at the boundary.
abbrev pub after_records :
    (to o : ℕ) → List ℕ → List ℕ × Bool → List ℕ × FetchEnd → List ℕ × FetchEnd
after_records to o more (put, stop) (rest, end) =
    if stop
    then (put, fetch_done)
    else if leb to (suc (last_offset o more))
    then (put, fetch_done)
    else (put ++ rest, end)

-- The records of a poll; without any the loop goes on with the errors counted, else from none.
abbrev pub after_fetch :
    (ℕ → Bool) → ℕ → List ℕ → List ℕ × FetchEnd → List ℕ × FetchEnd → List ℕ × FetchEnd
after_fetch accepts to [] counted_on reset = counted_on
after_fetch accepts to (o ∷ more) counted_on reset =
    after_records to o more (put_records accepts to (o ∷ more)) reset

abbrev pub count_error : Bool → ℕ → ℕ
count_error has_errors errors = if has_errors then suc errors else errors

-- One round; ten polls with errors in a row are fatal.
abbrev pub fetch_round :
    (ℕ → Bool)
    → ℕ
    → Bool
    → Bool
    → ℕ
    → List ℕ
    → List ℕ × FetchEnd
    → List ℕ × FetchEnd
    → List ℕ × FetchEnd
fetch_round accepts to ctx_done has_errors counted offsets counted_on reset =
    if ctx_done
    then ([], fetch_done)
    else if has_errors && leb 10 counted
    then ([], fetch_failed)
    else after_fetch accepts to offsets counted_on reset

-- The loop of fetchWorker up to offset `to`, with the errors in a row so far: the offsets put, in
-- order, and how it ends.
unfoldable pub fetch_worker : (ℕ → Bool) → ℕ → ℕ → List FetchPoll → List ℕ × FetchEnd
fetch_worker accepts to errors [] = ([], fetching)
fetch_worker accepts to errors (p ∷ polls) =
    let counted = count_error p.has_errors errors in
    fetch_round accepts to p.ctx_done p.has_errors counted p.offsets
      (fetch_worker accepts to counted polls) (fetch_worker accepts to 0 polls)
