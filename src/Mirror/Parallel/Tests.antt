-- ===== src/Mirror/Parallel/Tests.antt =====
-- internal/mirror/parallel_source.go: a plan for four workers, and a worker with two polls.
use gomm.Prelude.{ℕ, ◌≤◌, ◌<◌, ◌≡◌, ◌⊎◌, refl, false, List, [], ◌∷◌, arith}
use gomm.Mirror.Parallel.{planned, segment_loop, catch_up_plan, FetchPoll, fetch_worker}
use gomm.Mirror.Parallel.Segments.{Tiles, catch_up_plan-Tiles}
use gomm.Mirror.Parallel.Fetching.{accept_all, FetchedSo, fetch_worker-FetchedSo}

-- The last worker takes the remainder.
four_workers :
    catch_up_plan 4 16384 100 8103
    ≡ planned 8004 ((100, 2100) ∷ (2100, 4100) ∷ (4100, 6100) ∷ (6100, 8103) ∷ [])
unfolding catch_up_plan segment_loop
four_workers = refl

catch_up_plan-Tiles_example :
    (slots : ℕ) × (segments : List (ℕ × ℕ)) × (catch_up_plan 4 16384 100 8103
      ≡ planned slots segments)
    × Tiles 100 8103 segments
    × (((8003 < 16384) × (slots ≡ 8004)) ⊎ ((16384 ≤ 8003) × (slots ≡ 16384)))
catch_up_plan-Tiles_example = catch_up_plan-Tiles 3 16384 100 8103 (omega arith)

abbrev two_polls : List FetchPoll
two_polls =
    record { ctx_done = false; has_errors = false; offsets = 5 ∷ 6 ∷ [] }
    ∷ record { ctx_done = false; has_errors = false; offsets = 7 ∷ 8 ∷ [] }
    ∷ []

fetch_worker-FetchedSo_example : FetchedSo 5 8 (fetch_worker accept_all 8 0 two_polls)
fetch_worker-FetchedSo_example =
    fetch_worker-FetchedSo 5 8 0 two_polls (omega arith)
      (refl, refl, (refl, (refl, tt)), (refl, refl, (refl, (refl, tt)), tt))
