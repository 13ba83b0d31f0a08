-- ===== src/Mirror/Parallel/Segments.antt =====
-- internal/mirror/parallel_source.go: the workers' segments.
use native.Mathlib.Nat.{div-add-mod, suc-mul}
use gomm.Prelude.{
  ℕ, zero, suc, ◌+◌, ◌-◌, ◌*◌, ◌/◌, ◌≤◌, ◌<◌, ◌≡◌, refl, Bool, true, false, List, [], ◌∷◌, arith,
  ◌⊎◌, ltb, leb, if◌then◌else◌,
}
use gomm.Mirror.Parallel.{planned, segment_loop, workers_and_size, ring_capacity_for, catch_up_plan}

-- The segments lie end to end from `a` to `b`, none of them empty.
abbrev pub Tiles : ℕ → ℕ → List (ℕ × ℕ) → Type 0
Tiles a b [] = a ≡ b
Tiles a b ((from, to) ∷ more) = (from ≡ a) × (from < to) × Tiles to b more

segment_loop-Tiles :
    (left start size end : ℕ)
    → 0 < size
    → start + suc left * size ≤ end
    → Tiles start end (segment_loop left start size end)
unfolding segment_loop
segment_loop-Tiles zero start size end pos fits =
    let first : leb end start ≡ false = ground (arith, suc-mul 0 size) in
    rw first (refl, omega (arith, suc-mul 0 size), refl)
segment_loop-Tiles (suc left) start size end pos fits =
    let first : leb end start ≡ false = ground (arith, suc-mul (suc left) size) in
    rw first (
      refl,
      omega arith,
      segment_loop-Tiles left (start + size) size end pos (omega (arith, suc-mul (suc left) size)),
    )

-- For a range that is not empty and at least one worker there is a plan, and its segments lie end to
-- end over the whole range, none of them empty: every offset is fetched by exactly one worker. The
-- ring buffer has one slot more than the range, or the configured capacity where that is no more
-- than the range.
pub catch_up_plan-Tiles :
    (more capacity start end : ℕ)
    → start < end
    → (slots : ℕ) × (segments : List (ℕ × ℕ)) × (catch_up_plan (suc more) capacity start end
        ≡ planned slots segments)
      × Tiles start end segments
      × (((end - start < capacity) × (slots ≡ end - start + 1))
          ⊎ ((capacity ≤ end - start) × (slots ≡ capacity)))
unfolding catch_up_plan
catch_up_plan-Tiles more capacity start end h =
    let total = end - start in
    let (left, size) = workers_and_size (suc more) total in
    let some_range : leb end start ≡ false = ground arith in
    (
      ring_capacity_for capacity total,
      segment_loop left start size end,
      rw some_range,
      tiles (ltb (total / suc more) 1000) refl,
      ground arith,
    )
  where
    tiles :
        (few : Bool)
        → ltb ((end - start) / suc more) 1000 ≡ few
        → (let p : ℕ × ℕ =
              (if few then (0, end - start) else (suc more - 1, (end - start) / suc more)) in
            Tiles start end (segment_loop p.0 start p.1 end))
    tiles true e =
        segment_loop-Tiles zero start (end - start) end (omega arith)
          (omega (arith, suc-mul 0 (end - start)))
    tiles false e =
        let size = (end - start) / suc more in
        let big : 1000 ≤ size = ground arith in
        let exact = div-add-mod (end - start) (suc more) in
        let same : suc more - 1 ≡ more = omega arith in
        rw same (segment_loop-Tiles more start size end (omega arith) (omega (arith, exact)))
