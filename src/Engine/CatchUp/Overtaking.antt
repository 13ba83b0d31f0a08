-- ===== src/Engine/CatchUp/Overtaking.antt =====
-- internal/mirror/engine.go with parallel_source.go and ring_buffer.go: the first two fetch workers of a
-- catch-up that the engine starts.
use native.Mathlib.Nat.{
  mod-lt, add-mul-mod_self_left, suc-mul, mul-suc, mul_comm, mul-div-le, lt-div-mul-add,
  le-div_iff_mul-le,
}
use gomm.Prelude.{
  ℕ, zero, suc, ◌+◌, ◌-◌, ◌*◌, ◌/◌, ◌%◌, ◌^◌, ◌≤◌, ◌<◌, ◌≡◌, refl, ap, ◌∙◌, false, List, [], ◌∷◌,
  Option, some, arith, leb, length-replicate, get_or-replicate, Int64,
}
use gomm.Mirror.Ring.{RingSlot, empty_slot, new_ring_buffer, put, drain_batch, batch, is_empty}
use gomm.Mirror.Ring.Session.{put_ahead_overtakes}
use gomm.Mirror.Parallel.{planned, segment_loop, catch_up_plan}
use gomm.Engine.CatchUp.{high_lag}

-- A range that is chosen has more than 100000 offsets.
pub high_lag-range :
    (committed hwm start end : Int64)
    → hwm < 2 ^ 63
    → committed < 2 ^ 64
    → high_lag committed hwm ≡ some (start, end)
    → (end ≡ hwm) × (start + 100000 < end)
unfolding high_lag
high_lag-range committed hwm start end small range h = ground arith

-- What the two first segments are, of a range of at least two workers.
abbrev TwoSegments : ℕ → ℕ → ℕ → ℕ → List (ℕ × ℕ) → Type 0
TwoSegments start size end cap segments =
    (to : ℕ) × (rest : List (ℕ × ℕ)) × (segments
      ≡ (start, start + size) ∷ (start + size, to) ∷ rest)
    × (start + size + size ≤ to)
    × (to ≤ end)

segment_loop-two :
    (more start size end cap : ℕ)
    → 0 < size
    → start + suc (suc more) * size ≤ end
    → TwoSegments start size end cap (segment_loop (suc more) start size end)
unfolding segment_loop
segment_loop-two zero start size end cap pos fits =
    let a : leb end start ≡ false = ground (arith, suc-mul 1 size, suc-mul 0 size) in
    let b : leb end (start + size) ≡ false = ground (arith, suc-mul 1 size, suc-mul 0 size) in
    rw (a, b) (end, [], refl, omega (arith, suc-mul 1 size, suc-mul 0 size), omega arith)
segment_loop-two (suc more) start size end cap pos fits =
    let two = suc-mul (suc (suc more)) size in
    let one = suc-mul (suc more) size in
    let last = suc-mul more size in
    let a : leb end start ≡ false = ground (arith, two, one, last) in
    let b : leb end (start + size) ≡ false = ground (arith, two, one, last) in
    rw (a, b) (start + size + size, _, refl, omega arith, omega (arith, two, one, last))

-- The offset, in the second segment, of the slot of the first.
overtaking_offset :
    (cap size : ℕ)
    → 0 < cap
    → cap < size
    → (k : ℕ) × (size ≤ cap * k) × (cap * k < size + size) × (0 < cap * k)
overtaking_offset cap size pos h =
    let low = mul-div-le size cap in
    let high = lt-div-mul-add {a = size} {b = cap} pos in
    let same = mul_comm (size / cap) cap in
    let next = mul-suc cap (size / cap) in
    (
      suc (size / cap),
      omega (arith, high, same, next),
      omega (arith, low, next),
      omega (arith, next),
    )

plan-many :
    (more cap start end : ℕ)
    → start < end
    → 1000 ≤ (end - start) / suc (suc more)
    → cap ≤ end - start
    → catch_up_plan (suc (suc more)) cap start end
      ≡ planned cap (segment_loop (suc more) start ((end - start) / suc (suc more)) end)
unfolding catch_up_plan
plan-many more cap start end h many wide =
    let same : suc (suc more) - 1 ≡ suc more = omega arith in ground (arith, same)

new_buffer_overtaken :
    {A : Type 0} (cap start o : ℕ) (r : A)
    → 0 < cap
    → start < o
    → o < 2 ^ 63
    → o % cap ≡ start % cap
    → (others : List (Option A)) × ((drain_batch false
          (put false (new_ring_buffer cap start) o r).0
          512).1
        ≡ batch (some r ∷ others))
unfolding new_ring_buffer
new_buffer_overtaken {A} cap start o r pos ahead below same =
    put_ahead_overtakes false (new_ring_buffer cap start) o r 512 pos
      (length-replicate cap empty_slot) ahead below same
      (ap (λ (s : RingSlot A). is_empty (s.state))
        (get_or-replicate cap (start % cap) empty_slot empty_slot (mod-lt start pos)))
      (omega arith)

-- For at least two workers and a ring buffer of at least 1000 slots, where the number of slots and one
-- more, times the number of workers, is at most 100000, as with the defaults 16384 and 4: in every range that the
-- engine chooses to catch up, with a high watermark below 2^63, the second worker's segment begins
-- behind the first's and has an offset whose record, if it is put into the new buffer first, is the
-- first that the drainer is handed, in place of the record of the start of the range.
pub second_worker_overtakes :
    {A : Type 0} (more cap : ℕ) (committed hwm start end : Int64) (r : A)
    → 1000 ≤ cap
    → suc cap * suc (suc more) ≤ 100000
    → hwm < 2 ^ 63
    → committed < 2 ^ 64
    → high_lag committed hwm ≡ some (start, end)
    → (from : ℕ) × (to : ℕ) × (o : ℕ) × (rest : List (ℕ × ℕ)) × (others : List (Option A))
      × (catch_up_plan (suc (suc more)) cap start end
          ≡ planned cap ((start, from) ∷ (from, to) ∷ rest))
      × (start < o)
      × (from ≤ o)
      × (o < to)
      × ((drain_batch false (put false (new_ring_buffer cap start) o r).0 512).1
          ≡ batch (some r ∷ others))
unfolding catch_up_plan
second_worker_overtakes {A} more cap committed hwm start end r large few small range chosen =
    let (at_end, long) = high_lag-range committed hwm start end small range chosen in
    let total = end - start in
    let size = total / suc (suc more) in
    let wide : cap < size =
      (le-div_iff_mul-le {k = suc (suc more)} (omega arith)).1 (omega (arith, few)) in
    let fits : start + suc (suc more) * size ≤ end =
      omega (arith, mul-div-le total (suc (suc more))) in
    let (to, rest, shape, far, inside) =
      segment_loop-two more start size end cap (omega arith) fits in
    let (k, low, high, ahead) = overtaking_offset cap size (omega arith) wide in
    let same : (start + cap * k) % cap ≡ start % cap = add-mul-mod_self_left start cap k in
    let (others, first) =
      new_buffer_overtaken cap start (start + cap * k) r (omega arith) (omega arith)
        (omega (arith, inside)) same in
    (
      start + size,
      to,
      start + cap * k,
      rest,
      others,
      plan-many more cap start end (omega arith) (omega arith) (omega (arith, few))
          ∙ ap (planned cap) shape,
      omega arith,
      omega arith,
      omega arith,
      first,
    )
