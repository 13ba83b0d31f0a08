-- ===== src/Mirror/Retry/Backoff.antt =====
-- internal/mirror/retry.go: the back-off doubles up to its maximum.
use native.Mathlib.Nat.{mul-pos, pow-suc}
use gomm.Prelude.{
  ℕ, zero, suc, ◌-◌, ◌*◌, ◌^◌, ◌≤◌, ◌<◌, ◌≡◌, false, ◌||◌, some, arith, ltb, leb, ◌⊎◌, inl, inr,
  if◌then◌else◌, add64, lt64, le64,
}
use gomm.Mirror.Retry.{scaled, backoff_limit, compute_backoff}

pow_pos : (n : ℕ) → 0 < 2 ^ n
pow_pos zero = omega arith
pow_pos (suc n) = omega (arith, pow_pos n, pow-suc 2 n)

limit_of :
    (product max : ℕ)
    → 0 < product
    → max < 2 ^ 63
    → (let backoff = if ltb product (2 ^ 63) then product else 2 ^ 63 in
        if lt64 max backoff || le64 backoff 0 then max else backoff)
      ≡ (if leb product max then product else max)
limit_of product max pos small = ground arith

-- For a positive base and a maximum that is not negative, the limit of the draw is the base doubled
-- once for each attempt made, or the maximum where that is less, also where the product is out of
-- the range of an int64.
pub backoff_limit_min :
    (attempt base max_backoff : ℕ)
    → 0 < base
    → base < 2 ^ 63
    → max_backoff < 2 ^ 63
    → backoff_limit attempt base max_backoff
      ≡ (if leb (base * 2 ^ attempt) max_backoff then base * 2 ^ attempt else max_backoff)
unfolding backoff_limit
backoff_limit_min attempt base max_backoff pos low small =
    let product = base * 2 ^ attempt in
    let clamped : scaled attempt base ≡ (if ltb product (2 ^ 63) then product else 2 ^ 63) =
      ground arith in
    rw clamped (limit_of product max_backoff (mul-pos pos (pow_pos attempt)) small)

scaled-IsInt64 : (attempt base : ℕ) → base < 2 ^ 64 → scaled attempt base < 2 ^ 64
scaled-IsInt64 attempt base is64 = elim (below_or base) [
  | inl small ↦ ground arith
  | inr big ↦
      let pos : 0 < (2 ^ 64 - base) * 2 ^ attempt = mul-pos (omega arith) (pow_pos attempt) in
      ground arith
]
  where
    below_or : (b : ℕ) → (b < 2 ^ 63) ⊎ (2 ^ 63 ≤ b)
    below_or b = ground arith

limit-bounded :
    (backoff max : ℕ)
    → backoff < 2 ^ 64
    → max < 2 ^ 63
    → (if lt64 max backoff || le64 backoff 0 then max else backoff) ≤ max
limit-bounded backoff max is64 small = ground arith

-- Whatever the base and the attempt are, with a maximum that is not negative and below 2^63 - 1 the
-- draw does not panic, and the back-off is at most the maximum, for a random source that draws
-- below its argument.
pub compute_backoff-bounded :
    (draw : ℕ → ℕ)
    → ((n : ℕ) → 0 < n → draw n < n)
    → (attempt base max_backoff : ℕ) → base < 2 ^ 64
    → max_backoff < 2 ^ 63 - 1
    → (d : ℕ) × (compute_backoff draw attempt base max_backoff ≡ some d) × (d ≤ max_backoff)
unfolding compute_backoff backoff_limit
compute_backoff-bounded draw below attempt base max_backoff is64 small =
    let limit = backoff_limit attempt base max_backoff in
    let bound : limit ≤ max_backoff =
      limit-bounded (scaled attempt base) max_backoff (scaled-IsInt64 attempt base is64)
        (omega arith) in
    let drawn = below (add64 limit 1) (omega arith) in
    let positive : le64 (add64 limit 1) 0 ≡ false = ground arith in
    (draw (add64 limit 1), rw positive, omega arith)
