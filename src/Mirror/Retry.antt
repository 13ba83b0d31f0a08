-- ===== src/Mirror/Retry.antt =====
-- internal/mirror/retry.go, lines 16 to 86 and 239 to 263: retries with back-off, alone and behind a
-- circuit breaker. The world that the retried function, the context and the clock see is a state
-- `S`, which each of them may change; `wait` is the select on the timer and on the context. The
-- back-off is exact for a base below 2^53 ns, which a float64 holds, and a product out of range
-- converts to the least int64, as on amd64.
pub mod Attempts
pub mod Backoff
pub mod Guarded
mod Tests
use gomm.Prelude.{
  ℕ, zero, suc, ◌+◌, ◌-◌, ◌*◌, ◌^◌, Bool, true, false, ◌||◌, Option, none, some, ltb, nat_beq,
  if◌then◌else◌, Int64, add64, lt64, le64,
}
use gomm.Mirror.Breaker.{CircuitBreaker, allow, record_success, record_failure}

pub record RetryConfig : Type 0 where
  pub max_retries : Int64
  pub backoff_base : Int64
  pub backoff_max : Int64

abbrev pub default_retry_config : RetryConfig
default_retry_config = record {
  max_retries = 10;
  backoff_base = 100000000;
  backoff_max = 30000000000;
}

-- float64(base) * 2^attempt, as a Duration.
abbrev pub scaled : ℕ → Int64 → Int64
scaled attempt base =
    if ltb base (2 ^ 63)
    then (let product = base * 2 ^ attempt in if ltb product (2 ^ 63) then product else 2 ^ 63)
    else (let product = (2 ^ 64 - base) * 2 ^ attempt in
        if ltb product (2 ^ 63) then 2 ^ 64 - product else 2 ^ 63)

-- The limit of the random draw.
unfoldable pub backoff_limit : ℕ → Int64 → Int64 → Int64
backoff_limit attempt base max_backoff =
    let backoff = scaled attempt base in
    if lt64 max_backoff backoff || le64 backoff 0 then max_backoff else backoff

-- computeBackoff, from the draw that rand.Int63n makes below its argument: `none` where that
-- panics, since its argument is not positive.
unfoldable pub compute_backoff : (ℕ → ℕ) → ℕ → Int64 → Int64 → Option Int64
compute_backoff draw attempt base max_backoff =
    let n = add64 (backoff_limit attempt base max_backoff) 1 in
    if le64 n 0 then none else some (draw n)

-- What Retry returns: nil, or one of its errors with what it wraps; `panicked` is the draw's panic.
pub data RetryResult (E : Type 0) : Type 0 where
  succeeded : RetryResult E
  cancelled_before : ℕ → Option E → RetryResult E
  cancelled_in_backoff : ℕ → E → RetryResult E
  exhausted : Option E → RetryResult E
  panicked : RetryResult E

-- The functions that Retry calls.
pub record RetryWorld (S E : Type 0) : Type 0 where
  pub ctx_done : S → Bool
  pub draw : S → ℕ → ℕ
  pub wait : Int64 → S → S × Bool

module _ {S E : Type 0} (world : RetryWorld S E) (cfg : RetryConfig) (fn : S → S × Option E) where
  -- What follows an attempt: nil returns, an error goes on.
  abbrev pub after_attempt : (E → S → S × RetryResult E) → S × Option E → S × RetryResult E
  after_attempt failed (s, none) = (s, succeeded)
  after_attempt failed (s, some err) = failed err s

  -- The select: the timer fires first, or the context ends.
  abbrev pub after_wait : (S → S × RetryResult E) → ℕ → E → S × Bool → S × RetryResult E
  after_wait next attempt err (s, true) = next s
  after_wait next attempt err (s, false) = (s, cancelled_in_backoff (suc attempt) err)

  abbrev pub after_draw : (S → S × RetryResult E) → ℕ → E → S → Option Int64 → S × RetryResult E
  after_draw next attempt err s none = (s, panicked)
  after_draw next attempt err s (some backoff) = after_wait next attempt err (world.wait backoff s)

  abbrev pub back_off : (S → S × RetryResult E) → ℕ → E → S → S × RetryResult E
  back_off next attempt err s =
      after_draw next attempt err s
        (compute_backoff (world.draw s) attempt cfg.backoff_base cfg.backoff_max)

  -- The loop from attempt number `attempt` on, where `left` more may follow it; `last` is lastErr.
  unfoldable pub retry_loop : (left attempt : ℕ) (last : Option E) → S → S × RetryResult E
  retry_loop zero attempt last s =
      if world.ctx_done s
      then (s, cancelled_before attempt last)
      else after_attempt (λ err t. (t, exhausted (some err))) (fn s)
  retry_loop (suc left) attempt last s =
      let next : E → S → S × RetryResult E = λ err. retry_loop left (suc attempt) (some err) in
      if world.ctx_done s
      then (s, cancelled_before attempt last)
      else after_attempt (λ err. back_off (next err) attempt err) (fn s)

  unfoldable pub retry : S → S × RetryResult E
  retry s =
      if lt64 cfg.max_retries 0 then (s, exhausted none) else retry_loop cfg.max_retries 0 none s

-- The errors inside the guarded retry: errCircuitOpen, or the function's own.
pub data GuardedError (E : Type 0) : Type 0 where
  err_circuit_open : GuardedError E
  inner : E → GuardedError E

-- What RetryWithCircuitBreaker returns: errCircuitOpen at once, or what Retry returns.
pub data GuardedResult (E : Type 0) : Type 0 where
  rejected : GuardedResult E
  retried : RetryResult (GuardedError E) → GuardedResult E

abbrev pub wrap_error : {E : Type 0} → Option E → Option (GuardedError E)
wrap_error none = none
wrap_error (some err) = some (inner err)

module _ {S E : Type 0} where
  -- The world with the breaker in the state.
  abbrev pub with_breaker : RetryWorld S E → RetryWorld (S × CircuitBreaker) (GuardedError E)
  with_breaker world = record {
    ctx_done = λ (s, cb). world.ctx_done s;
    draw = λ (s, cb). world.draw s;
    wait = λ backoff (s, cb). let (t, fired) = world.wait backoff s in ((t, cb), fired);
  }

  -- The closure that is retried.
  unfoldable pub guarded :
      (S → ℕ)
      → (S → S × Option E)
      → S × CircuitBreaker
      → (S × CircuitBreaker) × Option (GuardedError E)
  guarded clock fn (s, cb) =
      let (cb', allowed) = allow (clock s) cb in
      let (t, err) = fn s in
      if allowed then ((t, cb'), wrap_error err) else ((s, cb'), some err_circuit_open)

  -- The breaker is told of the outcome; a panic passes it by.
  abbrev pub report :
      (S → ℕ) → (S × CircuitBreaker) × RetryResult (GuardedError E) → S × CircuitBreaker
  report clock ((s, cb), succeeded) = (s, record_success cb)
  report clock ((s, cb), panicked) = (s, cb)
  report clock ((s, cb), cancelled_before _ _) = (s, record_failure (clock s) cb)
  report clock ((s, cb), cancelled_in_backoff _ _) = (s, record_failure (clock s) cb)
  report clock ((s, cb), exhausted _) = (s, record_failure (clock s) cb)

  unfoldable pub retry_with_circuit_breaker :
      RetryWorld S E
      → (S → ℕ)
      → RetryConfig
      → (S → S × Option E)
      → S × CircuitBreaker
      → (S × CircuitBreaker) × GuardedResult E
  retry_with_circuit_breaker world clock cfg fn (s, cb) =
      let (cb', allowed) = allow (clock s) cb in
      let out = retry (with_breaker world) cfg (guarded clock fn) (s, cb') in
      if allowed then (report clock out, retried out.1) else ((s, cb'), rejected)
