-- ===== src/Mirror/Breaker.antt =====
-- internal/mirror/retry.go, lines 88 to 237: the circuit breaker. `time.Now()` is the argument `now`,
-- in nanoseconds; a method that moves from open to half-open gives the new breaker with its answer.
pub mod Counters
pub mod Recovery
mod Tests
use gomm.Prelude.{
  ℕ, ◌+◌, ◌-◌, ◌^◌, Bool, true, false, ◌&&◌, List, [], ◌∷◌, ltb, leb, if◌then◌else◌, Int64, add64,
  le64,
}

-- CircuitClosed, CircuitHalfOpen and CircuitOpen.
pub data CircuitState : Type 0 where
  circuit_closed circuit_half_open circuit_open : CircuitState

pub record CircuitBreakerConfig : Type 0 where
  pub failure_threshold : Int64
  pub reset_timeout : Int64
  pub half_open_max_probes : Int64

abbrev pub default_circuit_breaker_config : CircuitBreakerConfig
default_circuit_breaker_config = record {
  failure_threshold = 5;
  reset_timeout = 30000000000;
  half_open_max_probes = 3;
}

pub record CircuitBreaker : Type 0 where
  pub state : CircuitState
  pub failures : Int64
  pub successes : Int64
  pub last_failure_time : ℕ
  pub cfg : CircuitBreakerConfig

unfoldable pub new_circuit_breaker : CircuitBreakerConfig → CircuitBreaker
new_circuit_breaker cfg = record {
  state = circuit_closed;
  failures = 0;
  successes = 0;
  last_failure_time = 0;
  cfg = cfg;
}

-- time.Since: a Duration, which stops at its least and its greatest value.
unfoldable pub since : ℕ → ℕ → Int64
since now last =
    if leb last now
    then (if ltb (now - last) (2 ^ 63) then now - last else 2 ^ 63 - 1)
    else (if leb (last - now) (2 ^ 63) then 2 ^ 64 - (last - now) else 2 ^ 63)

-- The reset timeout is over.
abbrev pub waited : ℕ → CircuitBreaker → Bool
waited now cb = le64 cb.cfg.reset_timeout (since now cb.last_failure_time)

abbrev is_open : CircuitState → Bool
is_open circuit_open = true
is_open circuit_half_open = false
is_open circuit_closed = false

unfoldable pub check_state_transition : ℕ → CircuitBreaker → CircuitBreaker
check_state_transition now cb =
    if is_open cb.state && waited now cb
    then record cb { state = circuit_half_open; successes = 0 }
    else cb

-- State.
unfoldable pub state_at : ℕ → CircuitBreaker → CircuitBreaker × CircuitState
state_at now cb = let cb' = check_state_transition now cb in (cb', cb'.state)

unfoldable pub lets_through : CircuitState → Bool
lets_through circuit_closed = true
lets_through circuit_half_open = true
lets_through circuit_open = false

unfoldable pub allow : ℕ → CircuitBreaker → CircuitBreaker × Bool
allow now cb = let cb' = check_state_transition now cb in (cb', lets_through cb'.state)

abbrev succeeded_in : CircuitState → CircuitBreaker → CircuitBreaker
succeeded_in circuit_closed cb = record cb { failures = 0 }
succeeded_in circuit_half_open cb =
    let successes = add64 cb.successes 1 in
    if le64 cb.cfg.half_open_max_probes successes
    then record cb { state = circuit_closed; failures = 0; successes = 0 }
    else record cb { successes = successes }
succeeded_in circuit_open cb = cb

unfoldable pub record_success : CircuitBreaker → CircuitBreaker
record_success cb = succeeded_in cb.state cb

abbrev failed_in : CircuitState → CircuitBreaker → CircuitBreaker
failed_in circuit_closed cb =
    if le64 cb.cfg.failure_threshold cb.failures then record cb { state = circuit_open } else cb
failed_in circuit_half_open cb = record cb { state = circuit_open; successes = 0 }
failed_in circuit_open cb = cb

unfoldable pub record_failure : ℕ → CircuitBreaker → CircuitBreaker
record_failure now cb =
    failed_in cb.state (record cb { last_failure_time = now; failures = add64 cb.failures 1 })

unfoldable pub reset : CircuitBreaker → CircuitBreaker
reset cb = record cb { state = circuit_closed; failures = 0; successes = 0 }

-- The calls that change a breaker, with the time of each.
pub data BreakerCall : Type 0 where
  state_call : ℕ → BreakerCall
  allow_call : ℕ → BreakerCall
  success_call : BreakerCall
  failure_call : ℕ → BreakerCall
  reset_call : BreakerCall

unfoldable pub breaker_call : CircuitBreaker → BreakerCall → CircuitBreaker
breaker_call cb (state_call now) = (state_at now cb).0
breaker_call cb (allow_call now) = (allow now cb).0
breaker_call cb success_call = record_success cb
breaker_call cb (failure_call now) = record_failure now cb
breaker_call cb reset_call = reset cb

unfoldable pub breaker_calls : CircuitBreaker → List BreakerCall → CircuitBreaker
breaker_calls cb [] = cb
breaker_calls cb (c ∷ cs) = breaker_calls (breaker_call cb c) cs
