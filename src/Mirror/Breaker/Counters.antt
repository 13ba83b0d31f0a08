-- ===== src/Mirror/Breaker/Counters.antt =====
-- internal/mirror/retry.go: what the counters of a breaker say in each state.
use gomm.Prelude.{
  ℕ, ◌^◌, ◌<◌, ◌≡◌, refl, List, [], ◌∷◌, arith, Int64, add64, le64, Bool-cases, inl, inr,
}
use gomm.Mirror.Breaker.{
  CircuitState, circuit_closed, circuit_half_open, circuit_open, CircuitBreakerConfig,
  CircuitBreaker, new_circuit_breaker, check_state_transition, waited, state_at, allow,
  record_success, record_failure, reset, BreakerCall, state_call, allow_call, success_call,
  failure_call, reset_call, breaker_call, breaker_calls, succeeded_in, failed_in,
}

-- In a breaker that is closed, fewer failures in a row than the threshold; half-open, fewer
-- successful probes than close it; else no successes kept.
abbrev CountedIn : CircuitState → CircuitBreaker → Type 0
CountedIn circuit_closed cb = (cb.failures < cb.cfg.failure_threshold) × (cb.successes ≡ 0)
CountedIn circuit_half_open cb = cb.successes < cb.cfg.half_open_max_probes
CountedIn circuit_open cb = cb.successes ≡ 0

abbrev pub Counted : CircuitBreaker → Type 0
Counted cb = CountedIn cb.state cb

-- Both limits are positive.
abbrev pub PositiveLimits : CircuitBreakerConfig → Type 0
PositiveLimits cfg =
    (0 < cfg.failure_threshold)
    × (cfg.failure_threshold < 2 ^ 63)
    × (0 < cfg.half_open_max_probes)
    × (cfg.half_open_max_probes < 2 ^ 63)

abbrev breaker : CircuitState → Int64 → Int64 → ℕ → CircuitBreakerConfig → CircuitBreaker
breaker s f n t cfg = record {
  state = s;
  failures = f;
  successes = n;
  last_failure_time = t;
  cfg = cfg;
}

transition-Counted :
    (now : ℕ) (s : CircuitState) (f n : Int64) (t : ℕ) (cfg : CircuitBreakerConfig)
    → PositiveLimits cfg
    → Counted (breaker s f n t cfg)
    → Counted (check_state_transition now (breaker s f n t cfg))
unfolding check_state_transition
transition-Counted now circuit_closed f n t cfg pos h = h
transition-Counted now circuit_half_open f n t cfg pos h = h
transition-Counted now circuit_open f n t cfg (_, _, probes, _) h =
    elim (Bool-cases (waited now (breaker circuit_open f n t cfg))) [
      | inl due ↦ rw due probes
      | inr early ↦ rw early h
    ]

success-Counted :
    (s : CircuitState) (f n : Int64) (t : ℕ) (cfg : CircuitBreakerConfig)
    → PositiveLimits cfg
    → Counted (breaker s f n t cfg)
    → Counted (record_success (breaker s f n t cfg))
unfolding record_success
success-Counted circuit_closed f n t cfg (some_failures, _, _, _) (low, zeroed) =
    (some_failures, zeroed)
success-Counted circuit_half_open f n t cfg (some_failures, _, probes, small) h =
    elim (Bool-cases (le64 cfg.half_open_max_probes (add64 n 1))) [
      | inl due ↦ rw due (some_failures, refl)
      | inr early ↦ rw early (ground arith)
    ]
success-Counted circuit_open f n t cfg pos h = h

failure-Counted :
    (now : ℕ) (s : CircuitState) (f n : Int64) (t : ℕ) (cfg : CircuitBreakerConfig)
    → PositiveLimits cfg
    → Counted (breaker s f n t cfg)
    → Counted (record_failure now (breaker s f n t cfg))
unfolding record_failure
failure-Counted now circuit_closed f n t cfg (_, small, _, _) (low, zeroed) =
    elim (Bool-cases (le64 cfg.failure_threshold (add64 f 1))) [
      | inl due ↦ rw due zeroed
      | inr early ↦ rw early (ground arith, zeroed)
    ]
failure-Counted now circuit_half_open f n t cfg pos h = refl
failure-Counted now circuit_open f n t cfg pos h = h

call-Counted :
    (cb : CircuitBreaker) (c : BreakerCall)
    → PositiveLimits cb.cfg
    → Counted cb
    → Counted (breaker_call cb c)
unfolding breaker_call state_at allow reset
call-Counted cb (state_call now) pos h =
    transition-Counted now cb.state cb.failures cb.successes cb.last_failure_time cb.cfg pos h
call-Counted cb (allow_call now) pos h =
    transition-Counted now cb.state cb.failures cb.successes cb.last_failure_time cb.cfg pos h
call-Counted cb success_call pos h =
    success-Counted cb.state cb.failures cb.successes cb.last_failure_time cb.cfg pos h
call-Counted cb (failure_call now) pos h =
    failure-Counted now cb.state cb.failures cb.successes cb.last_failure_time cb.cfg pos h
call-Counted cb reset_call (some_failures, _, _, _) h = (some_failures, refl)

call-cfg : (cb : CircuitBreaker) (c : BreakerCall) → (breaker_call cb c).cfg ≡ cb.cfg
unfolding breaker_call state_at allow reset check_state_transition record_success record_failure
call-cfg cb (state_call now) = ground arith
call-cfg cb (allow_call now) = ground arith
call-cfg cb success_call = of_state cb.state
  where
    of_state : (s : CircuitState) → (succeeded_in s cb).cfg ≡ cb.cfg
    of_state circuit_closed = refl
    of_state circuit_half_open = ground arith
    of_state circuit_open = refl
call-cfg cb (failure_call now) = of_state cb.state
  where
    of_state :
        (s : CircuitState)
        → (failed_in s (record cb { last_failure_time = now; failures = add64 cb.failures 1 })).cfg
          ≡ cb.cfg
    of_state circuit_closed = ground arith
    of_state circuit_half_open = refl
    of_state circuit_open = refl
call-cfg cb reset_call = refl

calls-Counted :
    (cb : CircuitBreaker) (cs : List BreakerCall)
    → PositiveLimits cb.cfg
    → Counted cb
    → Counted (breaker_calls cb cs)
unfolding breaker_calls
calls-Counted cb [] pos h = h
calls-Counted cb (c ∷ cs) pos h =
    calls-Counted (breaker_call cb c) cs (rw (call-cfg cb c) pos) (call-Counted cb c pos h)

-- With positive limits, after any sequence of calls on a new breaker: if it is closed, fewer
-- failures are counted than the threshold and no success; if it is half-open, fewer successes than
-- close it; and if it is open, no success.
pub breaker_calls-Counted :
    (cfg : CircuitBreakerConfig) (cs : List BreakerCall)
    → PositiveLimits cfg
    → Counted (breaker_calls (new_circuit_breaker cfg) cs)
unfolding new_circuit_breaker
breaker_calls-Counted cfg cs pos = calls-Counted (new_circuit_breaker cfg) cs pos (pos.0, refl)
