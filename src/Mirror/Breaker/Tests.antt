-- ===== src/Mirror/Breaker/Tests.antt =====
-- internal/mirror/retry.go: runs on a breaker with the default limits.
use gomm.Prelude.{ℕ, ◌≡◌, refl, true, List, [], ◌∷◌, arith, replicate}
use gomm.Mirror.Breaker.{
  circuit_half_open, circuit_open, CircuitBreakerConfig, CircuitBreaker,
  default_circuit_breaker_config, new_circuit_breaker, since, allow, BreakerCall, allow_call,
  success_call, failure_call, reset_call, breaker_calls,
}
use gomm.Mirror.Breaker.Counters.{Counted, breaker_calls-Counted}
use gomm.Mirror.Breaker.Recovery.{recovers}

abbrev defaults : CircuitBreakerConfig
defaults = default_circuit_breaker_config

abbrev tripped : CircuitBreaker
tripped = record {
  state = circuit_open;
  failures = 5;
  successes = 0;
  last_failure_time = 7;
  cfg = defaults;
}

abbrev half_a_minute : ℕ
half_a_minute = 30000000007

abbrev a_day : List BreakerCall
a_day = failure_call 1 ∷ success_call ∷ failure_call 2 ∷ allow_call 3 ∷ reset_call ∷ []

breaker_calls-Counted_example : Counted (breaker_calls (new_circuit_breaker defaults) a_day)
breaker_calls-Counted_example =
    breaker_calls-Counted defaults a_day (omega arith, omega arith, omega arith, omega arith)

recovers_example :
    ((allow half_a_minute tripped).1 ≡ true)
    × (breaker_calls tripped (allow_call half_a_minute ∷ replicate 2 success_call)
        ≡ record tripped { state = circuit_half_open; successes = 2 })
unfolding since
recovers_example = recovers half_a_minute tripped 2 refl refl (omega arith) (omega arith)
